-- ===== src/Net/Clients.antt =====
-- Who waits in `Server.wait_closed` of mt_asyncio/asyncio/_net.py, while transports attach and detach on any
-- worker.
use mt_asyncio.Prelude.{
  ℕ, ◌≡◌, ◌⊎◌, inl, inr, Bool, true, false, ◌||◌, Option, none, some, List, [], ◌∷◌, arith,
  contains, contains-append,
}
use mt_asyncio.Futures.{World, done, cancel, create_future}
use mt_asyncio.Sync.Handover.{done-cancel}
use mt_asyncio.Net.{Server, ServerBase, Waiting, returns, parks, wait_closed}

abbrev pub is_among : ℕ → Option (List ℕ) → Bool
is_among f none = false
is_among f (some fs) = contains f fs

abbrev listed : Option (List ℕ) → List ℕ
listed none = []
listed (some fs) = fs

-- A call of CPython's class leaves the waiters alone, or completes all of them and forgets them.
abbrev pub KeepsOrWakes : Server → World Bool → Server × World Bool → Type 0
KeepsOrWakes s w (s', w') =
    ((s'.waiters ≡ s.waiters) × ((g : ℕ) → done w' g ≡ done w g))
    ⊎ ((s'.waiters ≡ none) × ((g : ℕ) → done w' g ≡ (is_among g s.waiters || done w g)))

-- What the module relies on.
pub record IsServer (b : ServerBase) : Type 0 where
  pub attaches_lem : (t : ℕ) (s : Server) (w : World Bool) → KeepsOrWakes s w (b.attach t s w)
  pub detaches_lem : (t : ℕ) (s : Server) (w : World Bool) → KeepsOrWakes s w (b.detach t s w)
  pub wakeup_lem : (s : Server) (w : World Bool) → KeepsOrWakes s w (b.wakeup s w)
  pub close_lem : (s : Server) (w : World Bool) → KeepsOrWakes s w (b.close s w)

-- `open_waits` lists the futures that are awaited in `wait_closed`.
pub record System : Type 0 where
  pub server : Server
  pub world : World Bool
  pub open_waits : List ℕ

pub data Event : Type 0 where
  attaches detaches : ℕ → Event
  wakes closes waits : Event
  cancels : ℕ → Option ℕ → Event

abbrev settle : System → Server × World Bool → System
settle s (server, w) = record s { server = server; world = w }

abbrev settle_wait : System → Waiting → System
settle_wait s returns = s
settle_wait s (parks f w server) = record {
  server = server;
  world = w;
  open_waits = f ∷ s.open_waits;
}

unfoldable pub step : ServerBase → System → Event → System
unfolding wait_closed cancel
step b s (attaches t) = settle s (b.attach t s.server s.world)
step b s (detaches t) = settle s (b.detach t s.server s.world)
step b s wakes = settle s (b.wakeup s.server s.world)
step b s closes = settle s (b.close s.server s.world)
step b s waits = settle_wait s (wait_closed s.world s.server)
step b s (cancels f msg) = record s { world = (cancel f msg s.world).1 }

unfoldable pub run : ServerBase → System → List Event → System
run b s [] = s
run b s (e ∷ es) = run b (step b s e) es

abbrev pub start : World Bool → System
start w = record {
  server = record { waiters = some []; clients = []; is_closed = false };
  world = w;
  open_waits = [];
}

abbrev Inv : System → Type 0
Inv s =
    (f : ℕ)
    → contains f s.open_waits ≡ true
    → done s.world f ≡ false
    → is_among f s.server.waiters ≡ true

settle-Inv :
    (s : System) (r : Server × World Bool)
    → KeepsOrWakes s.server s.world r
    → Inv s
    → Inv (settle s r)
settle-Inv s r (inl (e, d)) inv f o h = ground (arith, e, d f, inv f, o, h)
settle-Inv s r (inr (e, d)) inv f o h = ground (arith, e, d f, inv f, o, h)

module _ (b : ServerBase) (law : IsServer b) where
  step-Inv : (s : System) (e : Event) → Inv s → Inv (step b s e)
  unfolding step create_future
  step-Inv s (attaches t) inv =
      settle-Inv s (b.attach t s.server s.world) (law.attaches_lem t s.server s.world) inv
  step-Inv s (detaches t) inv =
      settle-Inv s (b.detach t s.server s.world) (law.detaches_lem t s.server s.world) inv
  step-Inv s wakes inv =
      settle-Inv s (b.wakeup s.server s.world) (law.wakeup_lem s.server s.world) inv
  step-Inv s closes inv =
      settle-Inv s (b.close s.server s.world) (law.close_lem s.server s.world) inv
  step-Inv s waits inv = λ f o h.
      ground (arith, inv f, o, h, contains-append f (listed s.server.waiters) (s.world.next ∷ []))
  step-Inv s (cancels g msg) inv = λ f o h. ground (arith, inv f, o, h, done-cancel s.world g msg f)

  run-Inv : (es : List Event) (s : System) → Inv s → Inv (run b s es)
  unfolding run
  run-Inv [] s inv = inv
  run-Inv (e ∷ es) s inv = run-Inv es (step b s e) (step-Inv s e inv)

  -- No one waits for a closed server in vain: over every history of transports that attach and detach,
  -- wake-ups, closings, waits and cancellations, where each call of CPython's class either leaves the
  -- waiters alone or wakes them all, a task that awaits a pending future in `wait_closed` stands among
  -- the waiters of the server.
  pub no_stranded_waiting :
      (w : World Bool) (es : List Event) (f : ℕ)
      → let s = run b (start w) es in
        contains f s.open_waits ≡ true → done s.world f ≡ false → is_among f s.server.waiters ≡ true
  no_stranded_waiting w es f o h = run-Inv es (start w) (λ g c d. cc) f o h
