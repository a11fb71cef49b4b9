-- ===== src/Streams/Draining.antt =====
-- The handoff of `StreamReaderProtocol` in mt_asyncio/asyncio/_streams.py: a transport that pauses and resumes
-- writing on any worker, and any number of tasks that drain.
use mt_asyncio.Prelude.{
  ℕ, ◌≡◌, Bool, true, false, not, ◌&&◌, ◌||◌, Option, List, [], ◌∷◌, arith, contains,
  contains-append, contains-remove_ne,
}
use mt_asyncio.Futures.{World, done, cancel}
use mt_asyncio.Sync.Handover.{done-cancel}
use mt_asyncio.Transports.{discard}
use mt_asyncio.Transports.Reads.{contains-discard}
use mt_asyncio.Streams.{Flow, FlowBase, Drain, refused, drained, blocked, drain_helper, drain_over}

-- Every future of the list is completed, and no other, if the test holds.
abbrev pub Completes : Bool → List ℕ → World Bool → World Bool → Type 0
Completes b fs w w' = (g : ℕ) → done w' g ≡ ((b && contains g fs) || done w g)

-- What the module relies on: CPython's documented behaviour.
pub record IsFlow (b : FlowBase) : Type 0 where
  pub pauses : (s : Flow) (w : World Bool) → (b.pause_writing s w ≡ (record s { paused = true }, w))
  pub resumes :
      (s : Flow) (w : World Bool)
      → ((b.resume_writing s w).0 ≡ record s { paused = false })
        × Completes true s.drain_waiters w (b.resume_writing s w).1
  pub loses :
      (s : Flow) (w : World Bool)
      → ((b.connection_lost s w).0 ≡ record s { connection_lost = true })
        × Completes s.paused s.drain_waiters w (b.connection_lost s w).1

-- `open` lists the futures that are awaited in `_drain_helper`.
pub record System : Type 0 where
  pub flow : Flow
  pub world : World Bool
  pub open_drains : List ℕ

pub data Event : Type 0 where
  pauses_writing resumes_writing loses_connection drains : Event
  leaves : ℕ → Event
  cancels : ℕ → Option ℕ → Event

abbrev settle_drain : System → Drain → System
settle_drain s (refused e) = s
settle_drain s drained = s
settle_drain s (blocked f w flow) = record {
  flow = flow;
  world = w;
  open_drains = f ∷ s.open_drains;
}

abbrev settle_flow : System → Flow × World Bool → System
settle_flow s (flow, w) = record s { flow = flow; world = w }

-- `leaves` is the end of an await, by its future or by CancelledError.
unfoldable pub step : FlowBase → System → Event → System
unfolding drain_helper drain_over cancel
step b s pauses_writing = settle_flow s (b.pause_writing s.flow s.world)
step b s resumes_writing = settle_flow s (b.resume_writing s.flow s.world)
step b s loses_connection = settle_flow s (b.connection_lost s.flow s.world)
step b s drains = settle_drain s (drain_helper s.flow s.world)
step b s (leaves f) = record s { flow = drain_over f s.flow; open_drains = discard f s.open_drains }
step b s (cancels f msg) = record s { world = (cancel f msg s.world).1 }

unfoldable pub run : FlowBase → System → List Event → System
run b s [] = s
run b s (e ∷ es) = run b (step b s e) es

abbrev pub start : World Bool → System
start w = record {
  flow = record { paused = false; connection_lost = false; drain_waiters = [] };
  world = w;
  open_drains = [];
}

abbrev Inv : System → Type 0
Inv s =
    (f : ℕ)
    → contains f s.open_drains ≡ true
    → done s.world f ≡ false
    → (s.flow.paused && (not s.flow.connection_lost && contains f s.flow.drain_waiters)) ≡ true

module _ (b : FlowBase) (law : IsFlow b) where
  step-Inv : (s : System) (e : Event) → Inv s → Inv (step b s e)
  unfolding step
  step-Inv s pauses_writing inv f o h =
      let p = law.pauses s.flow s.world in ground (arith, inv f, o, h, p)
  step-Inv s resumes_writing inv f o h =
      let (p, all) = law.resumes s.flow s.world in ground (arith, inv f, o, h, p, all f)
  step-Inv s loses_connection inv f o h =
      let (p, all) = law.loses s.flow s.world in ground (arith, inv f, o, h, p, all f)
  step-Inv s drains inv f o h =
      ground (arith, inv f, o, h, contains-append f s.flow.drain_waiters (s.world.next ∷ []))
  step-Inv s (leaves g) inv f o h = ground (
    arith,
    inv f,
    o,
    h,
    contains-discard f g s.open_drains,
    contains-remove_ne f g s.flow.drain_waiters,
  )
  step-Inv s (cancels g msg) inv f o h = ground (arith, inv f, o, h, done-cancel s.world g msg f)

  run-Inv : (es : List Event) (s : System) → Inv s → Inv (run b s es)
  unfolding run
  run-Inv [] s inv = inv
  run-Inv (e ∷ es) s inv = run-Inv es (step b s e) (step-Inv s e inv)

  -- No writer is stranded: over every history of pauses, resumptions, a lost connection, drains and
  -- cancellations, where CPython's class behaves as documented, a task that drains and awaits a future
  -- that is not done does so while writing is paused, the connection is there, and its future is among
  -- the waiters: the resumption or the loss to come will wake it.
  pub no_stranded_writer :
      (w : World Bool) (es : List Event) (f : ℕ)
      → let s = run b (start w) es in
        contains f s.open_drains ≡ true
        → done s.world f ≡ false
        → (s.flow.paused && (not s.flow.connection_lost && contains f s.flow.drain_waiters)) ≡ true
  no_stranded_writer w es f o h = run-Inv es (start w) (λ g c d. cc) f o h
