-- ===== src/Transports/Life.antt =====
-- The life of a `SocketTransport` of mt_asyncio/asyncio/_transports.py on the registrations of its loop: the
-- handles of `_startup`, `_locked_write_ready` and `_call_connection_lost` run in any order.
use mt_asyncio.Prelude.{
  ℕ, ◌+◌, ◌≡◌, refl, Bool, true, false, not, ◌&&◌, ◌||◌, Option, none, some, List, [], ◌∷◌, arith,
  ◌==◌, if◌then◌else◌,
}
use mt_asyncio.Loop.Registrations.{
  Registry, empty, live, registration, add_fd_callback, drop_registration,
}

-- `connected` says that `connection_made` was called, `lost` that the connection's end was; `writes` counts
-- the runs of the write implementation, `has_write_impl` says that it is there.
pub record Transport : Type 0 where
  pub fd : ℕ
  pub connected : Bool
  pub closing : Bool
  pub lost : Bool
  pub has_write_impl : Bool
  pub writes : ℕ
  pub waiter_set : Bool

-- `SocketTransport(...)` of this descriptor.
abbrev pub new : ℕ → Transport
new fd = record {
  fd = fd;
  connected = false;
  closing = false;
  lost = false;
  has_write_impl = true;
  writes = 0;
  waiter_set = false;
}

-- Whether there is a waiter that is not cancelled.
abbrev is_waiting : Option Bool → Bool
is_waiting none = false
is_waiting (some cancelled) = not cancelled

-- `_startup`, where `connection_made` may close the transport; `waiter` says whether it is cancelled.
unfoldable pub startup : Bool → Option Bool → Transport → Registry → Transport × Registry
unfolding add_fd_callback
startup closes waiter t r =
    let closing = t.closing || closes in
    (
      record t {
        connected = true;
        closing = closing;
        waiter_set = t.waiter_set || is_waiting waiter;
      },
      if closing then r else add_fd_callback t.fd false r,
    )

unfoldable pub locked_write_ready : Transport → Transport
locked_write_ready t = if t.has_write_impl then record t { writes = t.writes + 1 } else t

-- `_call_connection_lost`, up to the call of the parent, which closes the socket.
unfoldable pub call_connection_lost : Transport → Registry → Transport × Registry
unfolding drop_registration
call_connection_lost t r =
    (record t { has_write_impl = false; lost = true }, drop_registration t.fd r)

pub record System : Type 0 where
  pub transport : Transport
  pub registry : Registry

-- `closes` is whatever of the parent sets `_closing`; `_call_connection_lost` is scheduled after that only.
pub data Event : Type 0 where
  starts : Bool → Option Bool → Event
  closes writes_ready loses : Event

abbrev settle : Transport × Registry → System
settle (t, r) = record { transport = t; registry = r }

unfoldable pub step : System → Event → System
unfolding startup locked_write_ready call_connection_lost
step s (starts c w) = settle (startup c w s.transport s.registry)
step s closes = record s { transport = record (s.transport) { closing = true } }
step s writes_ready = record s { transport = locked_write_ready s.transport }
step s loses =
    if s.transport.closing then settle (call_connection_lost s.transport s.registry) else s

unfoldable pub run : System → List Event → System
run s [] = s
run s (e ∷ es) = run (step s e) es

abbrev pub start : ℕ → System
start fd = record { transport = new fd; registry = empty }

record Inv (s : System) : Type 0 where
  connected_first : (s.transport.connected || (live (s.registry.sios s.transport.fd) == 0)) ≡ true
  gone : (not s.transport.lost || (live (s.registry.sios s.transport.fd) == 0)) ≡ true
  silent : (s.transport.lost && s.transport.has_write_impl) ≡ false
  closed_first : (not s.transport.lost || s.transport.closing) ≡ true

step-Inv : (s : System) (e : Event) → Inv s → Inv (step s e)
unfolding step registration
step-Inv s (starts c w) inv = record {
  connected_first = ground (arith, inv.connected_first);
  gone = ground (arith, inv.gone, inv.closed_first);
  silent = ground (arith, inv.silent);
  closed_first = ground (arith, inv.closed_first);
}
step-Inv s closes inv = record {
  connected_first = inv.connected_first;
  gone = inv.gone;
  silent = inv.silent;
  closed_first = ground (arith, inv.closed_first);
}
step-Inv s writes_ready inv = record {
  connected_first = ground (arith, inv.connected_first);
  gone = ground (arith, inv.gone);
  silent = ground (arith, inv.silent);
  closed_first = ground (arith, inv.closed_first);
}
step-Inv s loses inv = record {
  connected_first = ground (arith, inv.connected_first);
  gone = ground (arith, inv.gone);
  silent = ground (arith, inv.silent);
  closed_first = ground (arith, inv.closed_first);
}

run-Inv : (es : List Event) (s : System) → Inv s → Inv (run s es)
unfolding run
run-Inv [] s inv = inv
run-Inv (e ∷ es) s inv = run-Inv es (step s e) (step-Inv s e inv)

-- In whatever order the handles of a transport run, closings in between: the loop has a registration of its
-- descriptor only after `connection_made` was called; once the connection is lost it has none, although
-- a start may come later, so the next socket with this number starts afresh; and from then on no
-- write runs.
pub nothing_outlives_connection :
    (fd : ℕ) (es : List Event)
    → let s = run (start fd) es in
      ((s.transport.connected || (live (s.registry.sios s.transport.fd) == 0)) ≡ true)
      × ((not s.transport.lost || (live (s.registry.sios s.transport.fd) == 0)) ≡ true)
      × (s.transport.lost ≡ true → locked_write_ready s.transport ≡ s.transport)
unfolding locked_write_ready
nothing_outlives_connection fd es =
    let inv =
      run-Inv es (start fd)
        (record { connected_first = refl; gone = refl; silent = refl; closed_first = refl }) in
    (inv.connected_first, inv.gone, λ l. ground (arith, l, inv.silent))
