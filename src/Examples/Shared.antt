-- ===== src/Examples/Shared.antt =====
-- What threads share: the theorems of `Transports`, `Reactor` and `Loop` at concrete histories.
use mt_asyncio.Prelude.{◌≡◌, refl, true, false, none, some, List, [], ◌∷◌}
use mt_asyncio.Transports.{Connection}
use mt_asyncio.Transports.Reads.{
  System, enrols, claims, reads, suspends, start, fresh_claim_overtaken,
}
use mt_asyncio.Transports.Reads
use mt_asyncio.Reactor.{Surroundings}
use mt_asyncio.Reactor.Balance.{acquires, releases, begun, reactor_balanced, is_some}
use mt_asyncio.Reactor.Balance
use mt_asyncio.Loop.Dispatch.{rounds, edges, begins, returns}
use mt_asyncio.Loop.Dispatch
use mt_asyncio.Loop.Registrations.{
  Registry, empty, adds, uses, live, is_unused, current, one_registration, no_orphan_callback,
}
use mt_asyncio.Loop.Registrations

-- Task 7 writes to connection 2, a read of it stands aside, and the task suspends.
abbrev write_and_suspend : List Reads.Event
write_and_suspend = enrols false false false 7 2 ∷ claims 7 2 ∷ reads 2 100 ∷ suspends 7 ∷ []

abbrev suspended : System
suspended = Reads.run start write_and_suspend

abbrev stood_aside : Connection
stood_aside = record {
  claims = 7 ∷ [];
  read_deferred = true;
  read_defer_since = some 100;
  closing = false;
  attached = true;
}

abbrev nothing_yet : Surroundings
nothing_yet = record { existing = none; fresh = 3; driven = false; comes_up = true }

abbrev two_loops : List Balance.Event
two_loops = acquires true nothing_yet ∷ acquires true nothing_yet ∷ releases ∷ []

abbrev shared : Balance.System
shared = Balance.run begun two_loops

-- A handle parks, an edge comes, the callback runs and returns, and a stale bit is cleared.
abbrev one_edge : List Dispatch.Event
one_edge =
    rounds false false ∷ edges ∷ begins ∷ returns ∷ rounds true false ∷ rounds false false ∷ []

-- A reader is replaced, a socket helper uses the descriptor, and another socket gets its number.
abbrev recycled : List Registrations.Event
recycled = adds 4 false ∷ adds 4 false ∷ uses 4 1 ∷ uses 4 2 ∷ adds 4 true ∷ []

abbrev registry : Registry
registry = Registrations.run empty recycled

no_orphan_callback_example :
    current (registry.handle 2).is_writer (registry.sios (registry.handle 2).fd) ≡ some 2
unfolding Registrations.run Registrations.step
no_orphan_callback_example = no_orphan_callback recycled 2 refl
