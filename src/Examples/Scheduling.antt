-- ===== src/Examples/Scheduling.antt =====
-- Scheduling on a loop: the theorems of `Loop.Scheduling` and `Tasks.Lifetime` at concrete histories.
use mt_asyncio.Prelude.{not, ◌||◌, ◌==◌, ◌≡◌, true, false, none, List, [], ◌∷◌, ◌++◌, ltb}
use mt_asyncio.Errors.{user}
use mt_asyncio.Reactor.{Surroundings}
use mt_asyncio.Loop.Scheduling.{System, soons, ats, fires, cancels, enters, exits, start, step, run}
use mt_asyncio.Loop.Scheduling
use mt_asyncio.Loop.Scheduling.Deferral.{held_back, submitted, is_last_exit, soon_in_order}
use mt_asyncio.Tasks.{returned, failed}
use mt_asyncio.Tasks.Lifetime.{creates, settles, leaves, all_tasks_live}
use mt_asyncio.Tasks.Lifetime
use mt_asyncio.Loop.Registrations.{live}
use mt_asyncio.Transports.Life.{locked_write_ready, nothing_outlives_connection}
use mt_asyncio.Transports.Life
use mt_asyncio.Examples.{fresh_world}

abbrev surroundings : Surroundings
surroundings = record { existing = none; fresh = 3; driven = false; comes_up = true }

-- A call outside, then two inside a region, with a timer between, and the region is left once of twice.
abbrev nested : List Scheduling.Event
nested =
    soons surroundings
    ∷ enters
    ∷ soons surroundings
    ∷ ats surroundings 50 10
    ∷ enters
    ∷ soons surroundings
    ∷ exits
    ∷ []

abbrev after_nested : System
after_nested = run start nested

soon_in_order_example :
    (after_nested.queue ++ held_back after_nested.pending ≡ submitted start nested)
    × (after_nested.depth ≡ 0 → after_nested.pending ≡ none)
    × (ltb 0 after_nested.depth ≡ true
        → is_last_exit after_nested (soons surroundings) ≡ false
        → ((step after_nested (soons surroundings)).queue ≡ after_nested.queue)
          × ((step after_nested (soons surroundings)).woken ≡ after_nested.woken))
soon_in_order_example = soon_in_order nested (soons surroundings)

-- Three tasks; one returns and leaves the registry, one has failed and still stands there.
abbrev three_tasks : List Lifetime.Event
three_tasks =
    creates
    ∷ creates
    ∷ settles 0 (returned 7)
    ∷ creates
    ∷ settles 2 (failed (user 1))
    ∷ leaves 0
    ∷ []

abbrev after_three : Lifetime.System
after_three = Lifetime.run (Lifetime.start fresh_world) three_tasks

-- The transport starts, is closed and lost, and its write-ready handle comes late.
abbrev short_life : List Life.Event
short_life =
    Life.starts false none ∷ Life.writes_ready ∷ Life.closes ∷ Life.loses ∷ Life.writes_ready ∷ []

abbrev after_life : Life.System
after_life = Life.run (Life.start 4) short_life

nothing_outlives_connection_example :
    ((after_life.transport.connected
        || (live (after_life.registry.sios after_life.transport.fd) == 0))
      ≡ true)
    × ((not after_life.transport.lost
          || (live (after_life.registry.sios after_life.transport.fd) == 0))
        ≡ true)
    × (after_life.transport.lost ≡ true
        → locked_write_ready after_life.transport ≡ after_life.transport)
nothing_outlives_connection_example = nothing_outlives_connection 4 short_life
