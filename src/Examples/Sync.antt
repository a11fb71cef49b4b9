-- ===== src/Examples/Sync.antt =====
-- Synchronization primitives: the theorems of `Sync` at concrete histories.
use mt_asyncio.Prelude.{◌≡◌, refl, none, List, [], ◌∷◌}
use mt_asyncio.Futures.{set_result}
use mt_asyncio.Sync.{hand_over}
use mt_asyncio.Sync.Semaphore.{Event, Semaphore, acquired, granted}
use mt_asyncio.Sync.Semaphore
use mt_asyncio.Sync.Lock
use mt_asyncio.Sync.Lock.Refines.{view, lock_refines_semaphore}
use mt_asyncio.Sync.Bounded
use mt_asyncio.Sync.Bounded.{bounded_value, release_refused_iff, release_exceeds_bound}
use mt_asyncio.Sync.Event
use mt_asyncio.Sync.Event.{event_no_lost_wake}
use mt_asyncio.Examples.{fresh_world}

-- Two tasks get in, two park; the first parked one is cancelled, and a holder leaves.
abbrev contended : List Event
contended =
    Event.acquires
    ∷ Event.acquires
    ∷ Event.acquires
    ∷ Event.acquires
    ∷ Event.cancels 0 none
    ∷ Event.leaves
    ∷ []

abbrev busy : Semaphore.System
busy = Semaphore.run (Semaphore.start fresh_world 2) contended

busy_state : (busy.holders ≡ 1) × (granted busy ≡ 1) × (busy.semaphore.waiters ≡ [])
unfolding Semaphore.run Semaphore.step Semaphore.release hand_over set_result
busy_state = (refl, refl, refl)

abbrev parked : List Event
parked = Event.acquires ∷ Event.acquires ∷ []

abbrev waiting : Semaphore.System
waiting = Semaphore.run (Semaphore.start fresh_world 1) parked

abbrev held : Lock.System
held = Lock.run (Lock.start fresh_world) contended

lock_refines_semaphore_example : view held ≡ Semaphore.run (Semaphore.start fresh_world 1) contended
lock_refines_semaphore_example = lock_refines_semaphore fresh_world contended

abbrev queued : Lock.System
queued = Lock.run (Lock.start fresh_world) parked

abbrev over_released : List Bounded.Event
over_released = Bounded.acquires ∷ Bounded.releases ∷ Bounded.releases ∷ []

abbrev full : Bounded.System
full = Bounded.run (Bounded.start fresh_world 1) over_released

-- `BoundedSemaphore(0)` with one waiter, whose task was cancelled and has not run yet.
abbrev empty_bound : Bounded.System
empty_bound =
    Bounded.run (Bounded.start fresh_world 0) (Bounded.acquires ∷ Bounded.cancels 0 none ∷ [])

-- A task waits, and a `set` has taken it and not reached it.
abbrev taken : List Event.Move
taken = Event.waits ∷ Event.sets ∷ []
