-- ===== src/Sync/Lock/Refines.antt =====
-- `Lock` of mt_asyncio/asyncio/_sync.py behaves as `Semaphore(1)`, and so excludes its holders.
use mt_asyncio.Prelude.{
  ℕ, ◌+◌, ◌-◌, ◌≡◌, inl, inr, refl, ap, ◌∙◌, Bool, true, false, List, [], ◌∷◌, arith, if◌then◌else◌,
  contains,
}
use mt_asyncio.Futures.{World, done}
use mt_asyncio.Sync.Handover.{hand_over_lem}
use mt_asyncio.Sync.Semaphore.{Semaphore, Event, granted}
use mt_asyncio.Sync.Semaphore
use mt_asyncio.Sync.Semaphore.Permits.{Inv, start-Inv}
use mt_asyncio.Sync.Semaphore.Safety.{step-Inv}
use mt_asyncio.Sync.Lock.{Lock, System, release, settle_released, step, run, start}

-- A lock is a semaphore that holds one permit while it is free.
abbrev pub as_semaphore : Lock → Semaphore
as_semaphore l = record { value = if l.is_locked then 0 else 1; waiters = l.waiters }

abbrev pub view : System → Semaphore.System
view s = record {
  world = s.world;
  semaphore = as_semaphore s.lock;
  holders = s.holders;
  unwinding = s.unwinding;
  open_waits = s.open_waits;
}

-- `release` of a lock that is taken is `release` of the semaphore.
release-view :
    (s t : System)
    → s.lock.is_locked ≡ true
    → view (settle_released s (release s.world s.lock) t)
      ≡ Semaphore.settle_released
          (view s)
          (Semaphore.release s.world (as_semaphore s.lock))
          (view t)
unfolding release Semaphore.release
release-view s t h = elim (hand_over_lem true s.lock.waiters s.world) [
  | inl (e, all) ↦ rw e (ground arith)
  | inr (f, rest, e, served) ↦ rw e (ground arith)
]

step-view : (s : System) (e : Event) → Inv 1 (view s) → view (step s e) ≡ Semaphore.step (view s) e
unfolding step Semaphore.step
step-view s Event.acquires inv = ground arith
step-view s (Event.resumes f) inv = ground arith
step-view s (Event.throws f) inv = ground arith
step-view s Event.leaves inv =
    ground (arith, inv.balance, release-view s (record s { holders = s.holders - 1 }))
step-view s Event.unwinds inv =
    ground (arith, inv.balance, release-view s (record s { unwinding = s.unwinding - 1 }))
step-view s Event.creates inv = refl
step-view s (Event.cancels f msg) inv = refl

run-view :
    (es : List Event) (s : System)
    → Inv 1 (view s)
    → (view (run s es) ≡ Semaphore.run (view s) es) × Inv 1 (view (run s es))
unfolding run Semaphore.run
run-view [] s inv = (refl, inv)
run-view (e ∷ es) s inv =
    let same = step-view s e inv in
    let next : Inv 1 (view (step s e)) = rw same (step-Inv (view s) e inv) in
    let rest = run-view es (step s e) next in (rest.0 ∙ ap (λ t. Semaphore.run t es) same, rest.1)

start-view : (w : World Bool) → Inv 1 (view (start w))
start-view w = start-Inv w 1

-- Refinement: over every history of acquires, releases, deliveries of CancelledError and cancelled
-- futures, a lock goes through the states of `Semaphore(1)` that the same history drives: the
-- same deque, the same futures, the same holders, and one permit exactly while it is unlocked.
pub lock_refines_semaphore :
    (w : World Bool) (es : List Event)
    → view (run (start w) es) ≡ Semaphore.run (Semaphore.start w 1) es
lock_refines_semaphore w es = (run-view es (start w) (start-view w)).0

-- No lost hand-over: over every such history a task whose awaited future is pending stands in the
-- deque of a lock that is taken, so some task owes a `release`.
pub no_lost_handover :
    (w : World Bool) (es : List Event) (f : ℕ)
    → let s = run (start w) es in
      contains f s.open_waits ≡ true
      → done s.world f ≡ false
      → (s.lock.is_locked ≡ true)
        × (contains f s.lock.waiters ≡ true)
        × (s.holders + s.unwinding + granted (view s) ≡ 1)
no_lost_handover w es f c d =
    let inv = (run-view es (start w) (start-view w)).1 in
    ground (arith, inv.settled f c, inv.idle, inv.balance)
