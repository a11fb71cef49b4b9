-- ===== src/Sync/Semaphore/Safety.antt =====
-- What `Semaphore` of mt_asyncio/asyncio/_sync.py keeps over every history of its callers.
use mt_asyncio.Prelude.{
  ℕ, ◌+◌, ◌-◌, ◌≡◌, ◌↔◌, ◌⊎◌, inl, inr, refl, Bool, true, false, List, [], ◌∷◌, arith, Bool-cases,
  ◌==◌, contains, All,
}
use mt_asyncio.Errors.{ok}
use mt_asyncio.Futures.{World, done}
use mt_asyncio.Sync.Handover.{given, Served, hand_over_lem}
use mt_asyncio.Sync.Semaphore.{
  Semaphore, System, Event, acquires, resumes, throws, leaves, unwinds, creates, cancels, acquire,
  acquired, locked, release, settle_released, step, run, start,
}
use mt_asyncio.Sync.Semaphore.Permits.{
  Inv, start-Inv, acquires-Inv, throws-Inv, resumes-Inv, creates-Inv, cancels-Inv, returned-Inv,
  transferred-Inv,
}

-- `release` never raises. If every queued waiter is done, the deque ends empty and the permit goes
-- back to the counter. Otherwise the first pending waiter in the deque gets the permit, the waiters
-- behind it stay queued, and the counter is unchanged.
pub release_lem :
    (w : World Bool) (s : Semaphore)
    → ((release w s ≡ ok (w, record { value = s.value + 1; waiters = [] }))
        × All (λ g. done w g ≡ true) s.waiters)
      ⊎ ((f : ℕ) × (rest : List ℕ) × (release w s
            ≡ ok (given w f true, record { value = s.value; waiters = rest }))
          × Served w s.waiters f rest)
unfolding release
release_lem w s = elim (hand_over_lem true s.waiters w) [
  | inl (e, all) ↦ inl (rw e refl, all)
  | inr (f, rest, e, served) ↦ inr (f, rest, rw e refl, served)
]

-- One permit fewer among the tasks, when the semaphore has one more than it should.
rebalance :
    {n h u : ℕ} {s : System}
    → h + u + 1 ≡ s.holders + s.unwinding
    → Inv (n + 1) s
    → Inv n (record s { holders = h; unwinding = u })
rebalance e inv = record {
  fresh = inv.fresh;
  distinct = inv.distinct;
  lined_up = inv.lined_up;
  queued = inv.queued;
  settled = inv.settled;
  idle = inv.idle;
  balance = omega arith;
}

released-Inv :
    {n : ℕ} {s : System} (h u : ℕ)
    → h + u + 1 ≡ s.holders + s.unwinding
    → Inv n s
    → Inv n
        (settle_released s (release s.world s.semaphore) (record s { holders = h; unwinding = u }))
released-Inv {n} {s} h u c inv = elim (release_lem s.world s.semaphore) [
  | inl (e, all) ↦ rw e (rebalance c (returned-Inv inv all))
  | inr (f, rest, e, served) ↦ rw e (rebalance c (transferred-Inv inv f rest served))
]

leaves-Inv : {n : ℕ} {s : System} → Inv n s → Inv n (step s leaves)
unfolding step
leaves-Inv {n} {s} inv = elim (Bool-cases (s.holders == 0)) [
  | inl e ↦ rw e inv
  | inr e ↦ rw e (released-Inv (s.holders - 1) s.unwinding (ground arith) inv)
]

unwinds-Inv : {n : ℕ} {s : System} → Inv n s → Inv n (step s unwinds)
unfolding step
unwinds-Inv {n} {s} inv = elim (Bool-cases (s.unwinding == 0)) [
  | inl e ↦ rw e inv
  | inr e ↦ rw e (released-Inv s.holders (s.unwinding - 1) (ground arith) inv)
]

pub step-Inv : {n : ℕ} (s : System) (e : Event) → Inv n s → Inv n (step s e)
step-Inv s acquires inv = acquires-Inv inv
step-Inv s (resumes f) inv = resumes-Inv inv f
step-Inv s (throws f) inv = throws-Inv inv f
step-Inv s leaves inv = leaves-Inv inv
step-Inv s unwinds inv = unwinds-Inv inv
step-Inv s creates inv = creates-Inv inv
step-Inv s (cancels f msg) inv = cancels-Inv inv f msg

run-Inv : {n : ℕ} (s : System) (es : List Event) → Inv n s → Inv n (run s es)
unfolding run
run-Inv s [] inv = inv
run-Inv s (e ∷ es) inv = run-Inv (step s e) es (step-Inv s e inv)

pub run-start-Inv : (w : World Bool) (n : ℕ) (es : List Event) → Inv n (run (start w n) es)
run-start-Inv w n es = run-Inv (start w n) es (start-Inv w n)

-- Over every such history no task is stranded: while a permit is free no awaited future is pending,
-- and an awaited future that is pending stands in the deque.
pub no_stranded_waiter :
    (w : World Bool) (n : ℕ) (es : List Event) (f : ℕ)
    → let s = run (start w n) es in
      contains f s.open_waits ≡ true
      → done s.world f ≡ false
      → (s.semaphore.value ≡ 0) × (contains f s.semaphore.waiters ≡ true)
no_stranded_waiter w n es f c d =
    let inv = run-start-Inv w n es in ground (arith, inv.settled f c, inv.idle)

-- Over every such history `locked()` answers false exactly when `acquire` takes a permit without
-- waiting.
pub locked_iff :
    (w : World Bool) (n : ℕ) (es : List Event)
    → let s = run (start w n) es in
      (locked s.world s.semaphore ≡ false) ↔ (
        acquire s.world s.semaphore
        ≡ acquired (record { value = s.semaphore.value - 1; waiters = s.semaphore.waiters }))
unfolding locked acquire
locked_iff w n es =
    let inv = run-start-Inv w n es in (λ e. ground (arith, inv.idle), λ e. ground (arith, inv.idle))
