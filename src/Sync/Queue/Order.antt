-- ===== src/Sync/Queue/Order.antt =====
-- What `Queue` of mt_asyncio/asyncio/_sync.py keeps over every history: the bound, the items, their
-- order, the count of unfinished tasks.
use mt_asyncio.Prelude.{
  ℕ, ◌+◌, ◌<◌, ◌≤◌, ◌≡◌, ◌⊎◌, inl, inr, Bool, true, false, some, List, [], ◌∷◌, length,
  length-append, arith, ltb, ◌==◌, Bool-cases,
}
use mt_asyncio.Futures.{World}
use mt_asyncio.Sync.Handover.{hand_over-total}
use mt_asyncio.Sync.Condition.Notify.{wake_each_lem}
use mt_asyncio.Sync.Queue.{Hooks, set_finished}
use mt_asyncio.Sync.Queue.Storage.{IsLawful}
use mt_asyncio.Sync.Queue.History.{
  System, Op, puts, puts_nowait, gets, gets_nowait, throws_put, throws_get, dones_task, cancels,
  step, run, start,
}

module _ {Item Store : Type 0} (h : Hooks Item Store) (law : IsLawful h) where
  -- The numbers fit together.
  record Inv (n : ℕ) (s : System Item Store) : Type 0 where
    fixed : s.queue.maxsize ≡ n
    within : (n ≡ 0) ⊎ (h.size s.queue.store ≤ n)
    conserved : h.size s.queue.store + length s.delivered ≡ length s.accepted
    counted : s.queue.unfinished + s.dones ≡ length s.accepted
    flagged : s.queue.finished.value ≡ (s.queue.unfinished == 0)

  puts-Inv : {n : ℕ} (s : System Item Store) (a : Item) → Inv n s → Inv n (step h s (puts a))
  unfolding step
  puts-Inv s a inv = ground (
    arith,
    hand_over-total true s.queue.getters s.world,
    law.size-insert a s.queue.store,
    length-append s.accepted (a ∷ []),
  )

  puts_nowait-Inv :
      {n : ℕ} (s : System Item Store) (a : Item) → Inv n s → Inv n (step h s (puts_nowait a))
  unfolding step
  puts_nowait-Inv s a inv = ground (
    arith,
    hand_over-total true s.queue.getters s.world,
    law.size-insert a s.queue.store,
    length-append s.accepted (a ∷ []),
  )

  -- An item can be extracted as soon as the size says so.
  take :
      (s : Store)
      → (ltb 0 (h.size s) ≡ false)
        ⊎ ((a : Item) × (t : Store) × (h.extract s ≡ some (a, t)) × (h.size s ≡ h.size t + 1))
  take s = elim (Bool-cases (ltb 0 (h.size s))) [
    | inl more ↦
        let ((a, t), e) = law.extract_of_pos s (ground (arith, more)) in
        inr (a, t, e, law.size-extract s t a e)
    | inr less ↦ inl less
  ]

  gets-Inv : {n : ℕ} (s : System Item Store) → Inv n s → Inv n (step h s gets)
  unfolding step
  gets-Inv s inv = elim (take s.queue.store) [
    | inl less ↦ ground arith
    | inr (a, t, e, z) ↦ ground (
      arith,
      e,
      z,
      hand_over-total true s.queue.putters s.world,
      length-append s.delivered (a ∷ []),
    )
  ]

  gets_nowait-Inv : {n : ℕ} (s : System Item Store) → Inv n s → Inv n (step h s gets_nowait)
  unfolding step
  gets_nowait-Inv s inv = elim (take s.queue.store) [
    | inl less ↦ ground arith
    | inr (a, t, e, z) ↦ ground (
      arith,
      e,
      z,
      hand_over-total true s.queue.putters s.world,
      length-append s.delivered (a ∷ []),
    )
  ]

  dones_task-Inv : {n : ℕ} (s : System Item Store) → Inv n s → Inv n (step h s dones_task)
  unfolding step set_finished
  dones_task-Inv s inv =
      ground (arith, wake_each_lem s.queue.finished.waiters s.world, wake_each_lem [] s.world)

  step-Inv : {n : ℕ} (s : System Item Store) (o : Op Item) → Inv n s → Inv n (step h s o)
  unfolding step
  step-Inv s (puts a) inv = puts-Inv s a inv
  step-Inv s (puts_nowait a) inv = puts_nowait-Inv s a inv
  step-Inv s gets inv = gets-Inv s inv
  step-Inv s gets_nowait inv = gets_nowait-Inv s inv
  step-Inv s (throws_put f) inv = ground arith
  step-Inv s (throws_get f) inv = ground arith
  step-Inv s dones_task inv = dones_task-Inv s inv
  step-Inv s (cancels f msg) inv = ground arith

  run-Inv : {n : ℕ} (os : List (Op Item)) (s : System Item Store) → Inv n s → Inv n (run h s os)
  unfolding run
  run-Inv [] s inv = inv
  run-Inv (o ∷ os) s inv = run-Inv os (step h s o) (step-Inv s o inv)

  start-Inv : (w : World Bool) (n : ℕ) → Inv n (start h w n)
  start-Inv w n = ground (arith, law.size-empty)

  -- A queue with a positive `maxsize` never holds more items, over every history of puts, gets,
  -- deliveries of CancelledError and `task_done`s, whatever lawful storage it has.
  pub queue_bounded :
      (w : World Bool) (n : ℕ) (os : List (Op Item))
      → 0 < n
      → h.size (run h (start h w n) os).queue.store ≤ n
  queue_bounded w n os p = ground (arith, run-Inv os (start h w n) (start-Inv w n))
