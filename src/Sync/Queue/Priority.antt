-- ===== src/Sync/Queue/Priority.antt =====
-- `PriorityQueue` of mt_asyncio/asyncio/_sync.py. The heap is `heapq`'s, a parameter; an item is its priority.
use mt_asyncio.Prelude.{
  ℕ, ◌+◌, ◌<◌, ◌≤◌, ◌≡◌, refl, Bool, true, Option, some, List, [], ◌∷◌, length, arith, ◌==◌,
  Option-cases, inl, inr, count_if, if◌then◌else◌,
}
use mt_asyncio.Errors.{ok}
use mt_asyncio.Futures.{World}
use mt_asyncio.Sync.Handover.{hand_over-total}
use mt_asyncio.Sync.Condition.Notify.{wake_each_lem}
use mt_asyncio.Sync.Queue.{Hooks, Queue, get_nowait, set_finished}
use mt_asyncio.Sync.Queue.Storage.{IsLawful}
use mt_asyncio.Sync.Queue.History.{
  System, Op, puts, puts_nowait, gets, gets_nowait, throws_put, throws_get, dones_task, cancels,
  step, run, start,
}

-- `heapq.heappush` and `heapq.heappop`; none is the IndexError.
pub record Heapq : Type 0 where
  pub heappush : ℕ → List ℕ → List ℕ
  pub heappop : List ℕ → Option (ℕ × List ℕ)

-- How often an item occurs.
abbrev pub occurrences : ℕ → List ℕ → ℕ
occurrences a s = count_if (λ b. b == a) s

-- The documented behaviour: `heappush` keeps the heap invariant and adds its item, `heappop` keeps it too
-- and takes out the smallest item.
pub record IsHeapq (q : Heapq) : Type 0 where
  pub is_heap : List ℕ → Bool
  pub heap_empty : is_heap [] ≡ true
  pub push_heap : (a : ℕ) (s : List ℕ) → is_heap s ≡ true → is_heap (q.heappush a s) ≡ true
  pub push_adds :
      (a : ℕ) (s : List ℕ) (b : ℕ)
      → occurrences b (q.heappush a s) ≡ (if a == b then 1 else 0) + occurrences b s
  pub push_length : (a : ℕ) (s : List ℕ) → length (q.heappush a s) ≡ length s + 1
  pub pop_takes :
      (s s' : List ℕ) (a : ℕ) (b : ℕ)
      → q.heappop s ≡ some (a, s')
      → occurrences b s ≡ (if a == b then 1 else 0) + occurrences b s'
  pub pop_length : (s s' : List ℕ) (a : ℕ) → q.heappop s ≡ some (a, s') → length s ≡ length s' + 1
  pub pop_heap :
      (s s' : List ℕ) (a : ℕ) → is_heap s ≡ true → q.heappop s ≡ some (a, s') → is_heap s' ≡ true
  pub pop_least :
      (s s' : List ℕ) (a b : ℕ)
      → is_heap s ≡ true
      → q.heappop s ≡ some (a, s')
      → 0 < occurrences b s
      → a ≤ b
  pub pops : (s : List ℕ) → 0 < length s → (r : ℕ × List ℕ) × (q.heappop s ≡ some r)

-- `PriorityQueue`: `_init`, `_put` and `_get`.
abbrev pub priority : Heapq → Hooks ℕ (List ℕ)
priority q = record { empty = []; size = length; insert = q.heappush; extract = q.heappop }

module _ (q : Heapq) (law : IsHeapq q) where
  pub priority-IsLawful : IsLawful (priority q)
  priority-IsLawful = record {
    size-empty = refl;
    size-insert = law.push_length;
    size-extract = law.pop_length;
    extract_of_pos = law.pops;
  }

  abbrev Heap : System ℕ (List ℕ) → Type 0
  Heap s = law.is_heap s.queue.store ≡ true

  step-Heap : (s : System ℕ (List ℕ)) (o : Op ℕ) → Heap s → Heap (step (priority q) s o)
  unfolding step set_finished
  step-Heap s (puts a) e =
      ground (arith, hand_over-total true s.queue.getters s.world, law.push_heap a s.queue.store e)
  step-Heap s (puts_nowait a) e =
      ground (arith, hand_over-total true s.queue.getters s.world, law.push_heap a s.queue.store e)
  step-Heap s gets e = elim (Option-cases (q.heappop s.queue.store)) [
    | inl z ↦ ground (arith, e, z)
    | inr ((a, t), z) ↦ ground (
      arith,
      z,
      e,
      hand_over-total true s.queue.putters s.world,
      law.pop_heap s.queue.store t a e z,
    )
  ]
  step-Heap s gets_nowait e = elim (Option-cases (q.heappop s.queue.store)) [
    | inl z ↦ ground (arith, e, z)
    | inr ((a, t), z) ↦ ground (
      arith,
      z,
      e,
      hand_over-total true s.queue.putters s.world,
      law.pop_heap s.queue.store t a e z,
    )
  ]
  step-Heap s (throws_put f) e = ground (arith, e)
  step-Heap s (throws_get f) e = ground (arith, e)
  step-Heap s dones_task e =
      ground (arith, e, wake_each_lem s.queue.finished.waiters s.world, wake_each_lem [] s.world)
  step-Heap s (cancels f msg) e = e

  run-Heap : (os : List (Op ℕ)) (s : System ℕ (List ℕ)) → Heap s → Heap (run (priority q) s os)
  unfolding run
  run-Heap [] s e = e
  run-Heap (o ∷ os) s e = run-Heap os (step (priority q) s o) (step-Heap s o e)

  -- Smallest first: after every history of puts, gets, deliveries of CancelledError and `task_done`s, over
  -- a heapq that behaves as documented, `get_nowait` on a `PriorityQueue` that holds something returns
  -- an item, no stored item is smaller, and exactly that item is gone from the storage.
  pub priority_order :
      (w : World Bool) (n : ℕ) (os : List (Op ℕ)) (b : ℕ)
      → let s = run (priority q) (start (priority q) w n) os in
        0 < length s.queue.store
        → (a : ℕ) × (w' : World Bool) × (after : Queue (List ℕ)) × (get_nowait
              (priority q)
              s.world
              s.queue
            ≡ ok (a, w', after))
          × (0 < occurrences b s.queue.store → a ≤ b)
          × (occurrences b s.queue.store ≡ (if a == b then 1 else 0) + occurrences b after.store)
  unfolding get_nowait
  priority_order w n os b h =
      let s = run (priority q) (start (priority q) w n) os in
      let ((a, t), z) = law.pops s.queue.store h in
      let (r, e) = hand_over-total true s.queue.putters s.world in
      (
        a,
        r.world,
        record (s.queue) { store = t; putters = r.waiters },
        ground (arith, h, z, e),
        law.pop_least s.queue.store t a b (run-Heap os (start (priority q) w n) law.heap_empty) z,
        law.pop_takes s.queue.store t a b z,
      )
