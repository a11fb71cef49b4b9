-- ===== src/Examples/Priority.antt =====
-- The theorem of `Sync.Queue.Priority` at a heapq that keeps its list sorted.
use mt_asyncio.Prelude.{
  ℕ, ◌+◌, ◌<◌, ◌≤◌, ◌≡◌, refl, Bool, true, ◌&&◌, Option, none, some, List, [], ◌∷◌, length, arith,
  leb, ◌==◌, if◌then◌else◌, Bool-cases, inl, inr,
}
use mt_asyncio.Errors.{ok}
use mt_asyncio.Futures.{World}
use mt_asyncio.Sync.{hand_over}
use mt_asyncio.Sync.Queue.{Queue, get_nowait}
use mt_asyncio.Sync.Queue.History.{System, Op, puts, gets, run, step, start}
use mt_asyncio.Sync.Queue.Priority.{Heapq, IsHeapq, occurrences, priority, priority_order}
use mt_asyncio.Examples.{fresh_world}

unfoldable insert : ℕ → List ℕ → List ℕ
insert a [] = a ∷ []
insert a (x ∷ xs) = if leb a x then a ∷ x ∷ xs else x ∷ insert a xs

abbrev uncons : List ℕ → Option (ℕ × List ℕ)
uncons [] = none
uncons (x ∷ xs) = some (x, xs)

abbrev is_before : ℕ → List ℕ → Bool
is_before a [] = true
is_before a (x ∷ xs) = leb a x

abbrev is_sorted : List ℕ → Bool
is_sorted [] = true
is_sorted (x ∷ xs) = is_before x xs && is_sorted xs

insert-before :
    (x a : ℕ) (xs : List ℕ) → x ≤ a → is_before x xs ≡ true → is_before x (insert a xs) ≡ true
unfolding insert
insert-before x a [] h b = ground (arith, h)
insert-before x a (y ∷ ys) h b = ground (arith, h, b)

insert-sorted : (a : ℕ) (s : List ℕ) → is_sorted s ≡ true → is_sorted (insert a s) ≡ true
unfolding insert
insert-sorted a [] h = refl
insert-sorted a (x ∷ xs) h = elim (Bool-cases (leb a x)) [
  | inl e ↦ ground (arith, e, h)
  | inr e ↦ ground (
    arith,
    e,
    h,
    insert-sorted a xs (ground (arith, h)),
    insert-before x a xs (ground (arith, e)) (ground (arith, h)),
  )
]

insert-occurrences :
    (a : ℕ) (s : List ℕ) (b : ℕ)
    → occurrences b (insert a s) ≡ (if a == b then 1 else 0) + occurrences b s
unfolding insert
insert-occurrences a [] b = ground arith
insert-occurrences a (x ∷ xs) b = ground (arith, insert-occurrences a xs b)

length-insert : (a : ℕ) (s : List ℕ) → length (insert a s) ≡ length s + 1
unfolding insert
length-insert a [] = omega arith
length-insert a (x ∷ xs) = ground (arith, length-insert a xs)

head_least : (a : ℕ) (s : List ℕ) (b : ℕ) → is_sorted (a ∷ s) ≡ true → 0 < occurrences b s → a ≤ b
head_least a [] b h o = absurd (omega (arith, o))
head_least a (x ∷ xs) b h o = elim (Bool-cases (x == b)) [
  | inl e ↦ ground (arith, h, e)
  | inr e ↦ ground (arith, h, head_least x xs b (ground (arith, h)) (ground (arith, o, e)))
]

abbrev sorted_list : Heapq
sorted_list = record { heappush = insert; heappop = uncons }

sorted_list-IsHeapq : IsHeapq sorted_list
sorted_list-IsHeapq = record {
  is_heap = is_sorted;
  heap_empty = refl;
  push_heap = insert-sorted;
  push_adds = insert-occurrences;
  push_length = length-insert;
  pop_takes = takes;
  pop_length = shorter;
  pop_heap = stays_sorted;
  pop_least = smallest;
  pops = pops_something;
}
  where
    takes :
        (s s' : List ℕ) (a : ℕ) (b : ℕ)
        → uncons s ≡ some (a, s')
        → occurrences b s ≡ (if a == b then 1 else 0) + occurrences b s'
    takes [] s' a b e = cc
    takes (x ∷ xs) s' a b e = ground (arith, e)

    shorter : (s s' : List ℕ) (a : ℕ) → uncons s ≡ some (a, s') → length s ≡ length s' + 1
    shorter [] s' a e = cc
    shorter (x ∷ xs) s' a e = ground (arith, e)

    stays_sorted :
        (s s' : List ℕ) (a : ℕ) → is_sorted s ≡ true → uncons s ≡ some (a, s') → is_sorted s' ≡ true
    stays_sorted [] s' a h e = cc
    stays_sorted (x ∷ xs) s' a h e = ground (arith, h, e)

    smallest :
        (s s' : List ℕ) (a b : ℕ)
        → is_sorted s ≡ true
        → uncons s ≡ some (a, s')
        → 0 < occurrences b s
        → a ≤ b
    smallest [] s' a b h e o = cc
    smallest (x ∷ xs) s' a b h e o = elim (Bool-cases (x == b)) [
      | inl q ↦ ground (arith, e, q)
      | inr q ↦ ground (arith, e, q, head_least x xs b h (ground (arith, o, q)))
    ]

    pops_something : (s : List ℕ) → 0 < length s → (r : ℕ × List ℕ) × (uncons s ≡ some r)
    pops_something [] h = absurd (omega arith)
    pops_something (x ∷ xs) h = ((x, xs), refl)

abbrev traffic : List (Op ℕ)
traffic = puts 5 ∷ puts 2 ∷ puts 9 ∷ gets ∷ puts 4 ∷ []

abbrev holding : System ℕ (List ℕ)
holding = run (priority sorted_list) (start (priority sorted_list) fresh_world 0) traffic

three_stored : length holding.queue.store ≡ 3
unfolding run step insert hand_over
three_stored = refl

priority_order_example :
    (a : ℕ) × (w' : World Bool) × (after : Queue (List ℕ)) × (get_nowait
        (priority sorted_list)
        holding.world
        holding.queue
      ≡ ok (a, w', after))
    × (0 < occurrences 5 holding.queue.store → a ≤ 5)
    × (occurrences 5 holding.queue.store ≡ (if a == 5 then 1 else 0) + occurrences 5 after.store)
priority_order_example =
    priority_order sorted_list sorted_list-IsHeapq fresh_world 0 traffic 5
      (omega (arith, three_stored))
