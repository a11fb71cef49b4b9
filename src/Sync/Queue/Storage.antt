-- ===== src/Sync/Queue/Storage.antt =====
-- The storage of mt_asyncio/asyncio/_sync.py's `Queue` (a deque) and `LifoQueue` (a list), and what
-- the queue relies on in any storage, `PriorityQueue`'s heap included.
use mt_asyncio.Prelude.{
  inl, inr, ◌⊎◌, ◌+◌, ◌<◌, ◌≡◌, refl, ap, Option, none, some, List, [], ◌∷◌, ◌++◌, length,
  length-append, arith,
}
use mt_asyncio.Sync.Queue.{Hooks}

pub record IsLawful {Item Store : Type 0} (h : Hooks Item Store) : Type 0 where
  pub size-empty : h.size h.empty ≡ 0
  pub size-insert : (a : Item) (s : Store) → h.size (h.insert a s) ≡ h.size s + 1
  pub size-extract :
      (s s' : Store) (a : Item) → h.extract s ≡ some (a, s') → h.size s ≡ h.size s' + 1
  pub extract_of_pos : (s : Store) → 0 < h.size s → (r : Item × Store) × (h.extract s ≡ some r)

module _ {Item : Type 0} where
  abbrev uncons : List Item → Option (Item × List Item)
  uncons [] = none
  uncons (x ∷ xs) = some (x, xs)

  abbrev keep_head : Item → Option (Item × List Item) → Option (Item × List Item)
  keep_head x none = some (x, [])
  keep_head x (some (a, r)) = some (a, x ∷ r)

  -- `list.pop()`: the last entry.
  unfoldable pub unsnoc : List Item → Option (Item × List Item)
  unsnoc [] = none
  unsnoc (x ∷ xs) = keep_head x (unsnoc xs)

  -- `Queue`: `append` and `popleft`.
  abbrev pub fifo : Hooks Item (List Item)
  fifo = record { empty = []; size = length; insert = λ a s. s ++ a ∷ []; extract = uncons }

  -- `LifoQueue`: `append` and `pop`.
  abbrev pub lifo : Hooks Item (List Item)
  lifo = record { empty = []; size = length; insert = λ a s. s ++ a ∷ []; extract = unsnoc }

  pub fifo-IsLawful : IsLawful fifo
  fifo-IsLawful = record {
    size-empty = refl;
    size-insert = λ a s. omega (arith, length-append s (a ∷ []));
    size-extract = fifo_size;
    extract_of_pos = fifo_pos;
  }
    where
      fifo_size : (s s' : List Item) (a : Item) → uncons s ≡ some (a, s') → length s ≡ length s' + 1
      fifo_size [] s' a e = cc
      fifo_size (x ∷ xs) s' a e = ground (arith, e)

      fifo_pos : (s : List Item) → 0 < length s → (r : Item × List Item) × (uncons s ≡ some r)
      fifo_pos [] h = absurd (omega arith)
      fifo_pos (x ∷ xs) h = ((x, xs), refl)

  pub unsnoc-append : (s : List Item) (a : Item) → unsnoc (s ++ a ∷ []) ≡ some (a, s)
  unfolding unsnoc
  unsnoc-append [] a = refl
  unsnoc-append (x ∷ xs) a = ap (keep_head x) (unsnoc-append xs a)

  unsnoc_split :
      (s : List Item)
      → ((unsnoc s ≡ none) × (s ≡ []))
        ⊎ ((a : Item) × (r : List Item) × (unsnoc s ≡ some (a, r)) × (s ≡ r ++ a ∷ []))
  unfolding unsnoc
  unsnoc_split [] = inl (refl, refl)
  unsnoc_split (x ∷ xs) = elim (unsnoc_split xs) [
    | inl (e, z) ↦ inr (x, [], rw e refl, rw z refl)
    | inr (a, r, e, z) ↦ inr (a, x ∷ r, rw e refl, ap (◌∷◌ x) z)
  ]

  lifo_size : (s s' : List Item) (a : Item) → unsnoc s ≡ some (a, s') → length s ≡ length s' + 1
  lifo_size s s' a e = elim (unsnoc_split s) [
    | inl (n, z) ↦ cc (n, e)
    | inr (b, r, u, z) ↦ ground (arith, e, u, ap length z, length-append r (b ∷ []))
  ]

  lifo_pos : (s : List Item) → 0 < length s → (r : Item × List Item) × (unsnoc s ≡ some r)
  lifo_pos s h = elim (unsnoc_split s) [
    | inl (n, z) ↦ absurd (omega (arith, ap length z))
    | inr (b, r, u, z) ↦ ((b, r), u)
  ]

  pub lifo-IsLawful : IsLawful lifo
  lifo-IsLawful = record {
    size-empty = refl;
    size-insert = λ a s. omega (arith, length-append s (a ∷ []));
    size-extract = lifo_size;
    extract_of_pos = lifo_pos;
  }
