-- ===== src/Pytest/Collection.antt =====
-- `pytest_collection_finish` of mt_asyncio/_testutils/_pytest_plugin.py. What pytest makes of a test
-- is a parameter.
use mt_asyncio.Prelude.{
  ℕ, suc, ◌≡◌, refl, ap, ◌∙◌, Bool, false, not, ◌&&◌, ◌||◌, List, [], ◌∷◌, ◌++◌, map, arith,
  if◌then◌else◌, take, drop, length, length-append, sym, Bool-cases, inl, inr,
}
use mathlib.Core.List.{append_assoc}
use mt_asyncio.Pytest.Fixtures.{Name, mt_asyncio_runtime, any, is_runtime, appended}

-- `item` is the number of the test. `marked` says that it has the marker `mt_asyncio`.
pub record Item : Type 0 where
  pub item : ℕ
  pub is_function : Bool
  pub is_coroutine : Bool
  pub marked : Bool
  pub fixturenames : List Name
  pub names_closure : List Name

-- The condition on an item.
unfoldable pub is_selected : Item → Bool
is_selected i = i.is_function && i.is_coroutine && i.marked && not (any is_runtime i.fixturenames)

-- `list(enumerate(items))` reversed, from the index `k` on.
unfoldable pub backwards : ℕ → List Item → List (ℕ × Item)
backwards k [] = []
backwards k (i ∷ is) = backwards (suc k) is ++ (k, i) ∷ []

-- `items[i : i + 1] = new_items`
unfoldable pub splice : ℕ → List Item → List Item → List Item
splice i new_items items = take i items ++ new_items ++ drop (suc i) items

-- `from_parent` is `pytest.Function.from_parent` on the item and the closure of names that it is given.
module _ (from_parent : Item → List Name → Item) where
  unfoldable pub replacement : Item → Item
  replacement i = from_parent i (appended is_runtime mt_asyncio_runtime i.names_closure)

  unfoldable pub replace_each : List (ℕ × Item) → List Item → List Item
  unfolding is_selected replacement splice
  replace_each [] items = items
  replace_each ((k, i) ∷ rest) items =
      replace_each rest (if is_selected i then splice k (replacement i ∷ []) items else items)

  unfoldable pub collection_finish : List Item → List Item
  unfolding backwards replace_each
  collection_finish items = replace_each (backwards 0 items) items

  abbrev pub revised : Item → Item
  revised i = if is_selected i then replacement i else i

  replace_each-append :
      (ps qs : List (ℕ × Item)) (items : List Item)
      → replace_each (ps ++ qs) items ≡ replace_each qs (replace_each ps items)
  unfolding replace_each
  replace_each-append [] qs items = refl
  replace_each-append ((k, i) ∷ ps) qs items = replace_each-append ps qs _

  splice_lem :
      (pre : List Item) (i j : Item) (items : List Item)
      → splice (length pre) (j ∷ []) (pre ++ i ∷ items) ≡ pre ++ j ∷ items
  unfolding splice
  splice_lem [] i j items = refl
  splice_lem (p ∷ pre) i j items = ap (◌∷◌ p) (splice_lem pre i j items)

  replace_last :
      (pre : List Item) (i : Item) (items : List Item)
      → replace_each ((length pre, i) ∷ []) (pre ++ i ∷ items) ≡ pre ++ revised i ∷ items
  unfolding replace_each
  replace_last pre i items = elim (Bool-cases (is_selected i)) [
    | inl t ↦ rw t (splice_lem pre i (replacement i) items)
    | inr f ↦ rw f refl
  ]

  replace_each_lem :
      (items pre : List Item)
      → replace_each (backwards (length pre) items) (pre ++ items) ≡ pre ++ map revised items
  unfolding backwards replace_each
  replace_each_lem [] pre = refl
  replace_each_lem (i ∷ items) pre =
      let k : suc (length pre) ≡ length (pre ++ i ∷ []) =
        omega (arith, length-append pre (i ∷ [])) in
      let front : pre ++ i ∷ items ≡ (pre ++ i ∷ []) ++ items =
        sym (append_assoc pre (i ∷ []) items) in
      let back : (pre ++ i ∷ []) ++ map revised items ≡ pre ++ i ∷ map revised items =
        append_assoc pre (i ∷ []) (map revised items) in
      replace_each-append (backwards (suc (length pre)) items) ((length pre, i) ∷ [])
        (pre ++ i ∷ items)
      ∙ ap (replace_each ((length pre, i) ∷ []))
          (rw (k, front) (replace_each_lem items (pre ++ i ∷ [])) ∙ back)
      ∙ replace_last pre i (map revised items)

  -- Replacing the selected tests in place, from the last to the first, makes of every test what
  -- the condition says of it, at its own place, and leaves the others.
  collection_finish_lem : (items : List Item) → collection_finish items ≡ map revised items
  unfolding collection_finish
  collection_finish_lem items = replace_each_lem items []

any-append :
    (xs ys : List Name) → any is_runtime (xs ++ ys) ≡ (any is_runtime xs || any is_runtime ys)
any-append [] ys = refl
any-append (x ∷ xs) ys = ground (arith, any-append xs ys)

module _ (from_parent : Item → List Name → Item)
    (named_so : (i : Item) (names : List Name) → (from_parent i names).fixturenames ≡ names) where
  revised-selected : (i : Item) → is_selected (revised from_parent i) ≡ false
  unfolding is_selected replacement
  revised-selected i = ground (
    arith,
    named_so i (appended is_runtime mt_asyncio_runtime i.names_closure),
    any-append i.names_closure (mt_asyncio_runtime ∷ []),
  )

  unselected : (i : Item) → is_selected i ≡ false → revised from_parent i ≡ i
  unselected i h = rw h refl

  revised_twice :
      (items : List Item)
      → map (revised from_parent) (map (revised from_parent) items)
        ≡ map (revised from_parent) items
  revised_twice [] = refl
  revised_twice (i ∷ items) =
      let twice = map (revised from_parent) (map (revised from_parent) items) in
      ap (λ (j : Item). j ∷ twice) (unselected (revised from_parent i) (revised-selected i))
      ∙ ap (◌∷◌ (revised from_parent i)) (revised_twice items)

  -- The replaced list has every test at its own place, revised by its own condition, and, with a
  -- `from_parent` that gives a test the names of its closure, a second pass changes nothing: each
  -- test that was selected asks for `mt_asyncio_runtime`.
  pub collection_finish-map :
      (items : List Item)
      → (collection_finish from_parent items ≡ map (revised from_parent) items)
        × (collection_finish from_parent (collection_finish from_parent items)
            ≡ collection_finish from_parent items)
  collection_finish-map items =
      let e = collection_finish_lem from_parent items in
      let e' = collection_finish_lem from_parent (collection_finish from_parent items) in
      (e, e' ∙ ap (map (revised from_parent)) e ∙ revised_twice items ∙ sym e)
