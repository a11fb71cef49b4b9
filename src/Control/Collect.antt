-- ===== src/Control/Collect.antt =====
-- `gather` of mt_asyncio/asyncio/_ctl.py over its children's completions, in the order in which
-- they arrive.
use mt_asyncio.Prelude.{
  ℕ, zero, suc, ◌-◌, ◌<◌, ◌≡◌, inl, inr, refl, sym, ◌++◌, ap, ◌∙◌, Bool, true, false, ◌&&◌, ◌||◌,
  Option, none, some, List, [], ◌∷◌, arith, ◌==◌, if◌then◌else◌, length, contains, Distinct,
  Bool-cases,
}
use mt_asyncio.Errors.{Exc, Result, ok, err, ◌>>=◌}
use mt_asyncio.Futures.{
  World, done, pending, finished, is_stop_iteration, result, complete, set_exception,
}
use mt_asyncio.Sync.Handover.{given, set_result-given}
use mt_asyncio.Control.{
  Outcome, Entry, Gather, new_gather, set, replicate, get_elem?, exc_of, entry_of, child_done,
}

-- The callbacks run one after the other, each with the child's index and how it ended.
unfoldable pub deliver :
    List (ℕ × Outcome) → World (List Entry) → Gather → Result (World (List Entry) × Gather)
deliver [] w g = ok (w, g)
deliver ((i, o) ∷ cs) w g = child_done i o w g >>= λ r. deliver cs r.0 r.1

abbrev pub indices : List (ℕ × Outcome) → List ℕ
indices [] = []
indices ((i, o) ∷ cs) = i ∷ indices cs

-- How the child with this index ended.
abbrev pub found : ℕ → List (ℕ × Outcome) → Option Outcome
found i [] = none
found i ((j, o) ∷ cs) = if j == i then some o else found i cs

abbrev is_none {ℓ} : {A : Type ℓ} → Option A → Bool
is_none none = true
is_none (some a) = false

-- Every child that ends in an exception is one that `gather` was asked to return.
abbrev pub all_collected : Bool → List (ℕ × Outcome) → Bool
all_collected returned [] = true
all_collected returned ((i, o) ∷ cs) = (returned || is_none (exc_of o)) && all_collected returned cs

abbrev store_all : List Entry → List (ℕ × Outcome) → List Entry
store_all rs [] = rs
store_all rs ((i, o) ∷ cs) = store_all (set rs i (entry_of o)) cs

length-set : (rs : List Entry) (i : ℕ) (v : Entry) → length (set rs i v) ≡ length rs
length-set [] i v = refl
length-set (x ∷ rs) zero v = refl
length-set (x ∷ rs) (suc i) v = ap suc (length-set rs i v)

get_elem?-set :
    (rs : List Entry) (i j : ℕ) (v : Entry)
    → j < length rs
    → get_elem? (set rs i v) j ≡ (if i == j then some v else get_elem? rs j)
get_elem?-set [] i j v h = absurd (omega arith)
get_elem?-set (x ∷ rs) zero zero v h = refl
get_elem?-set (x ∷ rs) zero (suc j) v h = ground arith
get_elem?-set (x ∷ rs) (suc i) zero v h = ground arith
get_elem?-set (x ∷ rs) (suc i) (suc j) v h = get_elem?-set rs i j v (omega arith) ∙ ground arith

get_elem?-untouched :
    (cs : List (ℕ × Outcome)) (rs : List Entry) (j : ℕ)
    → j < length rs
    → contains j (indices cs) ≡ false
    → get_elem? (store_all rs cs) j ≡ get_elem? rs j
get_elem?-untouched [] rs j h c = refl
get_elem?-untouched ((i, o) ∷ cs) rs j h c =
    get_elem?-untouched cs (set rs i (entry_of o)) j (omega (arith, length-set rs i (entry_of o)))
      (ground (arith, c))
    ∙ ground (arith, get_elem?-set rs i j (entry_of o) h, c)

get_elem?-store_all :
    (cs : List (ℕ × Outcome)) (rs : List Entry) (j : ℕ) (o : Outcome)
    → j < length rs
    → Distinct (indices cs)
    → found j cs ≡ some o
    → get_elem? (store_all rs cs) j ≡ some (entry_of o)
get_elem?-store_all [] rs j o h d f = cc
get_elem?-store_all ((i, p) ∷ cs) rs j o h d f = elim (Bool-cases (i == j)) [
  | inl e ↦ ground (
    arith,
    f,
    get_elem?-untouched cs (set rs i (entry_of p)) j,
    length-set rs i (entry_of p),
    get_elem?-set rs i j (entry_of p) h,
  )
  | inr e ↦
      get_elem?-store_all cs (set rs i (entry_of p)) j o
        (omega (arith, length-set rs i (entry_of p))) d.1 (ground (arith, f))
]

length-store_all :
    (rs : List Entry) (cs : List (ℕ × Outcome)) → length (store_all rs cs) ≡ length rs
length-store_all rs [] = refl
length-store_all rs ((i, o) ∷ cs) =
    length-store_all (set rs i (entry_of o)) cs ∙ length-set rs i (entry_of o)

length-replicate : (n : ℕ) (v : Entry) → length (replicate n v) ≡ n
length-replicate zero v = refl
length-replicate (suc n) v = ap suc (length-replicate n v)

result_lem :
    (w : World (List Entry)) (f : ℕ) (rs : List Entry)
    → (w.fut f).state ≡ pending
    → (w.fut f).exception ≡ none
    → result (given w f rs) f ≡ ok (some rs)
unfolding given complete result
result_lem w f rs p x = ground (arith, p, x)

child_done_lem :
    (i : ℕ) (o : Outcome) (w : World (List Entry)) (g : Gather)
    → g.settled ≡ false
    → done w g.outer ≡ false
    → (g.return_exceptions || is_none (exc_of o)) ≡ true
    → let rs = set g.results i (entry_of o) in
      let last = (g.remaining - 1) == 0 in
      child_done i o w g
      ≡ ok (
        if last then given w g.outer rs else w,
        record g { results = rs; remaining = g.remaining - 1; settled = last },
      )
unfolding child_done
child_done_lem i o w g s d c =
    ground (arith, set_result-given w g.outer (set g.results i (entry_of o)) d)

deliver_lem :
    (i : ℕ) (o : Outcome) (cs : List (ℕ × Outcome)) (w : World (List Entry)) (g : Gather)
    → g.settled ≡ false
    → (w.fut g.outer).state ≡ pending
    → (w.fut g.outer).exception ≡ none
    → all_collected g.return_exceptions ((i, o) ∷ cs) ≡ true
    → g.remaining ≡ length ((i, o) ∷ cs)
    → (w' : World (List Entry)) × (g' : Gather) × (deliver ((i, o) ∷ cs) w g ≡ ok (w', g'))
      × (g'.settled ≡ true)
      × (result w' g.outer ≡ ok (some (store_all g.results ((i, o) ∷ cs))))
unfolding deliver
deliver_lem i o [] w g s p x c n = (
  given w g.outer (set g.results i (entry_of o)),
  record g { results = set g.results i (entry_of o); remaining = g.remaining - 1; settled = true },
  ground (arith, child_done_lem i o w g s (ground arith), c, n),
  refl,
  result_lem w g.outer (set g.results i (entry_of o)) p x,
)
deliver_lem i o ((j, q) ∷ cs) w g s p x c n =
    let next : Gather = record g {
      results = set g.results i (entry_of o);
      remaining = g.remaining - 1;
      settled = false;
    } in
    let (w', g', e, t, r) =
      deliver_lem j q cs w next refl p x (ground (arith, c)) (omega (arith, n)) in
    (w', g', ground (arith, child_done_lem i o w g s (ground arith), c, n, e), t, r)

-- `gather` of `n > 0` children, given to an unsettled outer future, whose callbacks run in any
-- order, one for each child, with no exception among them or with `return_exceptions`: no callback
-- raises, and the outer future ends with a list of `n` entries in which the value or exception of
-- each child, here `j`, stands at that child's own index.
pub gather_in_order :
    (outer n : ℕ) (b : Bool) (cs : List (ℕ × Outcome)) (w : World (List Entry)) (j : ℕ)
    (o : Outcome)
    → (w.fut outer).state ≡ pending
    → (w.fut outer).exception ≡ none
    → j < n
    → found j cs ≡ some o
    → length cs ≡ n
    → Distinct (indices cs)
    → all_collected b cs ≡ true
    → (w' : World (List Entry)) × (g' : Gather) × (rs : List Entry) × (deliver cs w
          (new_gather outer n b)
        ≡ ok (w', g'))
      × (result w' outer ≡ ok (some rs))
      × (length rs ≡ n)
      × (get_elem? rs j ≡ some (entry_of o))
gather_in_order outer n b [] w j q p x l f c d a = absurd (omega (arith, l, c))
gather_in_order outer n b ((i, o) ∷ cs) w j q p x l f c d a =
    let start : List Entry = replicate n none in
    let rs = store_all start ((i, o) ∷ cs) in
    let (w', g', e, t, r) = deliver_lem i o cs w (new_gather outer n b) refl p x a (sym c) in
    (
      w',
      g',
      rs,
      e,
      r,
      length-store_all start ((i, o) ∷ cs) ∙ length-replicate n none,
      get_elem?-store_all ((i, o) ∷ cs) start j q (omega (arith, l, length-replicate n none)) d f,
    )

settled_lem :
    (cs : List (ℕ × Outcome)) (w : World (List Entry)) (g : Gather)
    → g.settled ≡ true
    → deliver cs w g ≡ ok (w, g)
unfolding deliver child_done
settled_lem [] w g s = refl
settled_lem ((i, o) ∷ cs) w g s = ground (arith, s, settled_lem cs w g s)

failed_lem :
    (i : ℕ) (o : Outcome) (e : Exc) (w : World (List Entry)) (g : Gather)
    → g.settled ≡ false
    → g.return_exceptions ≡ false
    → (w.fut g.outer).state ≡ pending
    → exc_of o ≡ some e
    → is_stop_iteration e ≡ false
    → (w' : World (List Entry)) × (child_done i o w g ≡ ok (w', record g { settled = true }))
      × (result w' g.outer ≡ err e)
unfolding child_done set_exception result
failed_lem i o e w g s b p k h = (
  complete w g.outer (record (w.fut g.outer) { exception = some e; state = finished }),
  ground (arith, s, b, p, k, h),
  ground arith,
)

-- The first exception wins: without `return_exceptions`, where children ended well and then one
-- ended with an exception or was cancelled, that exception is what the outer future raises,
-- whatever children end after it, and no callback raises. The exception is not a StopIteration.
pub gather_first_exception :
    (good rest : List (ℕ × Outcome)) (i : ℕ) (o : Outcome) (e : Exc) (w : World (List Entry))
    (g : Gather)
    → g.settled ≡ false
    → g.return_exceptions ≡ false
    → (w.fut g.outer).state ≡ pending
    → all_collected false good ≡ true
    → length good < g.remaining
    → exc_of o ≡ some e
    → is_stop_iteration e ≡ false
    → (w' : World (List Entry)) × (g' : Gather) × (deliver (good ++ (i, o) ∷ rest) w g
        ≡ ok (w', g'))
      × (result w' g.outer ≡ err e)
unfolding deliver
gather_first_exception [] rest i o e w g s b p a l k h =
    let (w', f, r) = failed_lem i o e w g s b p k h in
    (
      w',
      record g { settled = true },
      rw f (settled_lem rest w' (record g { settled = true }) refl),
      r,
    )
gather_first_exception ((j, q) ∷ good) rest i o e w g s b p a l k h =
    let next : Gather = record g {
      results = set g.results j (entry_of q);
      remaining = g.remaining - 1;
      settled = false;
    } in
    let (w', g', d, r) =
      gather_first_exception good rest i o e w next refl b p (ground (arith, a)) (omega (arith, l))
        k h in
    (w', g', ground (arith, child_done_lem j q w g s (ground arith), a, l, d), r)
