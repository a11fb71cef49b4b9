-- ===== src/Prelude/Lists.antt =====
-- Lists over the native numbers: measure, membership, removal.
use Prim.Native.Nat.{ℕ, zero, suc, ◌+◌, ◌-◌, ◌≤◌}
use mathlib.Core.Path.{◌≡◌, refl, ap}
use mathlib.Core.Bool.{Bool, true, false, not, ◌&&◌, ◌||◌}
use mathlib.Core.List.{List, [], ◌∷◌, ◌++◌}
use native.Mathlib.Omega.{arith}
use mathlib.Core.Logic.{inl, inr}
use mt_asyncio.Prelude.Tests.{◌==◌, if◌then◌else◌, Bool-cases}

module _ {ℓ} {A : Type ℓ} where
  abbrev pub length : List A → ℕ
  length [] = 0
  length (x ∷ xs) = suc (length xs)

  pub length-append : (xs ys : List A) → length (xs ++ ys) ≡ length xs + length ys
  length-append [] ys = omega arith
  length-append (x ∷ xs) ys = omega (arith, length-append xs ys)

  -- How many entries pass the test.
  abbrev pub count_if : (A → Bool) → List A → ℕ
  count_if p [] = 0
  count_if p (x ∷ xs) = (if p x then 1 else 0) + count_if p xs

  pub count_if-append :
      (p : A → Bool) (xs ys : List A) → count_if p (xs ++ ys) ≡ count_if p xs + count_if p ys
  count_if-append p [] ys = omega arith
  count_if-append p (x ∷ xs) ys = omega (arith, count_if-append p xs ys)

  abbrev pub All {κ} : (A → Type κ) → List A → Type κ
  All P [] = Unit
  All P (x ∷ xs) = P x × All P xs

  pub All-append {κ} : (P : A → Type κ) (xs ys : List A) → All P xs → All P ys → All P (xs ++ ys)
  All-append P [] ys hx hy = hy
  All-append P (x ∷ xs) ys hx hy = (hx.0, All-append P xs ys hx.1 hy)

-- `x in xs`
abbrev pub contains : ℕ → List ℕ → Bool
contains a [] = false
contains a (x ∷ xs) = (x == a) || contains a xs

-- `xs.remove(x)`: the first occurrence goes; on a missing entry the list stays.
abbrev pub remove : ℕ → List ℕ → List ℕ
remove a [] = []
remove a (x ∷ xs) = if x == a then xs else x ∷ remove a xs

-- No entry occurs twice.
abbrev pub Distinct : List ℕ → Type 0
Distinct [] = Unit {0}
Distinct (x ∷ xs) = (contains x xs ≡ false) × Distinct xs

pub contains-append :
    (a : ℕ) (xs ys : List ℕ) → contains a (xs ++ ys) ≡ (contains a xs || contains a ys)
contains-append a [] ys = refl
contains-append a (x ∷ xs) ys = ground (arith, contains-append a xs ys)

pub count_if-agree :
    (p q : ℕ → Bool) (xs : List ℕ)
    → ((a : ℕ) → contains a xs ≡ true → q a ≡ p a)
    → count_if q xs ≡ count_if p xs
count_if-agree p q [] h = refl
count_if-agree p q (x ∷ xs) h =
    ground (arith, h x (ground arith), count_if-agree p q xs (λ a c. h a (ground (arith, c))))

count_if-same :
    (p q : ℕ → Bool) (f : ℕ) (xs : List ℕ)
    → ((a : ℕ) → q a ≡ ((f == a) || p a))
    → contains f xs ≡ false
    → count_if q xs ≡ count_if p xs
count_if-same p q f [] h n = refl
count_if-same p q f (x ∷ xs) h n = ground (arith, h x, count_if-same p q f xs h)

-- `q` is `p` with `f` added: one entry more passes, if `f` is there.
pub count_if-hit :
    (p q : ℕ → Bool) (f : ℕ) (xs : List ℕ)
    → ((a : ℕ) → q a ≡ ((f == a) || p a))
    → p f ≡ false
    → Distinct xs
    → count_if q xs ≡ count_if p xs + (if contains f xs then 1 else 0)
count_if-hit p q f [] h n d = omega arith
count_if-hit p q f (x ∷ xs) h n d =
    ground (arith, h x, count_if-hit p q f xs h n d.1, count_if-same p q f xs h)

pub contains-remove :
    (g f : ℕ) (xs : List ℕ)
    → Distinct xs
    → contains g (remove f xs) ≡ (contains g xs && not (f == g))
contains-remove g f [] d = refl
contains-remove g f (x ∷ xs) d = ground (arith, contains-remove g f xs d.1)

pub Distinct-remove : (f : ℕ) (xs : List ℕ) → Distinct xs → Distinct (remove f xs)
Distinct-remove f [] d = tt
Distinct-remove f (x ∷ xs) d = ground (arith, Distinct-remove f xs d.1, contains-remove x f xs d.1)

pub Distinct-snoc :
    (xs : List ℕ) (f : ℕ) → Distinct xs → contains f xs ≡ false → Distinct (xs ++ f ∷ [])
Distinct-snoc [] f d h = (refl, tt)
Distinct-snoc (x ∷ xs) f d h = ground (arith, Distinct-snoc xs f d.1, contains-append x xs (f ∷ []))

pub count_if-remove :
    (p : ℕ → Bool) (f : ℕ) (xs : List ℕ)
    → contains f xs ≡ true
    → count_if p xs ≡ count_if p (remove f xs) + (if p f then 1 else 0)
count_if-remove p f [] h = cc
count_if-remove p f (x ∷ xs) h = ground (arith, count_if-remove p f xs)

pub contains-remove_ne :
    (g f : ℕ) (xs : List ℕ) → (f == g) ≡ false → contains g (remove f xs) ≡ contains g xs
contains-remove_ne g f [] h = refl
contains-remove_ne g f (x ∷ xs) h = ground (arith, contains-remove_ne g f xs h)

contains-ne :
    (i a : ℕ) (xs : List ℕ) → contains i xs ≡ false → contains a xs ≡ true → (i == a) ≡ false
contains-ne i a [] h m = cc
contains-ne i a (x ∷ xs) h m = ground (arith, contains-ne i a xs)

-- Changing a test at one entry changes its count by that entry.
pub count_if-swap :
    (p q : ℕ → Bool) (i : ℕ) (xs : List ℕ)
    → ((a : ℕ) → (i == a) ≡ false → q a ≡ p a)
    → contains i xs ≡ true
    → Distinct xs
    → count_if q xs + (if p i then 1 else 0) ≡ count_if p xs + (if q i then 1 else 0)
count_if-swap p q i [] h c d = cc
count_if-swap p q i (x ∷ xs) h c d = elim (Bool-cases (x == i)) [
  | inl e ↦
      let out : contains i xs ≡ false = ground (arith, e, d.0) in
      ground (arith, e, count_if-agree p q xs (λ a m. h a (contains-ne i a xs out m)))
  | inr e ↦ ground (arith, e, c, h x, count_if-swap p q i xs h)
]

module _ {ℓ} {A : Type ℓ} where
  abbrev pub take : ℕ → List A → List A
  take zero xs = []
  take (suc n) [] = []
  take (suc n) (x ∷ xs) = x ∷ take n xs

  abbrev pub drop : ℕ → List A → List A
  drop zero xs = xs
  drop (suc n) [] = []
  drop (suc n) (x ∷ xs) = drop n xs

  pub take-append-drop : (n : ℕ) (xs : List A) → take n xs ++ drop n xs ≡ xs
  take-append-drop zero xs = refl
  take-append-drop (suc n) [] = refl
  take-append-drop (suc n) (x ∷ xs) = ap (◌∷◌ x) (take-append-drop n xs)

  pub length-drop : (n : ℕ) (xs : List A) → length (drop n xs) ≡ length xs - n
  length-drop zero xs = omega arith
  length-drop (suc n) [] = omega arith
  length-drop (suc n) (x ∷ xs) = omega (arith, length-drop n xs)

  take_nil : (n : ℕ) → take n [] ≡ []
  take_nil zero = refl
  take_nil (suc n) = refl

  -- What is taken in two parts is taken at once.
  pub take_add : (m n : ℕ) (xs : List A) → take m xs ++ take n (drop m xs) ≡ take (m + n) xs
  take_add zero n xs = ap (λ k. take k xs) (omega arith)
  take_add (suc m) n [] = let e : suc m + n ≡ suc (m + n) = omega arith in rw e (take_nil n)
  take_add (suc m) n (x ∷ xs) =
      let e : suc m + n ≡ suc (m + n) = omega arith in rw e (ap (◌∷◌ x) (take_add m n xs))

  pub take_all : (n : ℕ) (xs : List A) → length xs ≤ n → take n xs ≡ xs
  take_all zero [] h = refl
  take_all zero (x ∷ xs) h = absurd (omega (arith, h))
  take_all (suc n) [] h = refl
  take_all (suc n) (x ∷ xs) h = ap (◌∷◌ x) (take_all n xs (omega (arith, h)))
