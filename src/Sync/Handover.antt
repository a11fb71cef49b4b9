-- ===== src/Sync/Handover.antt =====
-- What `hand_over` does: it completes the first pending waiter, and never raises.
use mathlib.Core.Path.{subst}
use mt_asyncio.Prelude.{
  ℕ, ◌≡◌, ◌⊎◌, inl, inr, refl, true, false, ◌||◌, Option, some, List, [], ◌∷◌, ◌++◌, arith, ap,
  Bool-cases, ◌==◌, contains, contains-append, Distinct, All,
}
use mt_asyncio.Errors.{ok}
use mt_asyncio.Futures.{World, cancel, done, is_finished, finished, complete, set_result}
use mt_asyncio.Sync.{Handed, hand_over}

Distinct-suffix :
    (xs : List ℕ) (f : ℕ) (ys : List ℕ)
    → Distinct (xs ++ f ∷ ys)
    → Distinct ys × (contains f ys ≡ false)
Distinct-suffix [] f ys d = (d.1, d.0)
Distinct-suffix (x ∷ xs) f ys d = Distinct-suffix xs f ys d.1

module _ {ℓ} {A : Type ℓ} where
  -- `f` completed with `v`, by `Future.set_result`.
  unfoldable pub given : World A → ℕ → A → World A
  given w f v = complete w f (record (w.fut f) { result = some v; state = finished })

  pub set_result-given :
      (w : World A) (f : ℕ) (v : A) → done w f ≡ false → set_result f v w ≡ ok (given w f v)
  unfolding set_result given
  set_result-given w f v d = ground arith

  -- `f` is the first pending entry of `fs`, and `rest` stands behind it.
  pub record Served (w : World A) (fs : List ℕ) (f : ℕ) (rest : List ℕ) : Type 0 where
    pub skipped : List ℕ
    pub order : fs ≡ skipped ++ f ∷ rest
    pub settled : All (λ g. done w g ≡ true) skipped
    pub waiting : done w f ≡ false

  -- Either every waiter is done and the deque ends empty, or the first pending one gets `v`.
  abbrev pub Handover : A → List ℕ → World A → Type ℓ
  Handover v fs w =
      ((hand_over v fs w ≡ ok (record { granted = false; waiters = []; world = w }))
        × All (λ g. done w g ≡ true) fs)
      ⊎ ((f : ℕ) × (rest : List ℕ) × (hand_over v fs w
            ≡ ok (record { granted = true; waiters = rest; world = given w f v }))
          × Served w fs f rest)

  pub hand_over_lem : (v : A) (fs : List ℕ) (w : World A) → Handover v fs w
  unfolding hand_over
  hand_over_lem v [] w = inl (refl, tt)
  hand_over_lem v (f ∷ fs) w = elim (Bool-cases (done w f)) [
    | inl d ↦ elim (hand_over_lem v fs w) [
      | inl (e, all) ↦ inl (rw d e, (d, all))
      | inr (g, rest, e, s) ↦ inr (
        g,
        rest,
        rw d e,
        record {
          skipped = f ∷ s.skipped;
          order = ap (◌∷◌ f) s.order;
          settled = (d, s.settled);
          waiting = s.waiting;
        },
      )
    ]
    | inr d ↦ inr (
      f,
      fs,
      rw (d, set_result-given w f v d),
      record { skipped = []; order = refl; settled = tt; waiting = d },
    )
  ]

  pub finished-given :
      (w : World A) (f : ℕ) (v : A) (g : ℕ)
      → is_finished ((given w f v).fut g).state ≡ (f == g || is_finished (w.fut g).state)
  unfolding given complete
  finished-given w f v g = ground arith

  pub done-given :
      (w : World A) (f : ℕ) (v : A) (g : ℕ) → done (given w f v) g ≡ (f == g || done w g)
  unfolding given complete
  done-given w f v g = ground arith

  pub next-given : (w : World A) (f : ℕ) (v : A) → (given w f v).next ≡ w.next
  unfolding given complete
  next-given w f v = ground arith

  pub All-contains :
      (w : World A) (xs : List ℕ) (g : ℕ)
      → All (λ h. done w h ≡ true) xs
      → contains g xs ≡ true
      → done w g ≡ true
  All-contains w [] g a c = cc
  All-contains w (x ∷ xs) g a c = ground (arith, All-contains w xs g a.1)

  module _ {w : World A} {fs rest : List ℕ} {f : ℕ} (s : Served w fs f rest) where
    parts : (g : ℕ) → contains g fs ≡ (contains g s.skipped || (f == g || contains g rest))
    parts g = rw (s.order) (contains-append g s.skipped (f ∷ rest))

    pub Served-member : contains f fs ≡ true
    Served-member = ground (arith, parts f)

    pub Served-rest : (g : ℕ) → contains g rest ≡ true → contains g fs ≡ true
    Served-rest g h = ground (arith, parts g)

    pub Served-passed :
        (g : ℕ) → contains g fs ≡ true → (f ≡ g) ⊎ ((contains g rest ≡ true) ⊎ (done w g ≡ true))
    Served-passed g h = ground (arith, parts g, All-contains w s.skipped g s.settled)

    pub Served-Distinct : Distinct fs → Distinct rest × (contains f rest ≡ false)
    Served-Distinct d = Distinct-suffix s.skipped f rest (subst Distinct s.order d)

  pub finished-cancel :
      (w : World A) (f : ℕ) (msg : Option ℕ) (g : ℕ)
      → is_finished (((cancel f msg w).1).fut g).state ≡ is_finished (w.fut g).state
  unfolding cancel
  finished-cancel w f msg g = ground arith

  pub done-cancel :
      (w : World A) (f : ℕ) (msg : Option ℕ) (g : ℕ)
      → done (cancel f msg w).1 g ≡ (f == g || done w g)
  unfolding cancel
  done-cancel w f msg g = ground arith

  pub next-cancel : (w : World A) (f : ℕ) (msg : Option ℕ) → (cancel f msg w).1.next ≡ w.next
  unfolding cancel
  next-cancel w f msg = ground arith

  -- `hand_over` never raises.
  pub hand_over-total :
      (v : A) (fs : List ℕ) (w : World A) → (h : Handed A) × (hand_over v fs w ≡ ok h)
  hand_over-total v fs w = elim (hand_over_lem v fs w) [
    | inl (e, all) ↦ (_, e)
    | inr (f, rest, e, s) ↦ (_, e)
  ]
