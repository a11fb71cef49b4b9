-- ===== src/TaskGroups/Verdict.antt =====
-- How `_aexit` of mt_asyncio/asyncio/_tg.py ends.
use mt_asyncio.Prelude.{
  ℕ, ◌≡◌, ◌↔◌, inl, inr, refl, Bool, true, false, ◌&&◌, ◌||◌, Option, none, some, List, [], ◌∷◌,
  ◌++◌, arith, ltb, leb, if◌then◌else◌, Bool-cases,
}
use mt_asyncio.Errors.{Exc}
use mt_asyncio.Sync.Semaphore.{is_empty}
use mt_asyncio.TaskGroups.{
  Group, returns, raises_group, is_cancel, is_none, with_body, exit_verdict, raise_errors,
  left_over,
}

-- The body ended normally or by CancelledError.
abbrev pub is_quiet : Option Exc → Bool
is_quiet none = true
is_quiet (some e) = is_cancel e

raise_errors-snoc :
    (n : ℕ) (l : List Exc) (e : Exc)
    → raise_errors n (l ++ e ∷ []) ≡ raises_group (ltb 0 n) (l ++ e ∷ [])
raise_errors-snoc n [] e = refl
raise_errors-snoc n (x ∷ l) e = refl

raise_errors-with_body :
    (n : ℕ) (exc : Option Exc) (l : List Exc)
    → raise_errors n (with_body exc l)
      ≡ (if is_empty l && is_quiet exc then returns else raises_group (ltb 0 n) (with_body exc l))
raise_errors-with_body n none [] = refl
raise_errors-with_body n none (x ∷ l) = refl
raise_errors-with_body n (some e) [] = elim (Bool-cases (is_cancel e)) [
  | inl c ↦ rw c refl
  | inr c ↦ rw c refl
]
raise_errors-with_body n (some e) (x ∷ l) = elim (Bool-cases (is_cancel e)) [
  | inl c ↦ rw c refl
  | inr c ↦ rw c refl
]

-- The scope ends without an exception exactly if no SystemExit or KeyboardInterrupt was seen, no
-- child failed, the body ended normally or by CancelledError, and there is no cancellation to pass
-- on but the group's own one.
pub verdict_returns_iff :
    (requests : ℕ) (propagate exc : Option Exc) (g : Group)
    → (exit_verdict requests propagate exc g ≡ returns) ↔ (
        (is_none g.base_error
          && (is_empty g.errors
              && (is_quiet exc
                  && (is_none propagate || (g.parent_cancel_requested && leb requests 1)))))
        ≡ true)
unfolding exit_verdict
verdict_returns_iff requests propagate exc g =
    let raising = raise_errors-with_body (left_over requests g) exc g.errors in
    (λ h. ground (arith, h, raising), λ h. ground (arith, h, raising))

-- If a child failed and no SystemExit or KeyboardInterrupt was seen, the exception group of all the
-- children's errors is raised, with the body's own error behind them unless that is a cancellation.
-- The parent is cancelled once more exactly if a request that is not the group's own is
-- outstanding.
pub verdict_group :
    (requests : ℕ) (propagate exc : Option Exc) (g : Group)
    → is_none g.base_error ≡ true
    → is_empty g.errors ≡ false
    → exit_verdict requests propagate exc g
      ≡ raises_group
          (ltb (if g.parent_cancel_requested then 1 else 0) requests)
          (with_body exc g.errors)
unfolding exit_verdict
verdict_group requests propagate exc g b e =
    ground (arith, b, e, raise_errors-with_body (left_over requests g) exc g.errors)
