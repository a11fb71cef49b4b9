-- ===== src/Control/Release.antt =====
-- When the waiter of `wait` in mt_asyncio/asyncio/_ctl.py is released.
use mt_asyncio.Prelude.{
  ℕ, suc, ◌+◌, ◌<◌, ◌≤◌, ◌≡◌, refl, Bool, true, false, ◌&&◌, ◌||◌, List, [], ◌∷◌, arith, ltb, ◌==◌,
  Bool-cases, inl, inr,
}
use mt_asyncio.Errors.{Result, ok, ◌>>=◌}
use mt_asyncio.Futures.{World, done}
use mt_asyncio.Sync.Handover.{given, done-given, set_result-given}
use mt_asyncio.Control.{
  ReturnWhen, first_completed, first_exception, all_completed, Wait, new_wait, release, releases,
  on_done, on_timeout,
}

-- A task is done (`true`: cancelled or with an exception), or the timeout fires.
pub data Signal : Type 0 where
  ends : Bool → Signal
  times_out : Signal

abbrev pub signal : Signal → World Bool → Wait → Result (World Bool × Wait)
signal (ends unhappy) w s = on_done unhappy w s
signal times_out w s = on_timeout w s

unfoldable pub signals : List Signal → World Bool → Wait → Result (World Bool × Wait)
signals [] w s = ok (w, s)
signals (x ∷ xs) w s = signal x w s >>= λ r. signals xs r.0 r.1

abbrev pub completed : List Signal → ℕ
completed [] = 0
completed (ends unhappy ∷ xs) = suc (completed xs)
completed (times_out ∷ xs) = completed xs

abbrev pub any_unhappy : List Signal → Bool
any_unhappy [] = false
any_unhappy (ends unhappy ∷ xs) = unhappy || any_unhappy xs
any_unhappy (times_out ∷ xs) = any_unhappy xs

abbrev pub timed_out : List Signal → Bool
timed_out [] = false
timed_out (ends unhappy ∷ xs) = timed_out xs
timed_out (times_out ∷ xs) = true

-- The condition of `return_when`, where `k` of `n` tasks were done before.
abbrev pub reached : ReturnWhen → ℕ → ℕ → List Signal → Bool
reached first_completed k n xs = ltb 0 (completed xs)
reached first_exception k n xs =
    any_unhappy xs || (ltb 0 (completed xs) && ((k + completed xs) == n))
reached all_completed k n xs = ltb 0 (completed xs) && ((k + completed xs) == n)

reached-ends :
    (c : ReturnWhen) (u : Bool) (k n : ℕ) (xs : List Signal)
    → k + completed (ends u ∷ xs) ≤ n
    → reached c k n (ends u ∷ xs) ≡ (releases c u ((k + 1) == n) || reached c (k + 1) n xs)
reached-ends first_completed u k n xs h = ground arith
reached-ends first_exception true k n xs h = refl
reached-ends first_exception false k n xs h = ground (arith, h)
reached-ends all_completed u k n xs h = ground (arith, h)

reached-nil : (c : ReturnWhen) (k n : ℕ) → reached c k n [] ≡ false
reached-nil first_completed k n = refl
reached-nil first_exception k n = refl
reached-nil all_completed k n = refl

-- `_release` leaves the waiter done, and never raises.
release_lem :
    (w : World Bool) (s : Wait)
    → done w s.waiter ≡ s.settled
    → (w' : World Bool) × (release w s ≡ ok (w', record s { settled = true }))
      × (done w' s.waiter ≡ true)
unfolding release
release_lem w s e = elim (Bool-cases s.settled) [
  | inl t ↦ (w, ground (arith, t), ground (arith, e, t))
  | inr f ↦ (
    given w s.waiter true,
    ground (arith, e, f, set_result-given w s.waiter true),
    ground (arith, done-given w s.waiter true s.waiter),
  )
]

signals_lem :
    (xs : List Signal) (w : World Bool) (s : Wait)
    → done w s.waiter ≡ s.settled
    → s.ndone + completed xs ≤ s.n
    → (w' : World Bool) × (s' : Wait) × (signals xs w s ≡ ok (w', s'))
      × (done w' s.waiter ≡ (s.settled || (timed_out xs || reached s.return_when s.ndone s.n xs)))
unfolding signals on_done on_timeout
signals_lem [] w s e h = (w, s, refl, ground (arith, e, reached-nil s.return_when s.ndone s.n))
signals_lem (times_out ∷ xs) w s e h =
    let (w₁, r, d) = release_lem w s e in
    let (w', s', r', d') = signals_lem xs w₁ (record s { settled = true }) d h in
    (w', s', rw r r', ground (arith, d'))
signals_lem (ends u ∷ xs) w s e h =
    let counted : Wait = record s { ndone = s.ndone + 1 } in
    elim (Bool-cases (releases s.return_when u ((s.ndone + 1) == s.n))) [
      | inl t ↦
          let (w₁, r, d) = release_lem w counted e in
          let (w', s', r', d') =
            signals_lem xs w₁ (record counted { settled = true }) d (omega (arith, h)) in
          (
            w',
            s',
            rw (t, r) r',
            ground (arith, d', t, reached-ends s.return_when u s.ndone s.n xs h),
          )
      | inr f ↦
          let (w', s', r', d') = signals_lem xs w counted e (omega (arith, h)) in
          (w', s', rw f r', ground (arith, d', f, reached-ends s.return_when u s.ndone s.n xs h))
    ]

abbrev pub met : ReturnWhen → ℕ → List Signal → Bool
met first_completed n xs = ltb 0 (completed xs)
met first_exception n xs = any_unhappy xs || (completed xs == n)
met all_completed n xs = completed xs == n

-- `wait` on `n > 0` tasks: in any order of completions (of at most `n` tasks) and timeouts, no
-- callback raises, and the waiter is released exactly when the timeout has fired or `return_when`
-- is met: some task is done, one is done with an exception or cancelled or all are done, all are
-- done.
pub wait_released_iff :
    (c : ReturnWhen) (f n : ℕ) (xs : List Signal) (w : World Bool)
    → done w f ≡ false
    → 0 < n
    → completed xs ≤ n
    → (w' : World Bool) × (s' : Wait) × (signals xs w (new_wait f n c) ≡ ok (w', s'))
      × (done w' f ≡ (timed_out xs || met c n xs))
wait_released_iff first_completed f n xs w d p h =
    signals_lem xs w (new_wait f n first_completed) d (omega (arith, h))
wait_released_iff first_exception f n xs w d p h =
    let (w', s', e, r) = signals_lem xs w (new_wait f n first_exception) d (omega (arith, h)) in
    (w', s', e, ground (arith, r, p))
wait_released_iff all_completed f n xs w d p h =
    let (w', s', e, r) = signals_lem xs w (new_wait f n all_completed) d (omega (arith, h)) in
    (w', s', e, ground (arith, r, p))
