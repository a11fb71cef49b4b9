-- ===== src/Control/Sleeping.antt =====
-- `sleep` of mt_asyncio/asyncio/_sleep.py with a delay to come, and what `wait` of mt_asyncio/asyncio/_ctl.py
-- returns.
use mt_asyncio.Prelude.{
  ℕ, ◌≡◌, refl, Bool, not, ◌&&◌, Option, none, some, List, [], ◌∷◌, arith, ◌==◌, if◌then◌else◌,
  contains,
}
use mt_asyncio.Errors.{Result, ok, err, cancelled_error}
use mt_asyncio.Futures.{World, pending, create_future, done, set_result, cancel, result}

-- `sleep` up to its await: it yields once, or parks on a future that a timer of this delay completes.
pub data Slept : Type 0 where
  yields_once : Slept
  parks : ℕ → ℕ → World ℕ → Slept

unfoldable pub sleep : ℕ → World ℕ → Slept
unfolding create_future
sleep delay w =
    let (f, w') = create_future w in if delay == 0 then yields_once else parks f delay w'

abbrev settled : World ℕ → Result (World ℕ) → World ℕ
settled w (ok w') = w'
settled w (err e) = w

-- `_set_result_unless_done`
unfoldable pub set_result_unless_done : ℕ → ℕ → World ℕ → World ℕ
unfolding set_result
set_result_unless_done f v w = if done w f then w else settled w (set_result f v w)

-- `sleep` gives its result once its timer has run; a cancellation that comes first is what it raises, and the
-- late timer changes nothing.
pub sleep_returns :
    (f v : ℕ) (msg : Option ℕ) (w : World ℕ)
    → (w.fut f).state ≡ pending
    → (w.fut f).exception ≡ none
    → (result (set_result_unless_done f v w) f ≡ ok (some v))
      × (result (cancel f msg w).1 f ≡ err (cancelled_error msg))
      × (set_result_unless_done f v (cancel f msg w).1 ≡ (cancel f msg w).1)
unfolding set_result_unless_done set_result cancel result
sleep_returns f v msg w p x = (ground (arith, p, x), ground (arith, p), ground (arith, p))

-- `for t in tasks: (done if t.done() else pending).add(t)`
unfoldable pub split : (ℕ → Bool) → List ℕ → List ℕ × List ℕ
split is_done [] = ([], [])
split is_done (t ∷ ts) =
    let (d, p) = split is_done ts in if is_done t then (t ∷ d, p) else (d, t ∷ p)

-- `wait` returns each of its tasks, in the first set if it is done and in the second if not, and no other.
pub split_lem :
    (is_done : ℕ → Bool) (ts : List ℕ) (t : ℕ)
    → (contains t (split is_done ts).0 ≡ (contains t ts && is_done t))
      × (contains t (split is_done ts).1 ≡ (contains t ts && not (is_done t)))
unfolding split
split_lem is_done [] t = (refl, refl)
split_lem is_done (x ∷ ts) t =
    (ground (arith, (split_lem is_done ts t).0), ground (arith, (split_lem is_done ts t).1))
