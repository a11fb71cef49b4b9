-- ===== src/Futures/Complete.antt =====
-- The outcome of a future of mt_asyncio/asyncio/_futures.py: it is decided once.
use mt_asyncio.Prelude.{
  ℕ, ◌⊎◌, ap, not, none, if◌then◌else◌, ◌<◌, ◌≡◌, refl, ◌∙◌, true, false, Option, some, List, [],
  ◌∷◌, arith,
}
use mt_asyncio.Errors.{Exc, ok, err, invalid_state_error, type_error, cancelled_error}
use mt_asyncio.Futures.{
  World, complete, finished, instantiate, is_pending, is_stop_iteration, Raisable, result,
  exception, State, pending, done, set_result, set_exception, cancel,
}
use mt_asyncio.Futures.History.{Op, creates, exits, step, run, exit_defer-fut, exit_defer-rest}

-- What the future is settled to.
pub record Outcome {ℓ} (A : Type ℓ) : Type ℓ where
  pub state : State
  pub result : Option A
  pub exception : Option Exc
  pub cancel_message : Option ℕ

module _ {ℓ} {A : Type ℓ} where
  unfoldable pub outcome : World A → ℕ → Outcome A
  outcome w i = record {
    state = (w.fut i).state;
    result = (w.fut i).result;
    exception = (w.fut i).exception;
    cancel_message = (w.fut i).cancel_message;
  }

  pub step-next : (w : World A) (o : Op A) (i : ℕ) → i < w.next → i < (step w o).next
  unfolding step
  step-next w creates i h = ground arith
  step-next w exits i h = ground (arith, exit_defer-rest w)
  step-next w o i h = ground arith

  step-outcome :
      (w : World A) (o : Op A) (i : ℕ)
      → i < w.next
      → done w i ≡ true
      → outcome (step w o) i ≡ outcome w i
  unfolding step outcome
  step-outcome w creates i h d = ground arith
  step-outcome w exits i h d = ground (arith, exit_defer-fut w i)
  step-outcome w o i h d = ground arith

  run-outcome :
      (os : List (Op A)) (w : World A) (i : ℕ)
      → i < w.next
      → done w i ≡ true
      → (outcome (run w os) i ≡ outcome w i) × (done (run w os) i ≡ true)
  unfolding run outcome
  run-outcome [] w i h d = (refl, d)
  run-outcome (o ∷ os) w i h d =
      let same = step-outcome w o i h d in
      let settled : done (step w o) i ≡ true =
        ap (λ s. not (is_pending (Outcome.state s))) same ∙ d in
      let rest = run-outcome os (step w o) i (step-next w o i h) settled in (rest.0 ∙ same, rest.1)

  -- Once a future is done, no sequence of calls on any thread changes its outcome, and every
  -- further attempt to complete it is refused: `set_result` and `set_exception` raise, `cancel`
  -- answers false and changes nothing.
  pub single_winner :
      (w : World A) (i : ℕ) (os : List (Op A)) (u : A) (r : Raisable) (msg : Option ℕ)
      → i < w.next
      → done w i ≡ true
      → let w' = run w os in
        (outcome w' i ≡ outcome w i)
        × (set_result i u w' ≡ err invalid_state_error)
        × (set_exception i r w'
            ≡ err (if is_stop_iteration (instantiate r) then type_error else invalid_state_error))
        × (cancel i msg w' ≡ (false, w'))
  unfolding set_result set_exception cancel
  single_winner w i os u r msg h d = ground (arith, run-outcome os w i h d)

  -- A pending future holds no exception yet.
  abbrev pub IsClean : World A → ℕ → Type 0
  IsClean w i = (done w i ≡ true) ⊎ ((w.fut i).exception ≡ none)

  step-IsClean : (w : World A) (o : Op A) (i : ℕ) → IsClean w i → IsClean (step w o) i
  unfolding step
  step-IsClean w creates i c = ground arith
  step-IsClean w exits i c = ground (arith, exit_defer-fut w i)
  step-IsClean w o i c = ground arith

  run-IsClean : (os : List (Op A)) (w : World A) (i : ℕ) → IsClean w i → IsClean (run w os) i
  unfolding run
  run-IsClean [] w i c = c
  run-IsClean (o ∷ os) w i c = run-IsClean os (step w o) i (step-IsClean w o i c)

  -- After any history in which `i` is still pending, the first completion is read back by `result`
  -- and `exception`: a value by `set_result`, an exception other than StopIteration (instantiated)
  -- by `set_exception`, and `CancelledError` with its message by `cancel`.
  pub result-set_result :
      (w : World A) (os : List (Op A)) (i : ℕ) (v : A) (r : Raisable) (msg : Option ℕ)
      → IsClean w i
      → ((run w os).fut i).state ≡ pending
      → is_stop_iteration (instantiate r) ≡ false
      → let w' = run w os in
        ((w₁ : World A) × (set_result i v w' ≡ ok w₁)
          × (result w₁ i ≡ ok (some v))
          × (exception w₁ i ≡ ok none))
        × ((w₁ : World A) × (set_exception i r w' ≡ ok w₁)
            × (result w₁ i ≡ err (instantiate r))
            × (exception w₁ i ≡ ok (some (instantiate r))))
        × (result (cancel i msg w').1 i ≡ err (cancelled_error msg))
        × (exception (cancel i msg w').1 i ≡ err (cancelled_error msg))
  unfolding set_result set_exception cancel result exception
  result-set_result w os i v r msg c p s =
      let w' = run w os in
      let f = w'.fut i in
      let clean = run-IsClean os w i c in
      (
        (
          complete w' i (record f { result = some v; state = finished }),
          ground arith,
          ground (arith, clean),
          ground (arith, clean),
        ),
        (
          complete w' i (record f { exception = some (instantiate r); state = finished }),
          ground arith,
          ground arith,
          ground arith,
        ),
        ground arith,
        ground arith,
      )
