-- ===== src/Control.antt =====
-- mt_asyncio/asyncio/_ctl.py: `gather`, `wait` and `shield`. Their callbacks run on any worker, in
-- any order, one at a time under the lock of the call.
pub mod Collect
pub mod Gathering
pub mod Release
pub mod Mirror
pub mod Completed
pub mod Bridge
pub mod Threadsafe
pub mod WaitFor
pub mod Executor
pub mod Sleeping
pub mod Running
use mt_asyncio.Prelude.{
  ℕ, zero, suc, ◌+◌, ◌-◌, Bool, true, false, not, ◌&&◌, Option, none, some, List, [], ◌∷◌, ◌==◌,
  if◌then◌else◌,
}
use mt_asyncio.Errors.{Exc, cancelled_error, Result, ok, err, ◌>>=◌}
use mt_asyncio.Futures.{World, done, is_cancelled, set_result, set_exception, cancel, instance_of}

-- How a child ended. Its values are numbers.
pub data Outcome : Type 0 where
  value : ℕ → Outcome
  failed : Exc → Outcome
  was_cancelled : Outcome

-- An entry of `results`: None, or the value or exception of the child.
abbrev pub Entry : Type 0
Entry = Option (Result ℕ)

module _ {ℓ} {A : Type ℓ} where
  -- `xs[i] = v`
  abbrev pub set : List A → ℕ → A → List A
  set [] i v = []
  set (x ∷ xs) zero v = v ∷ xs
  set (x ∷ xs) (suc i) v = x ∷ set xs i v

  abbrev pub replicate : ℕ → A → List A
  replicate zero a = []
  replicate (suc n) a = a ∷ replicate n a

  abbrev pub get_elem? : List A → ℕ → Option A
  get_elem? [] i = none
  get_elem? (x ∷ xs) zero = some x
  get_elem? (x ∷ xs) (suc i) = get_elem? xs i

-- The state that the callbacks of one `gather` share; `outer` is its future.
pub record Gather : Type 0 where
  pub outer : ℕ
  pub results : List Entry
  pub remaining : ℕ
  pub settled : Bool
  pub return_exceptions : Bool

-- `gather` of `n` children.
abbrev pub new_gather : ℕ → ℕ → Bool → Gather
new_gather outer n return_exceptions = record {
  outer = outer;
  results = replicate n none;
  remaining = n;
  settled = false;
  return_exceptions = return_exceptions;
}

-- The exception of a child, and what goes into `results`.
abbrev pub exc_of : Outcome → Option Exc
exc_of (value v) = none
exc_of (failed e) = some e
exc_of was_cancelled = some (cancelled_error none)

abbrev pub entry_of : Outcome → Entry
entry_of (value v) = some (ok v)
entry_of (failed e) = some (err e)
entry_of was_cancelled = some (err (cancelled_error none))

module _ {ℓ} {A : Type ℓ} where
  -- `if not fut.done(): fut.set_result(v)`
  abbrev pub set_result_unless_done : ℕ → A → World A → Result (World A)
  set_result_unless_done f v w = if done w f then ok w else set_result f v w

  abbrev pub set_exception_unless_done : ℕ → Exc → World A → Result (World A)
  set_exception_unless_done f e w = if done w f then ok w else set_exception f (instance_of e) w

abbrev fail_fast :
    Option Exc
    → Outcome
    → ℕ
    → World (List Entry)
    → Gather
    → Result (World (List Entry) × Gather)
    → Result (World (List Entry) × Gather)
fail_fast none o i w g rest = rest
fail_fast (some e) o i w g rest =
    if g.return_exceptions
    then rest
    else (set_exception_unless_done g.outer e w >>= λ w'. ok (w', record g { settled = true }))

-- The part of `_child_done` that stores a result.
abbrev store : ℕ → Outcome → World (List Entry) → Gather → Result (World (List Entry) × Gather)
store i o w g =
    let results = set g.results i (entry_of o) in
    let g' = record g {
      results = results;
      remaining = g.remaining - 1;
      settled = (g.remaining - 1) == 0;
    } in
    if (g.remaining - 1) == 0
    then (set_result_unless_done g.outer results w >>= λ w'. ok (w', g'))
    else ok (w, g')

-- `_child_done(index, child)`
unfoldable pub child_done :
    ℕ → Outcome → World (List Entry) → Gather → Result (World (List Entry) × Gather)
child_done i o w g = if g.settled then ok (w, g) else fail_fast (exc_of o) o i w g (store i o w g)

pub data ReturnWhen : Type 0 where
  first_completed first_exception all_completed : ReturnWhen

-- The state that the callbacks of one `wait` share; `waiter` is its future, `n` its tasks.
pub record Wait : Type 0 where
  pub waiter : ℕ
  pub n : ℕ
  pub ndone : ℕ
  pub settled : Bool
  pub return_when : ReturnWhen

abbrev pub new_wait : ℕ → ℕ → ReturnWhen → Wait
new_wait waiter n return_when = record {
  waiter = waiter;
  n = n;
  ndone = 0;
  settled = false;
  return_when = return_when;
}

-- `_release`
unfoldable pub release : World Bool → Wait → Result (World Bool × Wait)
release w s =
    if s.settled
    then ok (w, s)
    else (set_result_unless_done s.waiter true w >>= λ w'. ok (w', record s { settled = true }))

-- The test of `_on_done`; `unhappy` is `t.cancelled() or t.exception() is not None`.
abbrev pub releases : ReturnWhen → Bool → Bool → Bool
releases first_completed unhappy is_last = true
releases first_exception true is_last = true
releases first_exception false is_last = is_last
releases all_completed unhappy is_last = is_last

unfoldable pub on_done : Bool → World Bool → Wait → Result (World Bool × Wait)
unfolding release
on_done unhappy w s =
    let s' = record s { ndone = s.ndone + 1 } in
    if releases s.return_when unhappy ((s.ndone + 1) == s.n) then release w s' else ok (w, s')

unfoldable pub on_timeout : World Bool → Wait → Result (World Bool × Wait)
unfolding release
on_timeout w s = release w s

-- `_inner_done` of `shield`, for the outer future.
unfoldable pub inner_done : ℕ → Outcome → World ℕ → Result (World ℕ)
inner_done outer (value v) w =
    if is_cancelled (w.fut outer).state then ok w else set_result outer v w
inner_done outer (failed e) w =
    if is_cancelled (w.fut outer).state then ok w else set_exception outer (instance_of e) w
inner_done outer was_cancelled w =
    if is_cancelled (w.fut outer).state then ok w else ok ((cancel outer none w).1)
