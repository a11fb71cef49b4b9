-- ===== src/Control/WaitFor.antt =====
-- `wait_for` of mt_asyncio/asyncio/_ctl.py with a timeout that has passed, and its `_cancel_and_wait`. With a
-- timeout to come it is the scope of `Timeouts`.
use mt_asyncio.Prelude.{
  ℕ, suc, ◌<◌, ◌≡◌, Bool, true, false, Option, none, some, [], ◌∷◌, ◌++◌, arith, if◌then◌else◌,
}
use mt_asyncio.Errors.{Exc, cancelled_error, timeout_error, Result, ok, err}
use mt_asyncio.Futures.{
  World, Callback, Call, pending, done, create_future, add_done_callback, remove_done_callback,
  kept, set_result, complete, result,
}
use mt_asyncio.Tasks.{Runtime, cancel}
use mt_asyncio.Futures

abbrev settled : World ℕ → Result (World ℕ) → World ℕ
settled w (ok w') = w'
settled w (err e) = w

-- `_release_waiter(waiter)`
unfoldable pub release_waiter : ℕ → World ℕ → World ℕ
unfolding set_result
release_waiter waiter w = if done w waiter then w else settled w (set_result waiter 0 w)

-- It returns or raises at once, or awaits its waiter.
pub data Begun : Type 0 where
  returns : Result (Option ℕ) → Begun
  parks : ℕ → Runtime ℕ → Begun

abbrev parked : ℕ → Option (Bool × Runtime ℕ) → Option Begun
parked waiter none = none
parked waiter (some (b, r)) = some (parks waiter r)

-- `_cancel_and_wait(fut)` up to its await; `cb` is the callback that releases the waiter. None is a chain of
-- tasks longer than the fuel.
unfoldable pub cancel_and_wait : ℕ → ℕ → ℕ → ℕ → Runtime ℕ → Option Begun
unfolding create_future add_done_callback cancel
cancel_and_wait fuel fut cb current r =
    let (waiter, w) = create_future r.world in
    parked waiter
      (cancel fuel fut none (record r { world = add_done_callback fut cb none current w }))

-- `wait_for(fut, 0)` up to its await.
unfoldable pub wait_for : ℕ → ℕ → ℕ → ℕ → Runtime ℕ → Option Begun
unfolding cancel_and_wait
wait_for fuel fut cb current r =
    if done r.world fut
    then some (returns (result r.world fut))
    else cancel_and_wait fuel fut cb current r

-- `except CancelledError: raise TimeoutError`
abbrev pub as_timeout : Result (Option ℕ) → Result (Option ℕ)
as_timeout (err (cancelled_error msg)) = err timeout_error
as_timeout (err e) = err e
as_timeout (ok v) = ok v

-- What follows the await in `wait_for`.
abbrev after_wait : Option Exc → ℕ → World ℕ → Result (Option ℕ)
after_wait (some e) fut w = err e
after_wait none fut w = as_timeout (result w fut)

-- The `finally` of `_cancel_and_wait`, and what follows; the await raises if there is an exception.
unfoldable pub wait_over : Option Exc → ℕ → ℕ → World ℕ → Result (Option ℕ) × World ℕ
unfolding remove_done_callback result
wait_over raised fut cb w =
    let (removed, w') = remove_done_callback fut cb w in (after_wait raised fut w', w')

-- `wait_for` with a timeout that has passed, on a future (not a task) that is pending and known: it cancels
-- the future and parks on a waiter of its own, which is pending, while the callback that releases
-- the waiter is scheduled once; once that has run the waiter is done, and the wait ends with
-- TimeoutError.
pub wait_for_expires :
    (fuel fut cb current : ℕ) (r : Runtime ℕ)
    → r.task fut ≡ none
    → (r.world.fut fut).state ≡ pending
    → (r.world.fut fut).callbacks ≡ []
    → fut < r.world.next
    → (r' : Runtime ℕ) × (wait_for (suc fuel) fut cb current r ≡ some (parks r.world.next r'))
      × (done r'.world r.world.next ≡ false)
      × (r'.world.ready
          ≡ r.world.ready
            ++ record { callback = record { fn = cb; context = current }; future = fut } ∷ [])
      × (done (release_waiter r.world.next r'.world) r.world.next ≡ true)
      × ((wait_over none fut cb (release_waiter r.world.next r'.world)).0 ≡ err timeout_error)
unfolding wait_for cancel_and_wait cancel Futures.cancel add_done_callback create_future
    release_waiter set_result wait_over result
wait_for_expires fuel fut cb current r t p c n =
    let (waiter, w) = create_future r.world in
    let r' : Runtime ℕ = record r {
      world = (Futures.cancel fut none (add_done_callback fut cb none current w)).1;
    } in
    (
      r',
      ground (arith, t, p, n),
      ground (arith, t, p, n, c),
      ground (arith, t, p, n, c),
      ground (arith, t, p, n, c),
      ground (arith, t, p, n, c),
    )
