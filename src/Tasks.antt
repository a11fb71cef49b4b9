-- ===== src/Tasks.antt =====
-- mt_asyncio/asyncio/_tasks.py: `Task` and its cooperative cancellation, with the suspension points
-- of `Future.__await__` in mt_asyncio/asyncio/_futures.py. A task is a future: the number of a task
-- is that of its future, and `Runtime.task` holds the fields that `Task` adds.
pub mod Chain
pub mod Delivery
pub mod Lifetime
use mt_asyncio.Prelude.{
  ℕ, zero, suc, ◌+◌, ◌-◌, Bool, true, false, Option, none, some, ltb, ◌==◌, if◌then◌else◌, update,
}
use mt_asyncio.Errors.{Exc, cancelled_error, runtime_error, Result, ok, err, ◌>>=◌}
use mt_asyncio.Futures.{World, Future, Raisable, instance_of, done, set_result, set_exception}
use mt_asyncio.Futures

pub record Task : Type 0 where
  pub fut_waiter : Option ℕ
  pub must_cancel : Bool
  pub num_cancels_requested : ℕ

pub record Runtime {ℓ} (A : Type ℓ) : Type ℓ where
  pub world : World A
  pub task : ℕ → Option Task

-- The fields that `Task.__init__` sets.
abbrev pub new_task : Task
new_task = record { fut_waiter = none; must_cancel = false; num_cancels_requested = 0 }

abbrev pub must_cancel_of : Option Task → Bool
must_cancel_of none = false
must_cancel_of (some t) = t.must_cancel

abbrev pub requested_of : Option Task → ℕ
requested_of none = 0
requested_of (some t) = t.num_cancels_requested

-- What `await fut` does before it reads the future: raise, suspend the task, or go on.
pub data Awaiting {ℓ} (A : Type ℓ) : Type ℓ where
  raised : Exc → Runtime A → Awaiting A
  suspended : Runtime A → Awaiting A
  resolved : Runtime A → Awaiting A

-- How the coroutine of a task ended.
pub data Ended {ℓ} (A : Type ℓ) : Type ℓ where
  returned : A → Ended A
  failed : Exc → Ended A

module _ {ℓ} {A : Type ℓ} where
  abbrev pub put_task : ℕ → Task → Runtime A → Runtime A
  put_task i t r = record r { task = update r.task i (some t) }

  -- `self._num_cancels_requested += 1` and `self._cancel_message = msg`.
  abbrev pub request : ℕ → Task → Option ℕ → Runtime A → Runtime A
  request i t msg r = record {
    world = record (r.world) {
      fut = update r.world.fut i (record (r.world.fut i) { cancel_message = msg });
    };
    task =
        update r.task i (some (record t { num_cancels_requested = t.num_cancels_requested + 1 }));
  }

  abbrev mark : Option Task → ℕ → Runtime A → Runtime A
  mark none i r = r
  mark (some t) i r = put_task i (record t { must_cancel = true }) r

  -- `with self._lock: self._must_cancel = True`
  unfoldable pub set_must_cancel : ℕ → Runtime A → Runtime A
  set_must_cancel i r = mark (r.task i) i r

  abbrev plain_cancel : Runtime A → Bool × World A → Bool × Runtime A
  plain_cancel r (b, w) = (b, record r { world = w })

  abbrev after_waiter : ℕ → Option (Bool × Runtime A) → Option (Bool × Runtime A)
  after_waiter i none = none
  after_waiter i (some (true, r)) = some (true, r)
  after_waiter i (some (false, r)) = some (true, set_must_cancel i r)

  abbrev cancel_task :
      (ℕ → Option ℕ → Runtime A → Option (Bool × Runtime A))
      → ℕ
      → Option Task
      → Option ℕ
      → Runtime A
      → Option (Bool × Runtime A)
  cancel_task recur i none msg r = some (plain_cancel r (Futures.cancel i msg r.world))
  cancel_task recur i (some t) msg r =
      let parked : Option (Bool × Runtime A) = elim t.fut_waiter [
        | none ↦ some (true, set_must_cancel i (request i t msg r))
        | some j ↦ after_waiter i (recur j msg (request i t msg r))
      ] in
      if done r.world i then some (false, r) else parked

  -- `fut.cancel(msg)`, of a task or of a plain future. A task that is parked passes the call on to
  -- what it waits for, which may be a task; the fuel bounds the length of that chain.
  unfoldable pub cancel : ℕ → ℕ → Option ℕ → Runtime A → Option (Bool × Runtime A)
  unfolding set_must_cancel
  cancel zero i msg r = none
  cancel (suc fuel) i msg r = cancel_task (cancel fuel) i (r.task i) msg r

  abbrev lower : Option Task → ℕ → Runtime A → ℕ × Runtime A
  lower none i r = (0, r)
  lower (some t) i r =
      let n = t.num_cancels_requested in
      if ltb 0 n
      then (
        n - 1,
        put_task i
            (record t {
              num_cancels_requested = n - 1;
              must_cancel = if (n - 1) == 0 then false else t.must_cancel;
            })
            r,
      )
      else (n, r)

  unfoldable pub uncancel : ℕ → Runtime A → ℕ × Runtime A
  uncancel i r = lower (r.task i) i r

  unfoldable pub cancelling : ℕ → Runtime A → ℕ
  cancelling i r = requested_of (r.task i)

  abbrev begin : ℕ → ℕ → Option Task → Runtime A → Awaiting A
  begin i j none r = if (r.world.fut j).event then resolved r else suspended r
  begin i j (some t) r =
      if t.must_cancel
      then raised (cancelled_error (r.world.fut i).cancel_message)
          (put_task i (record t { must_cancel = false }) r)
      else if (r.world.fut j).event
      then resolved r
      else suspended (put_task i (record t { fut_waiter = some j }) r)

  -- `Future.__await__` of future `j` by the task `i`, up to its `yield`.
  unfoldable pub await_begin : ℕ → ℕ → Runtime A → Awaiting A
  await_begin i j r = begin i j (r.task i) r

  abbrev unpark : Option Task → ℕ → Runtime A → Runtime A
  unpark none i r = r
  unpark (some t) i r = put_task i (record t { fut_waiter = none }) r

  -- `Future.__await__` from its `yield` on: the waiter is cleared, and the future is read.
  unfoldable pub await_resume : ℕ → ℕ → Runtime A → Result (Option A) × Runtime A
  await_resume i j r = (
    if (r.world.fut j).event then Futures.result r.world j else err runtime_error,
    unpark (r.task i) i r,
  )

  abbrev pub unmark : Option Task → ℕ → Runtime A → Runtime A
  unmark none i r = r
  unmark (some t) i r = put_task i (record t { must_cancel = false }) r

  abbrev pub with_world : Runtime A → Result (World A) → Result (Runtime A)
  with_world r (ok w) = ok (record r { world = w })
  with_world r (err e) = err e

  -- The end of `_runner`.
  unfoldable pub finish : ℕ → Ended A → Runtime A → Result (Runtime A)
  finish i (failed (cancelled_error msg)) r =
      ok (record r { world = (Futures.cancel i msg r.world).1 })
  finish i (failed e) r = with_world r (set_exception i (instance_of e) r.world)
  finish i (returned v) r =
      let cleared = unmark (r.task i) i r in
      if must_cancel_of (r.task i)
      then ok
          (record cleared { world = (Futures.cancel i (r.world.fut i).cancel_message r.world).1 })
      else with_world cleared (set_result i v r.world)
