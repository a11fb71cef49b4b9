-- ===== src/Tasks/Delivery.antt =====
-- When a cancellation of mt_asyncio/asyncio/_tasks.py reaches the coroutine, and how the task ends.
use mt_asyncio.Prelude.{
  ℕ, zero, suc, leb, ◌&&◌, ◌+◌, ◌-◌, ◌≡◌, refl, ◌∙◌, Bool, true, false, Option, none, some, arith,
  ◌==◌, if◌then◌else◌, ltb,
}
use mt_asyncio.Errors.{Exc, cancelled_error, ok, err}
use mt_asyncio.Futures.{
  World, Future, instance_of, complete, State, pending, finished, cancelled, done, was_cancelled,
  is_stop_iteration,
}
use mt_asyncio.Futures
use mt_asyncio.Tasks.{
  Task, Runtime, request, with_world, unmark, put_task, cancel, uncancel, must_cancel_of,
  await_begin, await_resume, raised, finish, returned, failed,
}
use mt_asyncio.Tasks.Chain.{waiter_of}

abbrev pub is_cancelled_error : Exc → Bool
is_cancelled_error (cancelled_error msg) = true
is_cancelled_error _ = false

module _ {ℓ} {A : Type ℓ} where
  -- A task that runs (it is not parked) is cancelled: its next `await`, of any future and also of
  -- one that is already resolved, raises CancelledError with the message of the request and clears
  -- the mark; and if it returns a value without another await, the task ends cancelled, with that
  -- message.
  pub cancel_reaches_runner :
      (fuel i j : ℕ) (msg : Option ℕ) (r : Runtime A) (t : Task) (v : A)
      → r.task i ≡ some t
      → t.fut_waiter ≡ none
      → (r.world.fut i).state ≡ pending
      → (r' : Runtime A) × (cancel (suc fuel) i msg r ≡ some (true, r'))
        × ((r'' : Runtime A) × (await_begin i j r' ≡ raised (cancelled_error msg) r'')
            × (must_cancel_of (r''.task i) ≡ false))
        × ((r'' : Runtime A) × (finish i (returned v) r' ≡ ok r'')
            × (Futures.result r''.world i ≡ err (cancelled_error msg)))
  unfolding cancel await_begin finish Futures.cancel Futures.result
  cancel_reaches_runner fuel i j msg r t v k z p =
      let asked : Task = record t {
        must_cancel = true;
        num_cancels_requested = t.num_cancels_requested + 1;
      } in
      let r' = put_task i asked (request i t msg r) in
      let served = put_task i (record asked { must_cancel = false }) r' in
      (
        r',
        ground (arith, k, z, p),
        (served, ground arith, ground arith),
        (
          record served { world = (Futures.cancel i msg r'.world).1 },
          ground (arith, p),
          ground (arith, p),
        ),
      )

  -- A task parked on a pending plain future is cancelled, on a thread outside every `defer_wakes`
  -- region: the future is cancelled, the task is woken, its `await` raises CancelledError with the
  -- message of the request, and the task is no longer parked.
  pub cancel_reaches_parked :
      (fuel i j : ℕ) (msg : Option ℕ) (r : Runtime A) (t : Task)
      → r.task i ≡ some t
      → r.task j ≡ none
      → t.fut_waiter ≡ some j
      → (r.world.fut i).state ≡ pending
      → (r.world.fut j).state ≡ pending
      → r.world.tls.pending_wakes ≡ none
      → (r' : Runtime A) × (cancel (suc (suc fuel)) i msg r ≡ some (true, r'))
        × (was_cancelled r'.world j ≡ true)
        × ((await_resume i j r').0 ≡ err (cancelled_error msg))
        × (waiter_of ((await_resume i j r').1.task i) ≡ none)
        × (must_cancel_of ((await_resume i j r').1.task i) ≡ t.must_cancel)
  unfolding cancel await_resume Futures.cancel Futures.result
  cancel_reaches_parked fuel i j msg r t k n z p q w =
      let asked = request i t msg r in
      (
        record asked { world = (Futures.cancel j msg asked.world).1 },
        ground (arith, k, n, z, p, q),
        ground (arith, k, n, z, p, q),
        ground (arith, k, n, z, p, q, w),
        ground (arith, k, n, z, p, q, w),
        ground (arith, k, n, z, p, q, w),
      )

  finish-failed :
      (i : ℕ) (r : Runtime A) (e : Exc)
      → is_cancelled_error e ≡ false
      → finish i (failed e) r ≡ with_world r (Futures.set_exception i (instance_of e) r.world)
  unfolding finish
  finish-failed i r (cancelled_error msg) c = cc
  finish-failed i r e c = refl

  -- However the coroutine ends, the pending task is settled accordingly: by its value if no
  -- cancellation is outstanding, cancelled (with the message) by CancelledError, and by any other
  -- exception (StopIteration, which no coroutine raises, set apart).
  pub finish_outcome :
      (i : ℕ) (r : Runtime A) (v : A) (msg : Option ℕ) (e : Exc)
      → (r.world.fut i).state ≡ pending
      → (r.world.fut i).exception ≡ none
      → must_cancel_of (r.task i) ≡ false
      → is_cancelled_error e ≡ false
      → is_stop_iteration e ≡ false
      → ((r' : Runtime A) × (finish i (returned v) r ≡ ok r')
          × (Futures.result r'.world i ≡ ok (some v)))
        × ((r' : Runtime A) × (finish i (failed (cancelled_error msg)) r ≡ ok r')
            × (Futures.result r'.world i ≡ err (cancelled_error msg)))
        × ((r' : Runtime A) × (finish i (failed e) r ≡ ok r') × (Futures.result r'.world i ≡ err e))
  unfolding finish Futures.cancel Futures.set_result Futures.set_exception Futures.result
  finish_outcome i r v msg e p x m c s = (
    (
      record (unmark (r.task i) i r) {
        world = complete r.world i (record (r.world.fut i) { result = some v; state = finished });
      },
      ground (arith, p, m),
      ground (arith, x),
    ),
    (record r { world = (Futures.cancel i msg r.world).1 }, refl, ground (arith, p)),
    (
      record r {
        world =
            complete r.world i (record (r.world.fut i) { exception = some e; state = finished });
      },
      finish-failed i r e c ∙ ground (arith, p, s),
      ground arith,
    ),
  )

  -- `m` calls of `uncancel`.
  abbrev pub uncancel_times : ℕ → ℕ → Runtime A → Runtime A
  uncancel_times zero i r = r
  uncancel_times (suc m) i r = uncancel_times m i (uncancel i r).1

  uncancel_step :
      (i : ℕ) (r : Runtime A) (t : Task)
      → r.task i ≡ some t
      → (uncancel i r).1.task i
        ≡ some (record t {
          num_cancels_requested = t.num_cancels_requested - 1;
          must_cancel = if t.num_cancels_requested == 1 then false else t.must_cancel;
        })
  unfolding uncancel
  uncancel_step i r t k = ground (arith, k)

  -- `uncancel` counts requests down to 0 and no further, and the call that takes the last request
  -- back withdraws a cancellation that was not delivered; a call before it leaves the mark.
  pub uncancel_counts :
      (m i : ℕ) (r : Runtime A) (t : Task)
      → r.task i ≡ some t
      → (uncancel_times m i r).task i
        ≡ some (record t {
          num_cancels_requested = t.num_cancels_requested - m;
          must_cancel =
              if ltb 0 t.num_cancels_requested && leb t.num_cancels_requested m
              then false
              else t.must_cancel;
        })
  uncancel_counts zero i r t k = ground (arith, k)
  uncancel_counts (suc m) i r t k =
      let t' : Task = record t {
        num_cancels_requested = t.num_cancels_requested - 1;
        must_cancel = if t.num_cancels_requested == 1 then false else t.must_cancel;
      } in
      ground (arith, uncancel_counts m i (uncancel i r).1 t' (uncancel_step i r t k))
