-- ===== src/Timeouts.antt =====
-- mt_asyncio/asyncio/_timeouts.py: the `Timeout` scope. A deadline callback runs on any worker, at
-- any time while the scope is open or after it was left, whether or not its handle was cancelled.
pub mod Scope
pub mod Withdrawal
use mt_asyncio.Prelude.{
  ℕ, ◌+◌, ◌-◌, Bool, true, false, ◌&&◌, Option, none, some, List, [], ◌∷◌, leb, ◌==◌, if◌then◌else◌,
}
use mt_asyncio.Errors.{Result, ok, err, runtime_error, timeout_error, ◌>>=◌}

pub data State : Type 0 where
  created entered expiring expired exited : State

-- The handle of a deadline callback and the task are numbers.
pub record Timeout : Type 0 where
  pub when : Option ℕ
  pub state : State
  pub timeout_handler : Option ℕ
  pub task : Option ℕ

-- `Timeout(when)`
abbrev pub new : Option ℕ → Timeout
new when = record { when = when; state = created; timeout_handler = none; task = none }

abbrev pub is_created : State → Bool
is_created created = true
is_created _ = false

abbrev pub is_entered : State → Bool
is_entered entered = true
is_entered _ = false

abbrev pub is_expiring : State → Bool
is_expiring expiring = true
is_expiring _ = false

abbrev pub has_expired : State → Bool
has_expired expiring = true
has_expired expired = true
has_expired _ = false

-- `Timeout.expired`
unfoldable pub was_expired : Timeout → Bool
was_expired t = has_expired t.state

-- How the deadline callback is scheduled: `call_soon`, or `call_at` a time.
pub data Schedule : Type 0 where
  soon : Schedule
  at_time : ℕ → Schedule

abbrev pub schedule : Option ℕ → ℕ → Option Schedule
schedule none now = none
schedule (some when) now = some (if leb when now then soon else at_time when)

-- The handle is kept only if a callback was scheduled.
abbrev pub kept_handle : Option ℕ → ℕ → Option ℕ
kept_handle none handle = none
kept_handle (some when) handle = some handle

-- What `reschedule` leaves: the handle that it cancels, the new callback, the scope.
pub record Rescheduled : Type 0 where
  pub old : Option ℕ
  pub scheduled : Option Schedule
  pub timeout : Timeout

-- `handle` is what the loop returns for the new callback, `now` is `loop.time()`.
unfoldable pub reschedule : Option ℕ → ℕ → ℕ → Timeout → Result Rescheduled
reschedule when now handle t =
    if is_entered t.state
    then ok (record {
      old = t.timeout_handler;
      scheduled = schedule when now;
      timeout = record t { when = when; timeout_handler = kept_handle when handle };
    })
    else err runtime_error

abbrev pub arm : Option ℕ → ℕ → ℕ → Timeout → Result Rescheduled
arm none now handle t = ok (record { old = none; scheduled = none; timeout = t })
arm (some when) now handle t = reschedule (some when) now handle t

abbrev pub enter_task : Option ℕ → ℕ → ℕ → Timeout → Result Rescheduled
enter_task none now handle t = err runtime_error
enter_task (some task) now handle t =
    arm t.when now handle (record t { state = entered; task = some task })

-- `__aenter__`, of the current task.
unfoldable pub enter : Option ℕ → ℕ → ℕ → Timeout → Result Rescheduled
unfolding reschedule
enter task now handle t =
    if is_created t.state then enter_task task now handle t else err runtime_error

-- The critical section of `__aexit__`: whether the deadline has won, and the handle to cancel.
unfoldable pub exit_locked : Timeout → Bool × Option ℕ × Timeout
exit_locked t = (
  is_expiring t.state,
  t.timeout_handler,
  record t {
    state = if is_expiring t.state then expired else if is_entered t.state then exited else t.state;
    timeout_handler = none;
  },
)

-- The end of `__aexit__` where the deadline has won: `left` is what `uncancel()` returned, and
-- `by_cancel` says that the body ended by CancelledError.
unfoldable pub exit_result : ℕ → Bool → Result (Unit {0})
exit_result left by_cancel = if (left == 0) && by_cancel then err timeout_error else ok tt

-- `_on_timeout`, and whether it calls `self._task.cancel()`.
unfoldable pub on_timeout : Timeout → Bool × Timeout
on_timeout t =
    if is_entered t.state
    then (true, record t { state = expiring; timeout_handler = none })
    else (false, record t { timeout_handler = none })
