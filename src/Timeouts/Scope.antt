-- ===== src/Timeouts/Scope.antt =====
-- The race of the deadline and the exit of a `Timeout` of mt_asyncio/asyncio/_timeouts.py: the
-- cancellation that the deadline requests never outlives the scope.
use mt_asyncio.Prelude.{
  ℕ, ◌+◌, ◌-◌, ◌≡◌, ◌↔◌, ◌⊎◌, Bool, true, false, ◌||◌, Option, List, [], ◌∷◌, arith, if◌then◌else◌,
}
use mt_asyncio.Errors.{Result, ok, err, timeout_error}
use mt_asyncio.Timeouts.{
  Timeout, entered, expired, exited, is_entered, is_expiring, Rescheduled, reschedule, exit_locked,
  exit_result, on_timeout,
}

-- `requests` is `_num_cancels_requested` of the task, `others` counts the requests that do not come
-- from the scope. `leaving` says that the task has left the critical section of `__aexit__` with
-- the deadline the winner, and has not called `uncancel` yet.
pub record System : Type 0 where
  pub timeout : Timeout
  pub requests : ℕ
  pub others : ℕ
  pub leaving : Bool

pub data Event : Type 0 where
  fires exits uncancels cancels : Event
  reschedules : Option ℕ → ℕ → ℕ → Event

abbrev settle_rescheduled : System → Result Rescheduled → System
settle_rescheduled s (ok r) = record s { timeout = r.timeout }
settle_rescheduled s (err e) = s

-- `exits` happens in the open scope only. `Task.cancel` of a running task and `uncancel` move the
-- count of its requests by one.
unfoldable pub step : System → Event → System
unfolding reschedule exit_locked on_timeout
step s fires =
    let (asks, t) = on_timeout s.timeout in
    record s { timeout = t; requests = if asks then s.requests + 1 else s.requests }
step s exits =
    let (won, handle, t) = exit_locked s.timeout in
    if is_entered s.timeout.state || is_expiring s.timeout.state
    then record s { timeout = t; leaving = won }
    else s
step s uncancels = if s.leaving then record s { requests = s.requests - 1; leaving = false } else s
step s cancels = record s { requests = s.requests + 1; others = s.others + 1 }
step s (reschedules when now handle) = settle_rescheduled s (reschedule when now handle s.timeout)

unfoldable pub run : System → List Event → System
run s [] = s
run s (e ∷ es) = run (step s e) es

-- The body begins: `n` requests are outstanding on the task.
abbrev pub begun : Timeout → ℕ → System
begun t n = record { timeout = t; requests = n; others = 0; leaving = false }

record Inv (n : ℕ) (s : System) : Type 0 where
  counted : s.requests ≡ n + s.others + (if is_expiring s.timeout.state || s.leaving then 1 else 0)
  left : (s.leaving ≡ false) ⊎ (s.timeout.state ≡ expired)

step-Inv : {n : ℕ} (s : System) (e : Event) → Inv n s → Inv n (step s e)
unfolding step
step-Inv s fires inv = ground arith
step-Inv s exits inv = ground arith
step-Inv s e inv = ground arith

run-Inv : {n : ℕ} (es : List Event) (s : System) → Inv n s → Inv n (run s es)
unfolding run
run-Inv [] s inv = inv
run-Inv (e ∷ es) s inv = run-Inv es (step s e) (step-Inv s e inv)

-- Whatever the order in which the deadline fires (once, twice, late, after the exit), the task
-- exits, reschedules and is cancelled by others: when the scope has been left and `__aexit__` is
-- through, the requests outstanding on the task are those at the entry and those of others. The
-- scope's own request never escapes, and no other is taken back.
pub timeout_contained :
    (t : Timeout) (n : ℕ) (es : List Event)
    → t.state ≡ entered
    → let s = run (begun t n) es in
      (s.timeout.state ≡ expired) ⊎ (s.timeout.state ≡ exited)
      → s.leaving ≡ false
      → s.requests ≡ n + s.others
timeout_contained t n es e out done = ground (arith, run-Inv {n = n} es (begun t n) (ground arith))

-- In any such history that has come to the `uncancel` of `__aexit__`, TimeoutError is raised
-- exactly if the body ended by CancelledError and no request but the scope's own is outstanding.
pub timeout_raises_iff :
    (t : Timeout) (n : ℕ) (es : List Event) (by_cancel : Bool)
    → t.state ≡ entered
    → let s = run (begun t n) es in
      s.leaving ≡ true
      → (exit_result (step s uncancels).requests by_cancel ≡ err timeout_error)
        ↔ ((n + s.others ≡ 0) × (by_cancel ≡ true))
unfolding step exit_result
timeout_raises_iff t n es by_cancel e l =
    let inv = run-Inv {n = n} es (begun t n) (ground arith) in
    (λ h. ground (arith, inv.counted, h), λ h. ground (arith, inv.counted, h))

-- After the exit a deadline that fires late asks for nothing: the task's requests and the state
-- stay.
pub late_deadline :
    (t : Timeout)
    → is_entered t.state ≡ false
    → ((on_timeout t).0 ≡ false) × ((on_timeout t).1.state ≡ t.state)
unfolding on_timeout
late_deadline t h = ground arith
