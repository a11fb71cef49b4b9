-- ===== src/Examples/Tasks.antt =====
-- Tasks: the theorems of `Tasks` at concrete tasks.
use mt_asyncio.Prelude.{ℕ, zero, suc, ◌≡◌, refl, true, false, Option, none, some, arith}
use mt_asyncio.Errors.{cancelled_error, ok, err}
use mt_asyncio.Futures.{World, was_cancelled, set_exception, set_result}
use mt_asyncio.Futures
use mt_asyncio.Tasks.{
  Task, Runtime, new_task, cancel, await_begin, raised, finish, returned, must_cancel_of,
}
use mt_asyncio.Tasks.Chain.{IsRanked, Cancelled, cancel_lands}
use mt_asyncio.Tasks.Delivery.{cancel_reaches_runner}
use mt_asyncio.Examples.{fresh_world}

abbrev waits_for : ℕ → Task
waits_for j = record { fut_waiter = some j; must_cancel = false; num_cancels_requested = 0 }

-- Task 0 waits for task 1, which waits for the plain future 2.
abbrev chained : ℕ → Option Task
chained zero = some (waits_for 1)
chained (suc zero) = some (waits_for 2)
chained _ = none

abbrev two_tasks : Runtime ℕ
two_tasks = record { world = fresh_world; task = chained }

abbrev rank : ℕ → ℕ
rank zero = 2
rank (suc zero) = 1
rank _ = 0

two_tasks-IsRanked : IsRanked rank two_tasks
two_tasks-IsRanked zero j e = ground arith
two_tasks-IsRanked (suc zero) j e = ground arith
two_tasks-IsRanked (suc (suc i)) j e = ground arith

cancel_lands_example : Cancelled 3 0 (some 8) two_tasks
cancel_lands_example = cancel_lands 3 rank 0 (some 8) two_tasks two_tasks-IsRanked (omega arith)

abbrev alone : ℕ → Option Task
alone zero = some new_task
alone _ = none

abbrev running : Runtime ℕ
running = record { world = fresh_world; task = alone }

cancel_reaches_runner_example :
    (r' : Runtime ℕ) × (cancel 1 0 (some 8) running ≡ some (true, r'))
    × ((r'' : Runtime ℕ) × (await_begin 0 2 r' ≡ raised (cancelled_error (some 8)) r'')
        × (must_cancel_of (r''.task 0) ≡ false))
    × ((r'' : Runtime ℕ) × (finish 0 (returned 5) r' ≡ ok r'')
        × (Futures.result r''.world 0 ≡ err (cancelled_error (some 8))))
cancel_reaches_runner_example =
    cancel_reaches_runner 0 0 2 (some 8) running new_task 5 refl refl refl

abbrev cancelled_twice : Task
cancelled_twice = record { fut_waiter = none; must_cancel = true; num_cancels_requested = 2 }

abbrev requested : ℕ → Option Task
requested zero = some cancelled_twice
requested _ = none

abbrev marked : Runtime ℕ
marked = record { world = fresh_world; task = requested }
