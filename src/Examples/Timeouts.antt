-- ===== src/Examples/Timeouts.antt =====
-- A deadline after the last await: the theorem of `Timeouts.Withdrawal` at a concrete task.
use mt_asyncio.Prelude.{ℕ, ◌≡◌, refl, true, false, none, some, if◌then◌else◌, ◌==◌}
use mt_asyncio.Errors.{ok}
use mt_asyncio.Futures.{is_cancelled}
use mt_asyncio.Timeouts.{Timeout, entered}
use mt_asyncio.Tasks.{Task, Runtime, cancelling, returned, finish}
use mt_asyncio.Timeouts.Withdrawal.{fire, leave_scope, withdrawn_iff}
use mt_asyncio.Examples.{fresh_world}

abbrev open_scope : Timeout
open_scope = record { when = some 10; state = entered; timeout_handler = some 3; task = some 0 }

-- One request of somebody else was delivered before, and not taken back.
abbrev asked_once : Task
asked_once = record { fut_waiter = none; must_cancel = false; num_cancels_requested = 1 }

abbrev one_task : Runtime ℕ
one_task = record { world = fresh_world; task = λ i. if i == 0 then some asked_once else none }

withdrawn_iff_example :
    (t₁ : Timeout) × (r₁ : Runtime ℕ) × (fire 1 0 open_scope one_task ≡ some (t₁, r₁))
    × (let (res, t₂, r₂) = leave_scope 0 false t₁ r₁ in
        (res ≡ ok tt)
        × (cancelling 0 r₂ ≡ 1)
        × ((r₃ : Runtime ℕ) × (finish 0 (returned 7) r₂ ≡ ok r₃)
            × (is_cancelled (r₃.world.fut 0).state ≡ true)))
withdrawn_iff_example =
    withdrawn_iff 0 0 1 open_scope asked_once 7 one_task refl refl refl refl refl refl
