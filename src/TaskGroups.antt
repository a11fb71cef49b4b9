-- ===== src/TaskGroups.antt =====
-- mt_asyncio/asyncio/_tg.py: `TaskGroup`. Children complete on any worker, each running the
-- sections of `_on_task_done`, while the parent runs those of `_aexit`.
pub mod System
pub mod Children
pub mod Verdict
pub mod Leaving
use mt_asyncio.Prelude.{
  ℕ, ◌+◌, Bool, true, false, not, ◌&&◌, ◌||◌, Option, none, some, List, [], ◌∷◌, ◌++◌, ◌-◌, ltb,
  ◌==◌, if◌then◌else◌, remove,
}
use mt_asyncio.Errors.{
  Exc, cancelled_error, system_exit, keyboard_interrupt, runtime_error, Result, ok, err,
}
use mt_asyncio.Futures.{World, create_future, done, set_result}
use mt_asyncio.Sync.Semaphore.{is_empty}

pub record Group : Type 0 where
  pub has_entered : Bool
  pub exiting : Bool
  pub aborting : Bool
  pub parent_task : Option ℕ
  pub parent_cancel_requested : Bool
  pub tasks : List ℕ
  pub errors : List Exc
  pub base_error : Option Exc
  pub on_completed_fut : Option ℕ

-- `TaskGroup()`
abbrev pub new : Group
new = record {
  has_entered = false;
  exiting = false;
  aborting = false;
  parent_task = none;
  parent_cancel_requested = false;
  tasks = [];
  errors = [];
  base_error = none;
  on_completed_fut = none;
}

abbrev pub is_base_error : Exc → Bool
is_base_error system_exit = true
is_base_error keyboard_interrupt = true
is_base_error _ = false

abbrev pub is_cancel : Exc → Bool
is_cancel (cancelled_error msg) = true
is_cancel _ = false

abbrev pub is_none {ℓ} : {A : Type ℓ} → Option A → Bool
is_none none = true
is_none (some a) = false

abbrev enter_by : Option ℕ → Group → Result Group
enter_by none g = err runtime_error
enter_by (some p) g = ok (record g { has_entered = true; parent_task = some p })

-- `__aenter__`, of the current task.
unfoldable pub enter : Option ℕ → Group → Result Group
enter current g = if g.has_entered then err runtime_error else enter_by current g

-- `create_task`, of the new child `t`.
unfoldable pub create_task : ℕ → Group → Result Group
create_task t g =
    if not g.has_entered
    then err runtime_error
    else if g.exiting && is_empty g.tasks
    then err runtime_error
    else if g.aborting
    then err runtime_error
    else ok (record g { tasks = t ∷ g.tasks })

-- `_abort`: the children to cancel, and the group.
unfoldable pub abort : Group → List ℕ × Group
abort g = (g.tasks, record g { aborting = true })

abbrev pub first_base : Option Exc → Exc → Option Exc
first_base (some b) e = some b
first_base none e = if is_base_error e then some e else none

-- What `_on_task_done` does after its first critical section.
pub record Next : Type 0 where
  pub parent_done : Bool
  pub do_cancel : Bool

abbrev pub record_error : Option Exc → Bool → Group → Next × Group
record_error none over g = (record { parent_done = false; do_cancel = false }, g)
record_error (some e) over g =
    let parent_done = is_none g.parent_task || over in
    let do_cancel = not g.aborting && (not g.parent_cancel_requested && not parent_done) in
    (
      record { parent_done = parent_done; do_cancel = do_cancel },
      record g {
        errors = g.errors ++ e ∷ [];
        base_error = first_base g.base_error e;
        parent_cancel_requested = do_cancel || g.parent_cancel_requested;
      },
    )

-- The first critical section of `_on_task_done`: `exc` is what the child raised, none if it was
-- cancelled, and `over` is `parent_task.done()`.
unfoldable pub child_done : ℕ → Option Exc → Bool → Group → Next × Group
child_done t exc over g = record_error exc over (record g { tasks = remove t g.tasks })

abbrev pub complete_waiter : Option ℕ → World Bool → Result (World Bool)
complete_waiter none w = ok w
complete_waiter (some f) w = if done w f then ok w else set_result f true w

-- The last part of `_on_task_done`: wake the parent, if it waits and no child is left.
unfoldable pub wake_parent : World Bool → Group → Result (World Bool)
wake_parent w g = if is_empty g.tasks then complete_waiter g.on_completed_fut w else ok w

-- One round of the loop of `_aexit`: it is over, or there is a future to await.
pub data Waiting : Type 0 where
  no_children : Waiting
  awaiting : ℕ → World Bool → Group → Waiting

abbrev pub wait_on : Option ℕ → World Bool → Group → Waiting
wait_on none w g =
    let (f, w') = create_future w in awaiting f w' (record g { on_completed_fut = some f })
wait_on (some f) w g = awaiting f w g

unfoldable pub wait_children : World Bool → Group → Waiting
unfolding create_future
wait_children w g = if is_empty g.tasks then no_children else wait_on g.on_completed_fut w g

-- `_aexit` after its await: `interrupted` if the await raised CancelledError.
unfoldable pub woken : Bool → Group → Group
woken interrupted g = record g { on_completed_fut = none; aborting = interrupted || g.aborting }

abbrev pub base_of : Option Exc → Group → Option Exc
base_of none g = g.base_error
base_of (some e) g = first_base g.base_error e

-- `_aexit` before its loop, where the body ended by `exc`.
unfoldable pub begin_exit : Option Exc → Group → Group
begin_exit exc g = record g {
  exiting = true;
  base_error = base_of exc g;
  aborting = not (is_none exc) || g.aborting;
}

-- `raises_group true` cancels the parent once more before it raises.
pub data Exit : Type 0 where
  returns : Exit
  raises : Exc → Exit
  raises_group : Bool → List Exc → Exit

abbrev pub with_body : Option Exc → List Exc → List Exc
with_body none l = l
with_body (some e) l = if is_cancel e then l else l ++ e ∷ []

-- `outstanding` is what `cancelling()` of the parent returns.
abbrev pub raise_errors : ℕ → List Exc → Exit
raise_errors outstanding [] = returns
raise_errors outstanding (e ∷ l) = raises_group (ltb 0 outstanding) (e ∷ l)

abbrev pub settle_exit : ℕ → Option Exc → Option Exc → Group → Exit
settle_exit outstanding none exc g = raise_errors outstanding (with_body exc g.errors)
settle_exit outstanding (some p) exc g =
    if is_empty g.errors then raises p else raise_errors outstanding (with_body exc g.errors)

-- The requests left on the parent after the group has taken its own one back.
abbrev pub left_over : ℕ → Group → ℕ
left_over requests g = if g.parent_cancel_requested then requests - 1 else requests

abbrev pub exit_unless_base : Option Exc → ℕ → Option Exc → Option Exc → Group → Exit
exit_unless_base (some b) requests propagate exc g = raises b
exit_unless_base none requests propagate exc g =
    let left = left_over requests g in
    settle_exit left (if g.parent_cancel_requested && (left == 0) then none else propagate) exc g

-- `_aexit` after its loop: `requests` counts the cancellations outstanding on the parent,
-- `propagate` is the one to pass on, `exc` how the body ended.
unfoldable pub exit_verdict : ℕ → Option Exc → Option Exc → Group → Exit
exit_verdict requests propagate exc g = exit_unless_base g.base_error requests propagate exc g
