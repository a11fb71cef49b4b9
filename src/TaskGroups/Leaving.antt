-- ===== src/TaskGroups/Leaving.antt =====
-- The parent of a `TaskGroup` of mt_asyncio/asyncio/_tg.py leaving the scope, while a child that failed
-- may be between its critical section and its `parent_task.cancel()`.
pub mod Contained
use mt_asyncio.Prelude.{
  ℕ, ◌+◌, ◌-◌, ◌≡◌, ◌⊎◌, inl, inr, refl, Bool, true, false, not, ◌&&◌, ◌||◌, Option, none, some,
  List, [], ◌∷◌, ◌++◌, arith, ◌==◌, if◌then◌else◌, contains,
}
use mt_asyncio.Errors.{Exc, Result, ok, err, cancelled_error}
use mt_asyncio.Sync.Semaphore.{is_empty}
use mt_asyncio.TaskGroups.Children.{IsFresh}
use mt_asyncio.TaskGroups.Verdict.{verdict_returns_iff}
use mt_asyncio.TaskGroups.{
  Group, create_task, abort, Next, child_done, woken, begin_exit, is_cancel, is_none, Exit, returns,
  raises_group, exit_verdict, left_over,
}

-- `asking` says that a child has found that it has to cancel the parent, and has not done it yet.
-- `requests` is `_num_cancels_requested` of the parent, `others` counts the requests that are not
-- the group's. `body` is how the body ended, `propagate` the cancellation to pass on, `outcome` how
-- `_aexit` ended; `overtaken` says that it ended while a child was asking and no request was
-- outstanding.
pub record System : Type 0 where
  pub group : Group
  pub asking : Bool
  pub requests : ℕ
  pub others : ℕ
  pub body : Option Exc
  pub propagate : Option Exc
  pub outcome : Option Exit
  pub overtaken : Bool

-- `finishes` is the first critical section of `_on_task_done`, `asks` what follows it, `wakes` the
-- end of the wait of `_aexit`, by CancelledError or not, `cancels` a request of somebody else.
pub data Event : Type 0 where
  creates : ℕ → Event
  finishes : ℕ → Option Exc → Bool → Event
  asks cancels leaves : Event
  exits : Option Exc → Event
  wakes : Option (Option ℕ) → Event

abbrev pub settle_created : System → Result Group → System
settle_created s (ok g) = record s { group = g }
settle_created s (err e) = s

abbrev pub after_finish : System → Next × Group → System
after_finish s (n, g) = record s { group = g; asking = n.do_cancel || s.asking }

-- `exc if issubclass(et, CancelledError) else None`
abbrev pub cancellation_of : Option Exc → Option Exc
cancellation_of none = none
cancellation_of (some e) = if is_cancel e then some e else none

abbrev pub interrupted : System → Option (Option ℕ) → System
interrupted s none = record s { group = woken false s.group }
interrupted s (some msg) = record s {
  group = woken true s.group;
  propagate = if s.group.aborting then s.propagate else some (cancelled_error msg);
}

-- `_aexit` after its loop, with the requests that it leaves: where a base error is raised the
-- group's own is not taken back.
unfoldable pub leave_scope : System → System
unfolding exit_verdict
leave_scope s = record s {
  outcome = some (exit_verdict s.requests s.propagate s.body s.group);
  requests = if is_none s.group.base_error then left_over s.requests s.group else s.requests;
  overtaken = s.asking && (s.requests == 0);
}

unfoldable pub step : System → Event → System
unfolding create_task child_done abort begin_exit woken leave_scope
step s (creates t) = settle_created s (create_task t s.group)
step s (finishes t exc over) =
    if contains t s.group.tasks then after_finish s (child_done t exc over s.group) else s
step s asks =
    if s.asking
    then record s { group = (abort s.group).1; asking = false; requests = s.requests + 1 }
    else s
step s cancels = record s { requests = s.requests + 1; others = s.others + 1 }
step s (exits exc) =
    if s.group.exiting
    then s
    else record s { group = begin_exit exc s.group; body = exc; propagate = cancellation_of exc }
step s (wakes how) = if s.group.exiting && is_none s.outcome then interrupted s how else s
step s leaves =
    if s.group.exiting && is_empty s.group.tasks && is_none s.outcome then leave_scope s else s

unfoldable pub run : System → List Event → System
run s [] = s
run s (e ∷ es) = run (step s e) es

-- The body begins: `n` requests are outstanding on the parent.
abbrev pub begun : Group → ℕ → System
begun g n = record {
  group = g;
  asking = false;
  requests = n;
  others = 0;
  body = none;
  propagate = none;
  outcome = none;
  overtaken = false;
}
