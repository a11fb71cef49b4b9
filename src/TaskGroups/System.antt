-- ===== src/TaskGroups/System.antt =====
-- A `TaskGroup` of mt_asyncio/asyncio/_tg.py with any number of children, and its parent leaving
-- the scope.
use mt_asyncio.Prelude.{
  ℕ, ◌+◌, Bool, true, false, not, ◌&&◌, Option, none, some, List, [], ◌∷◌, ◌++◌, if◌then◌else◌,
  contains, remove,
}
use mt_asyncio.Errors.{Exc, Result, ok, err}
use mt_asyncio.Futures.{World, cancel, done}
use mt_asyncio.TaskGroups.{
  Group, create_task, abort, Next, child_done, wake_parent, Waiting, no_children, awaiting,
  wait_children, woken, begin_exit,
}

-- `closing` lists the children between the first and the last part of `_on_task_done`, `raised`
-- what the children raised, `parked` is the future that the parent awaits in `_aexit`, `left` says
-- that its loop is over, and `requests` counts the `parent_task.cancel()` calls of the group.
pub record System : Type 0 where
  pub world : World Bool
  pub group : Group
  pub closing : List ℕ
  pub raised : List Exc
  pub parked : Option ℕ
  pub left : Bool
  pub requests : ℕ

pub data Event : Type 0 where
  creates : ℕ → Event
  finishes : ℕ → Option Exc → Bool → Event
  closes : ℕ → Event
  exits : Option Exc → Event
  waits resumes interrupts : Event
  cancels : ℕ → Option ℕ → Event

abbrev settle_created : System → Result Group → System
settle_created s (ok g) = record s { group = g }
settle_created s (err e) = s

abbrev listed : Option Exc → List Exc
listed none = []
listed (some e) = e ∷ []

-- A child that asks for it has the group aborted and the parent cancelled.
abbrev settle_finished : System → ℕ → Option Exc → Next × Group → System
settle_finished s t exc (n, g) = record s {
  group = if n.do_cancel then (abort g).1 else g;
  closing = t ∷ s.closing;
  raised = s.raised ++ listed exc;
  requests = if n.do_cancel then s.requests + 1 else s.requests;
}

abbrev settle_closed : System → ℕ → Result (World Bool) → System
settle_closed s t (ok w) = record s { world = w; closing = remove t s.closing }
settle_closed s t (err e) = s

abbrev settle_waiting : System → Waiting → System
settle_waiting s no_children = record s { left = true }
settle_waiting s (awaiting f w g) = record s { world = w; group = g; parked = some f }

abbrev pub ready : World Bool → Option ℕ → Bool
ready w none = false
ready w (some f) = done w f

abbrev pub is_some : Option ℕ → Bool
is_some none = false
is_some (some f) = true

-- An event that cannot happen in the state changes nothing.
unfoldable pub step : System → Event → System
unfolding create_task child_done wake_parent wait_children woken begin_exit abort cancel
step s (creates t) = settle_created s (create_task t s.group)
step s (finishes t exc over) =
    if contains t s.group.tasks then settle_finished s t exc (child_done t exc over s.group) else s
step s (closes t) =
    if contains t s.closing then settle_closed s t (wake_parent s.world s.group) else s
step s (exits exc) = record s { group = begin_exit exc s.group }
step s waits =
    if s.group.exiting && (not s.left && not (is_some s.parked))
    then settle_waiting s (wait_children s.world s.group)
    else s
step s resumes =
    if ready s.world s.parked then record s { group = woken false s.group; parked = none } else s
step s interrupts =
    if is_some s.parked then record s { group = woken true s.group; parked = none } else s
step s (cancels f msg) = record s { world = (cancel f msg s.world).1 }

unfoldable pub run : System → List Event → System
run s [] = s
run s (e ∷ es) = run (step s e) es

abbrev pub start : World Bool → Group → System
start w g = record {
  world = w;
  group = g;
  closing = [];
  raised = [];
  parked = none;
  left = false;
  requests = 0;
}
