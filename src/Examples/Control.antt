-- ===== src/Examples/Control.antt =====
-- Timeouts, task groups and combinators: the theorems of `Timeouts`, `TaskGroups` and `Control` at
-- concrete histories.
use mt_asyncio.Prelude.{
  ℕ, ◌+◌, ◌≡◌, ◌↔◌, refl, inl, true, false, none, some, List, [], ◌∷◌, ◌++◌, length, arith,
}
use mt_asyncio.Errors.{user, timeout_error, ok, err}
use mt_asyncio.Futures.{World, result, set_exception}
use mt_asyncio.Sync.Semaphore.{is_empty}
use mt_asyncio.Timeouts.{Timeout, entered, exit_result}
use mt_asyncio.Timeouts.Scope.{
  fires, exits, uncancels, cancels, begun, timeout_contained, timeout_raises_iff,
}
use mt_asyncio.Timeouts.Scope
use mt_asyncio.TaskGroups.{Group}
use mt_asyncio.TaskGroups.System.{creates, finishes, closes, waits, start}
use mt_asyncio.TaskGroups.System
use mt_asyncio.TaskGroups.Children.{IsFresh, parent_woken}
use mt_asyncio.Control.Gathering
use mt_asyncio.Control.{Outcome, value, failed, was_cancelled, Entry, Gather, new_gather, get_elem?}
use mt_asyncio.Control.Collect.{deliver, gather_in_order}
use mt_asyncio.Examples.{fresh_world}

abbrev open_scope : Timeout
open_scope = record { when = some 10; state = entered; timeout_handler = some 3; task = some 0 }

-- The deadline fires twice; the task exits and takes the request back; a third one comes late.
abbrev deadline_wins : List Scope.Event
deadline_wins = fires ∷ fires ∷ exits ∷ uncancels ∷ fires ∷ []

timeout_contained_example : (Scope.run (begun open_scope 0) deadline_wins).requests ≡ 0
unfolding Scope.run Scope.step
timeout_contained_example = timeout_contained open_scope 0 deadline_wins refl (inl refl) refl

abbrev leaving_late : List Scope.Event
leaving_late = fires ∷ cancels ∷ exits ∷ []

timeout_raises_iff_example :
    (exit_result (Scope.step (Scope.run (begun open_scope 0) leaving_late) uncancels).requests true
      ≡ err timeout_error)
    ↔ ((0 + (Scope.run (begun open_scope 0) leaving_late).others ≡ 0) × (true ≡ true))
unfolding Scope.run Scope.step
timeout_raises_iff_example = timeout_raises_iff open_scope 0 leaving_late true refl refl

abbrev fresh_group : Group
fresh_group = record {
  has_entered = true;
  exiting = false;
  aborting = false;
  parent_task = some 9;
  parent_cancel_requested = false;
  tasks = [];
  errors = [];
  base_error = none;
  on_completed_fut = none;
}

fresh_group-IsFresh : IsFresh fresh_group
fresh_group-IsFresh = (refl, refl, refl, refl)

-- Two children; the parent waits; both fail.
abbrev both_fail : List System.Event
both_fail =
    creates 1
    ∷ creates 2
    ∷ System.exits none
    ∷ waits
    ∷ finishes 1 (some (user 4)) false
    ∷ finishes 2 (some (user 5)) false
    ∷ []

abbrev settled : List System.Event
settled = both_fail ++ closes 1 ∷ closes 2 ∷ System.resumes ∷ waits ∷ []

abbrev failing : System.System
failing = System.run (start fresh_world fresh_group) both_fail

abbrev over : System.System
over = System.run (start fresh_world fresh_group) settled

parent_woken_example : is_empty failing.closing ≡ false
unfolding System.run System.step
parent_woken_example =
    parent_woken fresh_world fresh_group both_fail 0 fresh_group-IsFresh refl refl refl

abbrev failed_group : Group
failed_group = record fresh_group { errors = user 4 ∷ []; parent_cancel_requested = true }

-- The callbacks of three children, the last one first.
abbrev arrivals : List (ℕ × Outcome)
arrivals = (2, value 20) ∷ (0, value 10) ∷ (1, failed (user 4)) ∷ []

gather_in_order_example :
    (w' : World (List Entry)) × (g' : Gather) × (rs : List Entry) × (deliver arrivals fresh_world
        (new_gather 0 3 true)
      ≡ ok (w', g'))
    × (result w' 0 ≡ ok (some rs))
    × (length rs ≡ 3)
    × (get_elem? rs 2 ≡ some (some (ok 20)))
gather_in_order_example =
    gather_in_order 0 3 true arrivals fresh_world 2 (value 20) refl refl (omega arith) refl refl
      (refl, (refl, (refl, tt))) refl

-- Two children: the first is cancelled by somebody else, and the caller resumes.
abbrev one_cancelled : List Gathering.Event
one_cancelled = Gathering.ends 5 was_cancelled ∷ Gathering.runs 0 ∷ Gathering.resumes ∷ []

abbrev spread : Gathering.System
spread = Gathering.run (Gathering.start fresh_world 0 (5 ∷ 6 ∷ []) false) one_cancelled

-- The other child runs on well, and is cancelled all the same.
cancel_spreads : spread.cancelled ≡ 5 ∷ 6 ∷ []
unfolding Gathering.run Gathering.step set_exception result
cancel_spreads = refl
