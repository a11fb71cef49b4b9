-- ===== src/Examples/Groups.antt =====
-- A `TaskGroup` whose parent leaves: the theorem of `TaskGroups.Leaving` at a concrete history.
use mt_asyncio.Prelude.{◌≡◌, refl, true, false, none, some, List, [], ◌∷◌}
use mt_asyncio.Errors.{user}
use mt_asyncio.TaskGroups.{Group, new}
use mt_asyncio.TaskGroups.Leaving.{
  System, Event, creates, finishes, asks, exits, leaves, step, run, begun,
}

abbrev entered_group : Group
entered_group = record new { has_entered = true; parent_task = some 9 }

-- The child fails, and the parent leaves before the child's callback cancels it.
abbrev late_request : List Event
late_request = creates 1 ∷ finishes 1 (some (user 4)) false ∷ exits none ∷ leaves ∷ asks ∷ []

abbrev escaped : System
escaped = run (begun entered_group 0) late_request

-- The request is outstanding on the parent that has left the scope.
request_escapes : escaped.requests ≡ 1
unfolding run step
request_escapes = refl
