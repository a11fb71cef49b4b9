-- ===== src/TaskGroups/Leaving/Contained.antt =====
-- What cancellations a `TaskGroup` of mt_asyncio/asyncio/_tg.py leaves on its parent.
use mt_asyncio.Prelude.{ℕ, ◌+◌, ◌≡◌, true, false, not, ◌&&◌, ◌||◌, some, if◌then◌else◌}
use mt_asyncio.Sync.Semaphore.{is_empty}
use mt_asyncio.TaskGroups.{is_none, returns}
use mt_asyncio.TaskGroups.Leaving.{System}

abbrev own : System → ℕ
own s = if s.group.parent_cancel_requested && not s.asking then 1 else 0

record Inv (n : ℕ) (s : System) : Type 0 where
  failed : s.group.parent_cancel_requested ≡ true → is_empty s.group.errors ≡ false
  asked : s.asking ≡ true → s.group.parent_cancel_requested ≡ true
  ended : is_none s.outcome ≡ false → (is_empty s.group.tasks ≡ true) × (s.group.exiting ≡ true)
  counted :
      (is_none s.outcome || not (is_none s.group.base_error)) ≡ true
      → s.requests ≡ n + s.others + own s
  settled :
      is_none s.outcome ≡ false
      → is_none s.group.base_error ≡ true
      → s.requests + (if s.asking && not s.overtaken then 1 else 0)
        ≡ n + s.others + (if s.overtaken && not s.asking then 1 else 0)
  quiet :
      s.outcome ≡ some returns
      → (is_none s.propagate ≡ true)
        × (is_empty s.group.errors ≡ true)
        × (is_none s.group.base_error ≡ true)
