-- ===== src/Compat/Names.antt =====
-- The constants of mt_asyncio/asyncio/_compat.py.
use Prim.Native.String.{String}
use mt_asyncio.Prelude.{List, [], ◌∷◌}

-- `_SHADOWED`
abbrev pub shadowed : List String
shadowed =
    "ALL_COMPLETED" ∷ "BoundedSemaphore" ∷ "Condition" ∷ "Event" ∷ "FIRST_COMPLETED"
    ∷ "FIRST_EXCEPTION" ∷ "Future" ∷ "LifoQueue" ∷ "Lock" ∷ "PriorityQueue" ∷ "Queue" ∷ "QueueEmpty"
    ∷ "QueueFull" ∷ "Semaphore" ∷ "StreamReader" ∷ "StreamReaderProtocol" ∷ "StreamWriter" ∷ "Task"
    ∷ "TaskGroup" ∷ "Timeout" ∷ "all_tasks" ∷ "as_completed" ∷ "create_task" ∷ "current_task"
    ∷ "ensure_future" ∷ "gather" ∷ "get_event_loop" ∷ "get_running_loop" ∷ "iscoroutine"
    ∷ "iscoroutinefunction" ∷ "isfuture" ∷ "open_connection" ∷ "run" ∷ "run_coroutine_threadsafe"
    ∷ "shield" ∷ "sleep" ∷ "start_server" ∷ "timeout" ∷ "timeout_at" ∷ "to_thread" ∷ "wait"
    ∷ "wait_for" ∷ "wrap_future" ∷ []

-- `_TARGET_MODULES`
abbrev pub target_modules : List String
target_modules =
    "asyncio" ∷ "asyncio.events" ∷ "asyncio.futures" ∷ "asyncio.locks" ∷ "asyncio.queues"
    ∷ "asyncio.runners" ∷ "asyncio.streams" ∷ "asyncio.taskgroups" ∷ "asyncio.tasks"
    ∷ "asyncio.threads" ∷ "asyncio.timeouts" ∷ []
