-- ===== src/Lib.antt =====
-- mt_asyncio: the asyncio-compatible core of mt_asyncio/asyncio, modelled and verified.
--
-- The program runs asyncio tasks on many worker threads. Its futures, primitives and scopes keep
-- their state under short locks, and what happens between two locked sections may be interleaved
-- with anything on another thread. The model follows this: a critical section is one function on
-- an explicit state, and a theorem ranges over every finite history of such steps, in any order.
--
-- - Futures (mt_asyncio/asyncio/_futures.py, _wakes.py): `World` holds the futures, what was
--   passed to call_soon, and the thread-local wake list of the running thread. `set_result`,
--   `set_exception`, `cancel`, `add_done_callback`, `remove_done_callback`, `result`, `exception`
--   are the methods; `enter_defer` and `exit_defer` are `_DeferWakes`. A method's tail after its
--   lock (the wake and the scheduling of callbacks) counts into its step.
-- - Sync (mt_asyncio/asyncio/_sync.py): `hand_over` is the loop over the deque of waiters that the
--   primitives share. Sync/Semaphore, Sync/Lock, Sync/Bounded and Sync/Event have the methods,
--   each with a system of callers that acquire, wait, release and are cancelled at any point.
--   `acquire` is split at its await: the first critical section, the handler of CancelledError,
--   the return. Sync/Condition has `wait`, `notify`, `notify_all`; Sync/Queue has `put`, `get`,
--   `task_done`, `join` and the like over the storage hooks (`Hooks`) that Queue, LifoQueue and
--   PriorityQueue fill, the last with heapq as the parameter `Heapq`. Sync/Condition/Reacquire has
--   the end of `Condition.wait`, Sync/Condition/History the tasks around one. A getter's or
--   putter's future holds `true` where the source has None: nobody reads it.
-- - Tasks (mt_asyncio/asyncio/_tasks.py, and `Future.__await__`): a task is a future with further
--   fields, in `Runtime`. `cancel`, `cancelling`, `uncancel` are the methods; `await_begin` and
--   `await_resume` are `__await__` before and after its yield; `finish` is the end of `_runner`.
--   Tasks/Lifetime has their creation and the loop's registry of them.
-- - Timeouts (mt_asyncio/asyncio/_timeouts.py): `Timeout` and its methods; Timeouts/Scope lets the
--   deadline, the exit, reschedules and other cancellations happen in any order,
--   Timeouts/Withdrawal puts the scope over its task.
-- - TaskGroups (mt_asyncio/asyncio/_tg.py): `child_done` and `wake_parent` are the sections of
--   `_on_task_done`; `begin_exit`, `wait_children`, `woken`, `exit_verdict` are those of `_aexit`.
--   TaskGroups/Leaving has the parent's requests, with the cancellation of the parent a step of
--   its own.
-- - Control (mt_asyncio/asyncio/_ctl.py): `child_done` of gather, with the whole of it in
--   Control/Gathering, `release`, `on_done` and `on_timeout` of wait, `inner_done` of shield;
--   Control/Running has `run` and `_cancel_all_tasks`. Control/Completed has `as_completed` and
--   Control/Threadsafe `run_coroutine_threadsafe` (mt_asyncio/asyncio/_utils.py), Control/Bridge
--   `_wrap_concurrent_future` (_loop.py), Control/WaitFor `wait_for` with a timeout that has
--   passed, Control/Executor the executor's `submit`, Control/Sleeping `sleep` (_sleep.py).
-- - Streams (mt_asyncio/asyncio/_streams.py): `StreamReader` with `feed_data`, `feed_eof`,
--   `set_exception` and `_wait_for_data`, split at its await into `wait_for_data` and `wait_over`;
--   the protocol with `drain_helper` and `drain_over`. CPython's base classes are the parameters
--   `Feeding` and `FlowBase`, their documented behaviour the laws `IsFeeding` and `IsFlow`.
-- - Compat (mt_asyncio/asyncio/_compat.py): `install` and `uninstall` on the attributes of
--   modules; Compat/Names has the two tables.
-- - Net (mt_asyncio/asyncio/_net.py): `create_server`, where the kernel's answers are an argument,
--   and `wait_closed` over CPython's server, the parameter `ServerBase`; Loop/Serving has
--   `_stop_serving`.
-- - Runtime (mt_asyncio/_runtime.py, _signals.py): `run_forever` from the self-socket to its
--   closing, with the process's signal handlers; Runtime/Signals has `sig_add`, `sig_rem`,
--   `set_sig_wfd`.
-- - Transports (mt_asyncio/asyncio/_transports.py, and `Task._mt_release_claims`): `enrol` and
--   `add_claim` are the two parts of `_mt_claim`, `read_ready` the critical section of
--   `_read_ready`, `release_claim` is `_mt_release_claim`. Times are in milliseconds.
--   Transports/Life has `startup`, `locked_write_ready` and `call_connection_lost`.
-- - Tls (mt_asyncio/asyncio/_tls.py): which methods enter CPython's SSL protocol under which
--   guard, and in Tls/Threads the threads inside it, one action at a time, with what CPython's
--   methods do as the parameter `Upstream`: `_process_outgoing` takes the outgoing records in one
--   step and writes them in another. Tls/Upgrade has `_get_app_transport` and `start_tls`, split
--   at its wait, beside its handle.
-- - Reactor (mt_asyncio/asyncio/_reactor.py): `acquire` and `release` with `_start` and `_stop`;
--   what they meet of the native runtime is the record `Surroundings`.
-- - Loop (mt_asyncio/asyncio/_loop.py): `Handle`, and `_FdHandle`: `arm_round` is one round of the
--   loop of `_arm`, `wake` is `_wake`, `dispatch` the head of `_dispatch`; the answers of the
--   reactor and the kernel are arguments. Loop/Registrations has `_sios` with `_registration`,
--   `_drop_registration`, `_sio`, `_add_fd_callback` and `_remove_fd_callback`. Loop/LifeCycle has
--   the state of an `EventLoop` with `_check_closed`, `_ensure_reactor`, the two `run` methods,
--   `stop`, `close` and the task registry, over the one reactor that all loops share; Loop/Sockets
--   has the `sock_*` helpers, where the reactor and the socket answer from a list; Loop/Scheduling
--   has `call_soon` and `call_at` on a thread with the regions of `defer_wakes`.
-- - Pytest (mt_asyncio/_testutils/_pytest_plugin.py): the session's one runner on the life cycle
--   of its loop, Pytest/Collection the replacement of collected tests, Pytest/Fixtures the hook on
--   fixtures, Pytest/Groups what comes out of a group of exceptions. pytest chooses the calls.
-- - Prelude has the shared names and the lemmas on lists; Errors the exceptions and the raising
--   computations; Examples the theorems at concrete inputs.
--
-- A method that raises is an `err` of `Result`. Numbers are natural: the ValueError of a negative
-- initial value is outside the model. Loops recur on the list that they consume. Fuel is used by
-- `Tasks.cancel` only, and by `wait_for`, which calls it: it follows the tasks that wait for one
-- another, and any fuel above the length of that chain is enough. The check `not fut.done()` and
-- the `set_result` after it are one step, as the source means them to be.
--
-- Not modelled: the exception handler and the debugging of the loop, the parent classes of the
-- transports and of the SSL protocol (what they do in it is a parameter), pytest, the benchmarks,
-- the operating system, and the native runtime, which may run what is scheduled in any order.
pub mod Prelude
pub mod Errors
pub mod Futures
pub mod Sync
pub mod Tasks
pub mod Timeouts
pub mod TaskGroups
pub mod Transports
pub mod Streams
pub mod Control
pub mod Reactor
pub mod Loop
pub mod Compat
pub mod Runtime
pub mod Net
pub mod Tls
pub mod Pytest
pub mod Examples
