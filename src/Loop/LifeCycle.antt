-- ===== src/Loop/LifeCycle.antt =====
-- The life cycle of an `EventLoop` of mt_asyncio/asyncio/_loop.py: its state, the guards of its methods,
-- running, stopping and closing, over the reactor of mt_asyncio/asyncio/_reactor.py.
pub mod Sharing
pub mod Closing
use mt_asyncio.Prelude.{
  ℕ, ◌+◌, ◌-◌, Bool, true, false, not, ◌&&◌, Option, none, some, List, [], ◌∷◌, if◌then◌else◌,
}
use mt_asyncio.Errors.{Result, ok, err, runtime_error, type_error}
use mt_asyncio.Reactor.{Reactor, Surroundings, acquire}
use mt_asyncio.Reactor
use mt_asyncio.Transports.{add, discard}
use mt_asyncio.Loop.Registrations.{Registry, empty, drop_registration}

-- `stop_event` holds whether the event is set; `task_factory` and the tasks are numbers.
pub record EventLoop : Type 0 where
  pub reactor_acquired : Bool
  pub closed : Bool
  pub running : Bool
  pub stop_event : Option Bool
  pub task_factory : Option ℕ
  pub tasks : List ℕ
  pub sios : Registry

-- `EventLoop()`
abbrev pub new : EventLoop
new = record {
  reactor_acquired = false;
  closed = false;
  running = false;
  stop_event = none;
  task_factory = none;
  tasks = [];
  sios = empty;
}

-- `_check_closed`
unfoldable pub check_closed : EventLoop → Result (Unit {0})
check_closed l = if l.closed then err runtime_error else ok tt

abbrev acquired :
    EventLoop → Bool × Result (Option ℕ) × Reactor → Result (Unit {0}) × EventLoop × Reactor
acquired l (started, ok rt, r) = (ok tt, record l { reactor_acquired = true }, r)
acquired l (started, err e, r) = (err e, l, r)

-- `_ensure_reactor`
unfoldable pub ensure_reactor :
    Surroundings → EventLoop → Reactor → Result (Unit {0}) × EventLoop × Reactor
unfolding acquire
ensure_reactor e l r = if l.reactor_acquired then (ok tt, l, r) else acquired l (acquire true e r)

abbrev unless_closed :
    Result (Unit {0})
    → EventLoop
    → Reactor
    → Result (Unit {0}) × EventLoop × Reactor
    → Result (Unit {0}) × EventLoop × Reactor
unless_closed (ok u) l r next = next
unless_closed (err e) l r next = (err e, l, r)

-- What `create_task`, `call_soon`, `call_at`, `run_in_executor` and `_add_fd_callback` do first.
unfoldable pub enter : Surroundings → EventLoop → Reactor → Result (Unit {0}) × EventLoop × Reactor
unfolding check_closed ensure_reactor
enter e l r = unless_closed (check_closed l) l r (ensure_reactor e l r)

abbrev begun :
    Option Bool → Result (Unit {0}) × EventLoop × Reactor → Result (Unit {0}) × EventLoop × Reactor
begun stop_event (ok u, l, r) = (ok u, record l { running = true; stop_event = stop_event }, r)
begun stop_event (err e, l, r) = (err e, l, r)

-- `run_until_complete` up to its wait.
unfoldable pub run_until_complete :
    Surroundings → EventLoop → Reactor → Result (Unit {0}) × EventLoop × Reactor
unfolding enter
run_until_complete e l r = begun l.stop_event (enter e l r)

-- `run_forever` up to its wait.
unfoldable pub run_forever :
    Surroundings → EventLoop → Reactor → Result (Unit {0}) × EventLoop × Reactor
unfolding enter
run_forever e l r = begun (some false) (enter e l r)

-- The `finally` of both.
unfoldable pub end_run : EventLoop → EventLoop
end_run l = record l { running = false }

abbrev set_event : Option Bool → Option Bool
set_event none = none
set_event (some b) = some true

-- `stop`
unfoldable pub stop : EventLoop → EventLoop
stop l = record l { stop_event = set_event l.stop_event }

-- The loop of `close` over the descriptors that are registered.
unfoldable pub drop_all : List ℕ → Registry → Registry
unfolding drop_registration
drop_all [] r = r
drop_all (fd ∷ fds) r = drop_all fds (drop_registration fd r)

-- `close`; `fds` are the keys of `_sios`.
unfoldable pub close : List ℕ → EventLoop → Reactor → Result (Unit {0}) × EventLoop × Reactor
unfolding drop_all
close fds l r =
    if l.running then (err runtime_error, l, r) else if l.closed then (ok tt, l, r) else (
      ok tt,
      record l { closed = true; reactor_acquired = false; sios = drop_all fds l.sios },
      if l.reactor_acquired then (Reactor.release r).1 else r,
    )

-- `set_task_factory`; `callable` says that the factory is.
unfoldable pub set_task_factory : Option ℕ → Bool → EventLoop → Result EventLoop
set_task_factory none callable l = ok (record l { task_factory = none })
set_task_factory (some f) callable l =
    if callable then ok (record l { task_factory = some f }) else err type_error

-- `_register_task` and `_unregister_task`
unfoldable pub register_task : ℕ → EventLoop → EventLoop
register_task t l = record l { tasks = add t l.tasks }

unfoldable pub unregister_task : ℕ → EventLoop → EventLoop
unregister_task t l = record l { tasks = discard t l.tasks }

abbrev pub not_done : (ℕ → Bool) → List ℕ → List ℕ
not_done done [] = []
not_done done (t ∷ ts) = if done t then not_done done ts else t ∷ not_done done ts

-- `_all_tasks`
unfoldable pub all_tasks : (ℕ → Bool) → EventLoop → List ℕ
all_tasks done l = not_done done l.tasks
