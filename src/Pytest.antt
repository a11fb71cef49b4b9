-- ===== src/Pytest.antt =====
-- mt_asyncio/_testutils/_pytest_plugin.py: the runner of a test session, over the life cycle of its
-- loop. pytest itself is a parameter: it chooses what is set up and called, and in which order.
pub mod Collection
pub mod Groups
pub mod Fixtures
pub mod Reuse
use mt_asyncio.Prelude.{ℕ, suc, Option, none, some}
use mt_asyncio.Errors.{Result, ok, err, type_error}
use mt_asyncio.Reactor.{Reactor, Surroundings}
use mt_asyncio.Loop.LifeCycle.{EventLoop, new, enter}
use mt_asyncio.Control.Running.{complete}

-- What the fixture `mt_asyncio_runtime` gives: a dict, here its value at 'threads', or another object.
pub data Backend : Type 0 where
  dict : Option ℕ → Backend
  object : Backend

-- `extract_runtime_options`, and the fixture `mt_asyncio_runtime_options`.
unfoldable pub extract_runtime_options : Backend → Option ℕ
extract_runtime_options (dict threads) = threads
extract_runtime_options object = none

-- `runtime_options.get('threads', 2)`
unfoldable pub threads_of : Option ℕ → ℕ
threads_of none = 2
threads_of (some n) = n

-- `TestRunner`; `threads` is what its loop was made with.
pub record TestRunner : Type 0 where
  pub loop : EventLoop
  pub threads : ℕ

-- `_current_runner`, and how many loops were made; the reactor is that of the process.
pub record Session : Type 0 where
  pub current_runner : Option TestRunner
  pub made : ℕ
  pub reactor : Reactor

abbrev pub current_or_new : Option ℕ → Session → Option TestRunner → TestRunner × Session
current_or_new options s (some runner) = (runner, s)
current_or_new options s none = (
  record { loop = new; threads = threads_of options },
  record s {
    current_runner = some (record { loop = new; threads = threads_of options });
    made = suc s.made;
  },
)

-- `get_runner`: the `ExitStack` that would close the loop is kept, and never closed.
unfoldable pub get_runner : Option ℕ → Session → TestRunner × Session
unfolding threads_of
get_runner options s = current_or_new options s s.current_runner

-- What is called: a coroutine function, or an async generator function of a fixture.
pub data Function : Type 0 where
  coroutine_function async_generator_function : Function

abbrev refuse : Result (Unit {0}) × EventLoop × Reactor → Result ℕ × EventLoop × Reactor
refuse (ok u, l, r) = (err type_error, l, r)
refuse (err e, l, r) = (err e, l, r)

-- `TestRunner._run` of what the function gives: `ensure_future` takes a coroutine and refuses an
-- async generator. The coroutine ends with `outcome`.
unfoldable pub run_function :
    Function → Surroundings → Result ℕ → EventLoop → Reactor → Result ℕ × EventLoop × Reactor
unfolding complete enter
run_function coroutine_function e outcome l r = complete e outcome l r
run_function async_generator_function e outcome l r = refuse (enter e l r)

abbrev pub kept_by : TestRunner → Session → Result ℕ × EventLoop × Reactor → Result ℕ × Session
kept_by runner s (res, l, r) =
    (res, record s { current_runner = some (record runner { loop = l }); reactor = r })

abbrev run_with : Function → Surroundings → Result ℕ → TestRunner × Session → Result ℕ × Session
run_with f e outcome (runner, s) = kept_by runner s (run_function f e outcome runner.loop s.reactor)

-- A fixture that `wrapper` runs, or a test that `pytest_pyfunc_call` or `run_with_hypothesis` runs.
unfoldable pub call : Backend → Function → Surroundings → Result ℕ → Session → Result ℕ × Session
unfolding get_runner run_function extract_runtime_options
call backend f e outcome s = run_with f e outcome (get_runner (extract_runtime_options backend) s)
