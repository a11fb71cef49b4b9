-- ===== src/Pytest/Reuse.antt =====
-- All calls of one session of mt_asyncio/_testutils/_pytest_plugin.py share one loop.
use mt_asyncio.Prelude.{ℕ, ◌≡◌, false, none, some, List, [], ◌∷◌, if◌then◌else◌}
use mt_asyncio.Errors.{Result, ok, err, type_error}
use mt_asyncio.Reactor.{Reactor, Surroundings}
use mt_asyncio.Reactor
use mt_asyncio.Loop.LifeCycle.{EventLoop, new}
use mt_asyncio.Pytest.{
  Backend, TestRunner, Session, Function, coroutine_function, async_generator_function, call,
}

pub record Invocation : Type 0 where
  pub backend : Backend
  pub function : Function
  pub around : Surroundings
  pub outcome : Result ℕ

abbrev pub made_by : Session → Invocation → Result ℕ × Session
made_by s c = call c.backend c.function c.around c.outcome s

unfoldable pub run : Session → List Invocation → Session
run s [] = s
run s (c ∷ cs) = run (made_by s c).1 cs

abbrev pub fresh : Session
fresh = record { current_runner = none; made = 0; reactor = Reactor.new }

-- The loop is open and does not run, and the reactor counts it if it has acquired it.
abbrev Idle : Result ℕ × EventLoop × Reactor → Type 0
Idle (res, l, r) =
    (l.closed ≡ false) × (l.running ≡ false) × (r.count ≡ (if l.reactor_acquired then 1 else 0))

record Shares (n : ℕ) (s : Session) : Type 0 where
  runner : TestRunner
  current : s.current_runner ≡ some runner
  once : s.made ≡ 1
  configured : runner.threads ≡ n
  idle : Idle (ok 0, runner.loop, s.reactor)

-- What a call reports: the outcome of a coroutine, and TypeError for an async generator.
abbrev pub reported : Function → Result ℕ → Result ℕ
reported coroutine_function o = o
reported async_generator_function o = err type_error
