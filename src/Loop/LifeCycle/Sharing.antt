-- ===== src/Loop/LifeCycle/Sharing.antt =====
-- Many loops of mt_asyncio/asyncio/_loop.py on the one reactor of mt_asyncio/asyncio/_reactor.py.
use mt_asyncio.Prelude.{
  ℕ, ◌+◌, ◌≡◌, Bool, true, false, not, ◌&&◌, List, [], ◌∷◌, if◌then◌else◌, update, contains,
  count_if,
}
use mt_asyncio.Errors.{Result}
use mt_asyncio.Reactor.{Reactor, Surroundings, acquire, start}
use mt_asyncio.Reactor
use mt_asyncio.Loop.LifeCycle.{
  EventLoop, new, enter, run_until_complete, run_forever, end_run, stop, close,
}

pub record System : Type 0 where
  pub loops : ℕ → EventLoop
  pub reactor : Reactor

-- `uses` is a method that is guarded by `_check_closed` and starts the reactor.
pub data Event : Type 0 where
  uses completes runs : ℕ → Surroundings → Event
  ends stops : ℕ → Event
  closes : ℕ → List ℕ → Event

abbrev settle : System → ℕ → Result (Unit {0}) × EventLoop × Reactor → System
settle s i (res, l, r) = record { loops = update s.loops i l; reactor = r }

unfoldable pub step : System → Event → System
unfolding enter run_until_complete run_forever end_run stop close
step s (uses i e) = settle s i (enter e (s.loops i) s.reactor)
step s (completes i e) = settle s i (run_until_complete e (s.loops i) s.reactor)
step s (runs i e) = settle s i (run_forever e (s.loops i) s.reactor)
step s (ends i) = record s { loops = update s.loops i (end_run (s.loops i)) }
step s (stops i) = record s { loops = update s.loops i (stop (s.loops i)) }
step s (closes i fds) = settle s i (close fds (s.loops i) s.reactor)

unfoldable pub run : System → List Event → System
run s [] = s
run s (e ∷ es) = run (step s e) es

abbrev pub start_system : System
start_system = record { loops = λ _. new; reactor = Reactor.new }

abbrev pub loop_of : Event → ℕ
loop_of (uses i e) = i
loop_of (completes i e) = i
loop_of (runs i e) = i
loop_of (ends i) = i
loop_of (stops i) = i
loop_of (closes i fds) = i

-- Every event is of one of these loops.
abbrev pub within : List ℕ → List Event → Bool
within ids [] = true
within ids (e ∷ es) = contains (loop_of e) ids && within ids es

abbrev pub holding : System → List ℕ → ℕ
holding s ids = count_if (λ i. (s.loops i).reactor_acquired) ids

record Inv (ids : List ℕ) (s : System) : Type 0 where
  shared : s.reactor.count ≡ holding s ids
  let_go : (i : ℕ) → ((s.loops i).closed && (s.loops i).reactor_acquired) ≡ false
  open_ : (i : ℕ) → ((s.loops i).running && not (s.loops i).reactor_acquired) ≡ false

-- One loop changes; the reactor counts the change of what it holds.
record Sound (l l' : EventLoop) (r r' : Reactor) : Type 0 where
  moved :
      r'.count + (if l.reactor_acquired then 1 else 0)
      ≡ r.count + (if l'.reactor_acquired then 1 else 0)
  let_go : (l'.closed && l'.reactor_acquired) ≡ false
  open_ : (l'.running && not l'.reactor_acquired) ≡ false

abbrev IsFine : EventLoop → Type 0
IsFine l =
    ((l.closed && l.reactor_acquired) ≡ false) × ((l.running && not l.reactor_acquired) ≡ false)

abbrev Moves : EventLoop → Reactor → Result (Unit {0}) × EventLoop × Reactor → Type 0
Moves l r (res, l', r') = Sound l l' r r'
