-- ===== src/Tls/Threads.antt =====
-- Threads in the SSL protocol of one connection, interleaved action by action:
-- mt_asyncio/asyncio/_tls.py with the lock of mt_asyncio/asyncio/_transports.py.
use mt_asyncio.Prelude.{
  ℕ, ◌+◌, ◌-◌, Bool, true, false, Option, none, some, List, [], ◌∷◌, ◌++◌, map, if◌then◌else◌,
  update,
}
use mt_asyncio.Tls.{
  SslState, unwrapped, Entry, protocol, Guard, unguarded, locked, deferring_locked, guard_of, Act,
  produces, process_outgoing, pauses, resumes, moves, invokes, schedules, Upstream, Op, act, super,
  dispatches, work_of, resume_branch, RLock, can_acquire, acquire, release, resume_reading_locked,
}

-- A method that a thread is in: what it has still to do.
pub record Frame : Type 0 where
  pub guard : Guard
  pub ops : List Op

-- `frames` is the stack of each thread, the innermost first, `data` the local variable of
-- `_process_outgoing` between its two halves, `regions` the depth of `defer_wakes` of each thread.
-- `produced` holds all records in the order in which they were made.
pub record System : Type 0 where
  pub lock : RLock
  pub frames : ℕ → List Frame
  pub taken : ℕ → Option (List ℕ)
  pub regions : ℕ → ℕ
  pub state : SslState
  pub app_reading_paused : Bool
  pub scheduled : List Entry
  pub outgoing : List ℕ
  pub wire : List ℕ
  pub produced : List ℕ

abbrev pub start : System
start = record {
  lock = record { owner = none; depth = 0 };
  frames = λ _. [];
  taken = λ _. none;
  regions = λ _. 0;
  state = unwrapped;
  app_reading_paused = false;
  scheduled = [];
  outgoing = [];
  wire = [];
  produced = [];
}

-- `__enter__` of what guards a method; none where the thread has to wait.
unfoldable pub enter_guard : ℕ → Guard → System → Option System
unfolding can_acquire acquire
enter_guard t unguarded s = some s
enter_guard t locked s =
    if can_acquire t s.lock then some (record s { lock = acquire t s.lock }) else none
enter_guard t deferring_locked s =
    if can_acquire t s.lock
    then some (record s { lock = acquire t s.lock; regions = update s.regions t (s.regions t + 1) })
    else none

-- `__exit__`, on the way out of a return and of an exception.
unfoldable pub exit_guard : ℕ → Guard → System → System
unfolding release
exit_guard t unguarded s = s
exit_guard t locked s = record s { lock = release s.lock }
exit_guard t deferring_locked s = record s {
  lock = release s.lock;
  regions = update s.regions t (s.regions t - 1);
}

-- `_resume_reading`
unfoldable pub resume_reading : System → System
resume_reading s =
    if s.app_reading_paused
    then record s {
      app_reading_paused = false;
      scheduled = s.scheduled ++ protocol resume_reading_locked ∷ [];
    }
    else s

abbrev pub set_top : ℕ → Guard → List Op → List Frame → System → System
set_top t g ops rest s = record s {
  frames = update s.frames t (record { guard = g; ops = ops } ∷ rest);
}

abbrev pushed : ℕ → Entry → List Frame → System → Option System → System
pushed t e below s none = s
pushed t e below s (some s') = record s' {
  frames = update s'.frames t (record { guard = guard_of e; ops = work_of e } ∷ below);
}

-- The call of a method; where the lock is not to be had the thread stays before the call.
unfoldable pub call : ℕ → Entry → List Frame → System → System
unfolding enter_guard
call t e below s = pushed t e below s (enter_guard t (guard_of e) s)

abbrev pub run_act : ℕ → Act → System → System
run_act t (produces r) s = record s {
  outgoing = s.outgoing ++ r ∷ [];
  produced = s.produced ++ r ∷ [];
}
run_act t process_outgoing s = record s {
  taken = update s.taken t (some s.outgoing);
  outgoing = [];
}
run_act t pauses s = record s { app_reading_paused = true }
run_act t resumes s = resume_reading s
run_act t (moves st) s = record s { state = st }
run_act t (schedules e) s = record s { scheduled = s.scheduled ++ e ∷ [] }
run_act t (invokes e) s = s

-- The end of the innermost method, by a return or by an exception.
abbrev pub end_frame : ℕ → List Frame → System → System
end_frame t [] s = s
end_frame t (f ∷ rest) s = record (exit_guard t f.guard s) { frames = update s.frames t rest }

-- The next operation of the method that the thread `t` is in. The call of an inherited method puts
-- its actions in place, with `_state` as it is then.
unfoldable pub perform : Upstream → ℕ → Frame → List Frame → List Op → System → System
unfolding call exit_guard resume_branch
perform up t f rest [] s = end_frame t (f ∷ rest) s
perform up t f rest (act (invokes e) ∷ ops) s =
    call t e (record { guard = f.guard; ops = ops } ∷ rest) s
perform up t f rest (act a ∷ ops) s = set_top t f.guard ops rest (run_act t a s)
perform up t f rest (super m ∷ ops) s = set_top t f.guard (map act (up m s.state) ++ ops) rest s
perform up t f rest (dispatches ∷ ops) s = set_top t f.guard (resume_branch s.state ++ ops) rest s

abbrev pub advance : Upstream → ℕ → List Frame → System → System
advance up t [] s = s
advance up t (f ∷ rest) s = perform up t f rest f.ops s

-- `enters` is a call from outside, `runs` the next step of a thread, `raises` an exception that
-- ends the innermost method of a thread (between the halves of `_process_outgoing` there is none).
pub data Event : Type 0 where
  enters : ℕ → Entry → Event
  runs raises : ℕ → Event

abbrev pub from_outside : ℕ → Entry → List Frame → System → System
from_outside t e [] s = call t e [] s
from_outside t e (f ∷ rest) s = s

-- The second half of `_process_outgoing`, or the next step.
abbrev pub next : Upstream → ℕ → Option (List ℕ) → System → System
next up t none s = advance up t (s.frames t) s
next up t (some d) s = record s { taken = update s.taken t none; wire = s.wire ++ d }

abbrev pub unwound : ℕ → Option (List ℕ) → System → System
unwound t none s = end_frame t (s.frames t) s
unwound t (some d) s = s

unfoldable pub step : Upstream → System → Event → System
unfolding call perform exit_guard
step up s (enters t e) = from_outside t e (s.frames t) s
step up s (runs t) = next up t (s.taken t) s
step up s (raises t) = unwound t (s.taken t) s

unfoldable pub run : Upstream → System → List Event → System
run up s [] = s
run up s (e ∷ es) = run up (step up s e) es
