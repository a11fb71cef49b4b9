-- ===== src/Loop/Scheduling.antt =====
-- `call_soon` and `call_at` of `EventLoop` in mt_asyncio/asyncio/_loop.py, on one thread, with the regions of
-- `defer_wakes` (mt_asyncio/asyncio/_wakes.py). A handle is a number, a time counts microseconds.
pub mod Deferral
pub mod Timers
use mt_asyncio.Prelude.{
  ℕ, ◌+◌, ◌-◌, ◌<◌, ◌≤◌, ◌≡◌, refl, sym, ◌∙◌, Bool, true, false, not, ◌&&◌, ◌||◌, Option, none,
  some, List, [], ◌∷◌, ◌++◌, arith, ltb, leb, ◌==◌, if◌then◌else◌, update,
}
use mathlib.Core.List.{append_assoc}
use mt_asyncio.Errors.{Result, ok, err}
use mt_asyncio.Reactor.{Reactor, Surroundings}
use mt_asyncio.Reactor
use mt_asyncio.Loop.LifeCycle.{EventLoop, new, enter, close}

-- What a region holds back: the wake of a future, or the queueing of a handle.
pub data Held : Type 0 where
  wakes queues : ℕ → Held

-- `queue` lists what `_call_soon` of the runtime was given, oldest first, `woken` the futures woken. A timer
-- handle has `_when`; `due` is when its waiter resumes, `ran_at` when its callback ran.
pub record System : Type 0 where
  pub loop : EventLoop
  pub reactor : Reactor
  pub depth : ℕ
  pub pending : Option (List Held)
  pub queue : List ℕ
  pub woken : List ℕ
  pub when_of : ℕ → ℕ
  pub due : ℕ → Option ℕ
  pub ran_at : ℕ → Option ℕ
  pub cancelled : ℕ → Bool
  pub next_handle : ℕ

abbrev hold : Option (List Held) → ℕ → System → System
hold none h s = record s { queue = s.queue ++ h ∷ []; next_handle = h + 1 }
hold (some l) h s = record s { pending = some (l ++ queues h ∷ []); next_handle = h + 1 }

abbrev guarded :
    (System → System) → System → Result (Unit {0}) × EventLoop × Reactor → Bool × System
guarded k s (ok u, l, r) = (true, k (record s { loop = l; reactor = r }))
guarded k s (err e, l, r) = (false, record s { loop = l; reactor = r })

-- `call_soon`, and whether it returns: the handle is `next_handle`.
unfoldable pub call_soon : Surroundings → System → Bool × System
unfolding enter
call_soon e s = guarded (λ t. hold t.pending t.next_handle t) s (enter e s.loop s.reactor)

abbrev armed : ℕ → ℕ → System → System
armed when now s = record s {
  when_of = update s.when_of s.next_handle when;
  due = update s.due s.next_handle (some (now + (when - now)));
  next_handle = s.next_handle + 1;
}

-- `call_at`: the waiter is given the time left, and not less than 0.
unfoldable pub call_at : Surroundings → ℕ → ℕ → System → Bool × System
unfolding enter
call_at e when now s = guarded (armed when now) s (enter e s.loop s.reactor)

-- `call_later`
unfoldable pub call_later : Surroundings → ℕ → ℕ → System → Bool × System
unfolding call_at
call_later e delay now s = call_at e (now + delay) now s

abbrev run_timer : ℕ → ℕ → System → System
run_timer h now s = record s {
  due = update s.due h none;
  ran_at = if s.cancelled h then s.ran_at else update s.ran_at h (some now);
}

abbrev timer_over : Option ℕ → ℕ → ℕ → System → System
timer_over none h now s = s
timer_over (some d) h now s = if leb d now then run_timer h now s else s

-- `_timer()` after its await.
unfoldable pub timer : ℕ → ℕ → System → System
timer h now s = timer_over (s.due h) h now s

-- `Handle.cancel`
unfoldable pub cancel_handle : ℕ → System → System
cancel_handle h s = record s { cancelled = update s.cancelled h true }

-- A wake of a future, `Future._wake`.
abbrev pub wake_over : Option (List Held) → ℕ → System → System
wake_over none f s = record s { woken = s.woken ++ f ∷ [] }
wake_over (some l) f s = record s { pending = some (l ++ wakes f ∷ []) }

abbrev pub enter_region : System → System
enter_region s = record s {
  depth = s.depth + 1;
  pending = if s.depth == 0 then some [] else s.pending;
}

abbrev pub flush_held : List Held → System → System
flush_held [] s = s
flush_held (wakes f ∷ l) s = flush_held l (record s { woken = s.woken ++ f ∷ [] })
flush_held (queues h ∷ l) s = flush_held l (record s { queue = s.queue ++ h ∷ [] })

abbrev pub flush_over : Option (List Held) → System → System
flush_over none s = s
flush_over (some l) s = flush_held l s

abbrev pub exit_region : System → System
exit_region s =
    let d = s.depth - 1 in
    if d == 0
    then flush_over s.pending (record s { depth = d; pending = none })
    else record s { depth = d }

-- `exits` without a region does not happen; it changes nothing.
pub data Event : Type 0 where
  soons : Surroundings → Event
  ats laters : Surroundings → ℕ → ℕ → Event
  fires : ℕ → ℕ → Event
  cancels wakes_future : ℕ → Event
  enters exits : Event

unfoldable pub step : System → Event → System
unfolding call_soon call_at call_later timer cancel_handle
step s (soons e) = (call_soon e s).1
step s (ats e when now) = (call_at e when now s).1
step s (laters e delay now) = (call_later e delay now s).1
step s (fires h now) = timer h now s
step s (cancels h) = cancel_handle h s
step s (wakes_future f) = wake_over s.pending f s
step s enters = enter_region s
step s exits = if s.depth == 0 then s else exit_region s

unfoldable pub run : System → List Event → System
run s [] = s
run s (e ∷ es) = run (step s e) es

abbrev pub start : System
start = record {
  loop = new;
  reactor = Reactor.new;
  depth = 0;
  pending = none;
  queue = [];
  woken = [];
  when_of = λ _. 0;
  due = λ _. none;
  ran_at = λ _. none;
  cancelled = λ _. false;
  next_handle = 0;
}
