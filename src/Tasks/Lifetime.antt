-- ===== src/Tasks/Lifetime.antt =====
-- The life of tasks on a loop of mt_asyncio/asyncio/_loop.py: `Task.__init__` and the end of `_runner` in
-- mt_asyncio/asyncio/_tasks.py, with the loop's registry of tasks.
use mt_asyncio.Prelude.{
  ℕ, ◌<◌, ◌≡◌, refl, Bool, true, not, ◌&&◌, ◌||◌, none, some, List, [], ◌∷◌, arith, ◌==◌,
  if◌then◌else◌, contains, update,
}
use mt_asyncio.Errors.{type_error, Result, ok, err}
use mt_asyncio.Futures.{
  World, done, is_stop_iteration, create_future, set_result, set_exception, cancel,
}
use mt_asyncio.Transports.{add, discard}
use mt_asyncio.Transports.Reads.{contains-discard}
use mt_asyncio.Loop.LifeCycle.{EventLoop, new, register_task, unregister_task, all_tasks, not_done}
use mt_asyncio.Tasks.{Runtime, new_task, Ended, returned, failed, finish}
use mt_asyncio.Futures

-- `Task(coro)` on this loop: it is registered, and spawned on the runtime.
unfoldable pub create : Runtime ℕ → EventLoop → ℕ × Runtime ℕ × EventLoop
unfolding create_future register_task
create r l =
    let (t, w) = create_future r.world in
    (t, record { world = w; task = update r.task t (some new_task) }, register_task t l)

abbrev pub swallowed : Runtime ℕ → Result (Runtime ℕ) → Runtime ℕ
swallowed r (ok r') = r'
swallowed r (err e) = r

-- The outcome that `_runner` sets.
unfoldable pub settle : ℕ → Ended ℕ → Runtime ℕ → Runtime ℕ
unfolding finish
settle t how r = swallowed r (finish t how r)

-- What `ensure_future` is given.
pub data Given : Type 0 where
  future : ℕ → Given
  coroutine other : Given

unfoldable pub ensure_future : Given → Runtime ℕ → EventLoop → Result (ℕ × Runtime ℕ × EventLoop)
unfolding create
ensure_future (future f) r l = ok (f, r, l)
ensure_future coroutine r l = ok (create r l)
ensure_future other r l = err type_error

-- `running` lists the tasks whose outcome `_runner` has not set.
pub record System : Type 0 where
  pub runtime : Runtime ℕ
  pub loop : EventLoop
  pub running : List ℕ

-- `leaves` is the `finally` of `_runner`.
pub data Event : Type 0 where
  creates : Event
  settles : ℕ → Ended ℕ → Event
  leaves : ℕ → Event

abbrev created : System → ℕ × Runtime ℕ × EventLoop → System
created s (t, r, l) = record { runtime = r; loop = l; running = t ∷ s.running }

unfoldable pub step : System → Event → System
unfolding create settle unregister_task
step s creates = created s (create s.runtime s.loop)
step s (settles t how) =
    if contains t s.running
    then record s { runtime = settle t how s.runtime; running = discard t s.running }
    else s
step s (leaves t) = if contains t s.running then s else record s { loop = unregister_task t s.loop }

unfoldable pub run : System → List Event → System
run s [] = s
run s (e ∷ es) = run (step s e) es

abbrev pub start : World ℕ → System
start w = record { runtime = record { world = w; task = λ _. none }; loop = new; running = [] }

-- No coroutine ends by StopIteration, which Python turns into a RuntimeError.
abbrev pub is_fine : Event → Bool
is_fine creates = true
is_fine (leaves t) = true
is_fine (settles t (returned v)) = true
is_fine (settles t (failed e)) = not (is_stop_iteration e)

abbrev pub all_fine : List Event → Bool
all_fine [] = true
all_fine (e ∷ es) = is_fine e && all_fine es

record Inv (s : System) : Type 0 where
  agree : (t : ℕ) → contains t s.running ≡ (contains t s.loop.tasks && not (done s.runtime.world t))
  known : (t : ℕ) → contains t s.loop.tasks ≡ true → t < s.runtime.world.next

contains-add : (t a : ℕ) (xs : List ℕ) → contains t (add a xs) ≡ ((a == t) || contains t xs)
contains-add t a xs = ground arith

done-settle :
    (t : ℕ) (how : Ended ℕ) (r : Runtime ℕ) (g : ℕ)
    → is_fine (settles t how) ≡ true
    → (done (settle t how r).world g ≡ (t == g || done r.world g))
      × ((settle t how r).world.next ≡ r.world.next)
unfolding settle finish set_result set_exception Futures.cancel
done-settle t (returned v) r g h = (ground (arith, h), ground (arith, h))
done-settle t (failed e) r g h = (ground (arith, h), ground (arith, h))

step-Inv : (s : System) (e : Event) → is_fine e ≡ true → Inv s → Inv (step s e)
unfolding step create_future
step-Inv s creates h inv = record {
  agree = λ t.
      ground (arith, inv.agree t, inv.known t, contains-add t s.runtime.world.next s.loop.tasks);
  known = λ t c. ground (arith, inv.known t, c, contains-add t s.runtime.world.next s.loop.tasks);
}
step-Inv s (settles t how) h inv = record {
  agree = λ g.
      ground (arith, inv.agree g, done-settle t how s.runtime g h, contains-discard g t s.running);
  known = λ g c. ground (arith, inv.known g, c, done-settle t how s.runtime g h);
}
step-Inv s (leaves t) h inv = record {
  agree = λ g. ground (arith, inv.agree g, inv.agree t, contains-discard g t s.loop.tasks);
  known = λ g c. ground (arith, inv.known g, c, contains-discard g t s.loop.tasks);
}

run-Inv : (es : List Event) (s : System) → all_fine es ≡ true → Inv s → Inv (run s es)
unfolding run
run-Inv [] s h inv = inv
run-Inv (e ∷ es) s h inv =
    run-Inv es (step s e) (ground (arith, h)) (step-Inv s e (ground (arith, h)) inv)

contains-not_done :
    (p : ℕ → Bool) (ts : List ℕ) (t : ℕ) → contains t (not_done p ts) ≡ (contains t ts && not (p t))
contains-not_done p [] t = refl
contains-not_done p (x ∷ ts) t = ground (arith, contains-not_done p ts t)

-- `_all_tasks` gives exactly the tasks that were created and have no outcome, at every point of every
-- history in which tasks are created, end and leave the registry in any order: none is missed, so
-- `run` can cancel it, and none that has ended is kept.
pub all_tasks_live :
    (w : World ℕ) (es : List Event) (t : ℕ)
    → all_fine es ≡ true
    → let s = run (start w) es in
      contains t (all_tasks (done s.runtime.world) s.loop) ≡ contains t s.running
unfolding all_tasks
all_tasks_live w es t h =
    let s = run (start w) es in
    let inv = run-Inv es (start w) h (record { agree = λ g. refl; known = λ g c. cc }) in
    ground (arith, inv.agree t, contains-not_done (done s.runtime.world) s.loop.tasks t)
