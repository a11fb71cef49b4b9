-- ===== src/Control/Running.antt =====
-- `run` and `_cancel_all_tasks` of mt_asyncio/asyncio/_ctl.py: a loop of its own, from its making to its
-- closing, on the shared reactor.
use mt_asyncio.Prelude.{
  ℕ, ◌+◌, ◌≡◌, refl, Bool, true, false, not, ◌&&◌, Option, none, some, List, [], ◌∷◌, arith,
  if◌then◌else◌,
}
use mt_asyncio.Errors.{runtime_error, type_error, Result, ok, err}
use mt_asyncio.Sync.Semaphore.{is_empty}
use mt_asyncio.Reactor.{Reactor, Surroundings, acquire}
use mt_asyncio.Reactor
use mt_asyncio.Loop.LifeCycle.{EventLoop, new, run_until_complete, end_run, close}

-- What is passed as `main`.
pub data Main : Type 0 where
  coroutine awaitable other : Main

abbrev pub Step : Type 0 → Type 0
Step A = Result A × EventLoop × Reactor

abbrev ended : {A : Type 0} → Result A → Step (Unit {0}) → Step A
ended outcome (ok u, l, r) = (outcome, end_run l, r)
ended outcome (err e, l, r) = (err e, l, r)

-- `loop.run_until_complete(coro)`, where the coroutine ends so.
unfoldable pub complete : {A : Type 0} → Surroundings → Result A → EventLoop → Reactor → Step A
unfolding run_until_complete end_run
complete e outcome l r = ended outcome (run_until_complete e l r)

-- `_cancel_all_tasks`, where `left` are the tasks not done; `gather(..., return_exceptions=True)` does not
-- raise.
unfoldable pub cancel_all_tasks : Surroundings → List ℕ → EventLoop → Reactor → Step (Unit {0})
unfolding complete
cancel_all_tasks e left l r = if is_empty left then (ok tt, l, r) else complete e (ok tt) l r

abbrev and_then : Step (Unit {0}) → (EventLoop → Reactor → Step (Unit {0})) → Step (Unit {0})
and_then (ok u, l, r) k = k l r
and_then (err e, l, r) k = (err e, l, r)

-- An exception of the `finally` takes the place of what the body gave.
abbrev finally : {A : Type 0} → Result A → Step (Unit {0}) → Step A
finally outcome (ok u, l, r) = (outcome, l, r)
finally outcome (err e, l, r) = (err e, l, r)

-- The two `finally` blocks, after the body has given `res`.
unfoldable pub clean_up : Surroundings → Surroundings → List ℕ → List ℕ → Step ℕ → Step ℕ
unfolding complete cancel_all_tasks close
clean_up e₂ e₃ left fds (res, l, r) =
    let (res', l', r') =
      finally res (and_then (cancel_all_tasks e₂ left l r) (complete e₃ (ok tt))) in
    finally res' (close fds l' r')

abbrev opened : Step ℕ → Result ℕ × Option EventLoop × Reactor
opened (res, l, r) = (res, some l, r)

-- `run(main)`: `inside` says that a loop runs in this context; the coroutine ends with `outcome` and leaves
-- the tasks `left`; `fds` are the descriptors registered at the end.
unfoldable pub run :
    Bool
    → Main
    → Surroundings
    → Surroundings
    → Surroundings
    → Result ℕ
    → List ℕ
    → List ℕ
    → Reactor
    → Result ℕ × Option EventLoop × Reactor
unfolding complete clean_up
run true main e₁ e₂ e₃ outcome left fds r = (err runtime_error, none, r)
run false other e₁ e₂ e₃ outcome left fds r = (err type_error, none, r)
run false coroutine e₁ e₂ e₃ outcome left fds r =
    opened (clean_up e₂ e₃ left fds (complete e₁ outcome new r))
run false awaitable e₁ e₂ e₃ outcome left fds r =
    opened (clean_up e₂ e₃ left fds (complete e₁ outcome new r))

-- The loop is open and does not run, and the reactor counts it beside `n` others.
abbrev Kept : {A : Type 0} → ℕ → Step A → Type 0
Kept n (res, l, r) =
    (l.closed ≡ false) × (l.running ≡ false) × (r.count ≡ n + (if l.reactor_acquired then 1 else 0))

complete-Kept :
    {A : Type 0} (n : ℕ) (e : Surroundings) (outcome : Result A) (l : EventLoop) (r : Reactor)
    → Kept n (outcome, l, r)
    → Kept n (complete e outcome l r)
unfolding complete
complete-Kept n e outcome l r k = ground arith

and_then-Kept :
    (n : ℕ) (e : Surroundings) (s : Step (Unit {0}))
    → Kept n s
    → Kept n (and_then s (complete e (ok tt)))
and_then-Kept n e (ok u, l, r) k = complete-Kept n e (ok tt) l r k
and_then-Kept n e (err x, l, r) k = k

cancel_all_tasks-Kept :
    (n : ℕ) (e : Surroundings) (left : List ℕ) (l : EventLoop) (r : Reactor)
    → Kept {A = Unit {0}} n (ok tt, l, r)
    → Kept n (cancel_all_tasks e left l r)
unfolding cancel_all_tasks
cancel_all_tasks-Kept n e [] l r k = k
cancel_all_tasks-Kept n e (t ∷ left) l r k = complete-Kept n e (ok tt) l r k

finally-Kept :
    {A : Type 0} (n : ℕ) (outcome : Result A) (s : Step (Unit {0}))
    → Kept n s
    → Kept n (finally outcome s)
finally-Kept n outcome (ok u, l, r) k = k
finally-Kept n outcome (err x, l, r) k = k

-- A loop that is closed and let go.
abbrev pub is_shut : EventLoop → Bool
is_shut l = l.closed && (not l.reactor_acquired && not l.running)

abbrev pub all_shut : Option EventLoop → Bool
all_shut none = true
all_shut (some l) = is_shut l

abbrev Shut : {A : Type 0} → ℕ → Step A → Type 0
Shut n (res, l, r) = (is_shut l ≡ true) × (r.count ≡ n)

close-Shut :
    {A : Type 0} (n : ℕ) (outcome : Result A) (fds : List ℕ) (l : EventLoop) (r : Reactor)
    → Kept n (outcome, l, r)
    → Shut n (finally outcome (close fds l r))
unfolding close Reactor.release
close-Shut n outcome fds l r k = ground arith

clean_up-Shut :
    (n : ℕ) (e₂ e₃ : Surroundings) (left fds : List ℕ) (s : Step ℕ)
    → Kept n s
    → Shut n (clean_up e₂ e₃ left fds s)
unfolding clean_up
clean_up-Shut n e₂ e₃ left fds (res, l, r) k =
    let s = and_then (cancel_all_tasks e₂ left l r) (complete e₃ (ok tt)) in
    let (res', l', r') = finally res s in
    close-Shut n res' fds l' r' (
      finally-Kept n res s
        (and_then-Kept n e₃ (cancel_all_tasks e₂ left l r) (cancel_all_tasks-Kept n e₂ left l r k)))

-- However `main` ends, whatever tasks it leaves, and wherever the reactor fails to start: `run` leaves the
-- loop that it made, if it made one, closed and not running, and the reactor's count is what it was before.
pub run_leaves_nothing :
    (inside : Bool) (main : Main) (e₁ e₂ e₃ : Surroundings) (outcome : Result ℕ) (left fds : List ℕ)
    (r : Reactor)
    → let after = run inside main e₁ e₂ e₃ outcome left fds r in
      (all_shut after.1 ≡ true) × (after.2.count ≡ r.count)
unfolding run
run_leaves_nothing true main e₁ e₂ e₃ outcome left fds r = (refl, refl)
run_leaves_nothing false other e₁ e₂ e₃ outcome left fds r = (refl, refl)
run_leaves_nothing false coroutine e₁ e₂ e₃ outcome left fds r =
    clean_up-Shut r.count e₂ e₃ left fds (complete e₁ outcome new r)
      (complete-Kept r.count e₁ outcome new r (refl, refl, omega arith))
run_leaves_nothing false awaitable e₁ e₂ e₃ outcome left fds r =
    clean_up-Shut r.count e₂ e₃ left fds (complete e₁ outcome new r)
      (complete-Kept r.count e₁ outcome new r (refl, refl, omega arith))
