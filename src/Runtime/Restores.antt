-- ===== src/Runtime/Restores.antt =====
-- What `run_forever` of mt_asyncio/_runtime.py leaves of the process's signal handling.
use mt_asyncio.Prelude.{
  ℕ, ◌≡◌, refl, Bool, true, false, ◌&&◌, none, some, List, [], ◌∷◌, ◌++◌, arith, if◌then◌else◌,
  contains, update,
}
use mt_asyncio.Errors.{Exc, Result, ok, err, value_error, runtime_error}
use mt_asyncio.Sync.Semaphore.{is_empty}
use mt_asyncio.Runtime.Signals.{
  Handler, noop, Process, Caller, standard, set_sig_wfd, check_sig, sig_add, sig_rem,
}
use mt_asyncio.Runtime.{
  Runtime, Pair, ssock_start, ssock_stop, add_all, sig_reg, remove_all, sig_dereg, run_forever_pre,
  run_forever_post, run_forever, finally,
}

-- Every signal of the list can be caught.
abbrev pub all_fine : Caller → List ℕ → Bool
all_fine c [] = true
all_fine c (sig ∷ sigs) = (c.is_valid sig && c.is_catchable sig) && all_fine c sigs

-- `h` at the signals of the list.
abbrev pub overlay : List ℕ → (ℕ → Handler) → (ℕ → Handler) → ℕ → Handler
overlay sigs h old sig = if contains sig sigs then h sig else old sig

add_all_lem :
    (c : Caller) (sigs : List ℕ) (p : Process)
    → c.is_main ≡ true
    → all_fine c sigs ≡ true
    → (p' : Process) × (add_all c sigs p ≡ (ok tt, p'))
      × (p'.wakeup_fd ≡ p.wakeup_fd)
      × ((sig : ℕ) → p'.handler sig ≡ overlay sigs (λ _. noop) p.handler sig)
unfolding add_all sig_add check_sig
add_all_lem c [] p m f = (p, refl, refl, λ sig. refl)
add_all_lem c (x ∷ sigs) p m f =
    let next : Process = record p { handler = update p.handler x noop } in
    let (p', e, w, h) = add_all_lem c sigs next m (ground (arith, f)) in
    (p', ground (arith, e, m, f), w, λ sig. ground (arith, h sig))

sig_rem-fine :
    (c : Caller) (sig : ℕ) (p : Process)
    → c.is_main ≡ true
    → c.is_catchable sig ≡ true
    → sig_rem c sig p ≡ ok (record p { handler = update p.handler sig (standard sig) })
unfolding sig_rem
sig_rem-fine c sig p m f = rw (m, f) refl

remove_all_lem :
    (c : Caller) (sigs : List ℕ) (p : Process)
    → c.is_main ≡ true
    → all_fine c sigs ≡ true
    → ((remove_all c sigs p).wakeup_fd ≡ p.wakeup_fd)
      × ((sig : ℕ) → (remove_all c sigs p).handler sig ≡ overlay sigs standard p.handler sig)
unfolding remove_all sig_rem
remove_all_lem c [] p m f = (refl, λ sig. refl)
remove_all_lem c (x ∷ sigs) p m f =
    let next : Process = record p { handler = update p.handler x (standard x) } in
    let (w, h) = remove_all_lem c sigs next m (ground (arith, f)) in
    rw (remove_all, sig_rem-fine c x p m (ground (arith, f))) (w, λ sig. ground (arith, h sig))

-- The loop stops at the first signal that cannot be caught.
add_all_stuck :
    (c : Caller) (good : List ℕ) (bad : ℕ) (rest : List ℕ) (p : Process)
    → c.is_main ≡ true
    → all_fine c good ≡ true
    → (c.is_valid bad && c.is_catchable bad) ≡ false
    → (e : Exc) × (p' : Process) × (add_all c (good ++ bad ∷ rest) p ≡ (err e, p'))
      × (p'.wakeup_fd ≡ p.wakeup_fd)
      × ((sig : ℕ) → p'.handler sig ≡ overlay good (λ _. noop) p.handler sig)
unfolding add_all sig_add check_sig
add_all_stuck c [] bad rest p m f b = (
  if c.is_valid bad then runtime_error else value_error,
  p,
  ground (arith, m, b),
  refl,
  λ sig. refl,
)
add_all_stuck c (x ∷ good) bad rest p m f b =
    let next : Process = record p { handler = update p.handler x noop } in
    let (e, p', eq, w, h) = add_all_stuck c good bad rest next m (ground (arith, f)) b in
    (e, p', ground (arith, eq, m, f), w, λ sig. ground (arith, h sig))

pre_lem :
    (c : Caller) (s : Pair) (r : Runtime) (p : Process)
    → r.ssock_w ≡ none
    → c.is_main ≡ true
    → s.refuses ≡ none
    → all_fine c r.sigset ≡ true
    → (p₁ : Process) × (run_forever_pre c s r p ≡ (
      ok tt,
      record r {
        ssock_r = some s.reader;
        ssock_w = some s.writer;
        sig_wfd = p.wakeup_fd;
        sig_listening = true;
      },
      p₁,
    ))
      × ((sig : ℕ) → p₁.handler sig ≡ overlay r.sigset (λ _. noop) p.handler sig)
unfolding run_forever_pre ssock_start sig_reg set_sig_wfd
pre_lem c s r p idle m n f =
    let (p₁, e₁, w₁, h₁) = add_all_lem c r.sigset (record p { wakeup_fd = some s.writer }) m f in
    (p₁, ground (arith, idle, m, n, e₁), h₁)

post_lem :
    (c : Caller) (r : Runtime) (p : Process) (fd : ℕ)
    → r.ssock_w ≡ some fd
    → r.sig_listening ≡ true
    → c.is_main ≡ true
    → run_forever_post c r p ≡ (
      ok tt,
      record r { ssock_r = none; ssock_w = none; sig_listening = false; stopping = false },
      record (remove_all c r.sigset p) { wakeup_fd = r.sig_wfd },
    )
unfolding run_forever_post ssock_stop sig_dereg set_sig_wfd
post_lem c r p fd e l m = ground (arith, e, l, m)

failed_pre :
    (c : Caller) (s : Pair) (r : Runtime) (p : Process) (good : List ℕ) (bad : ℕ) (rest : List ℕ)
    → r.ssock_w ≡ none
    → c.is_main ≡ true
    → s.refuses ≡ none
    → r.sigset ≡ good ++ bad ∷ rest
    → all_fine c good ≡ true
    → (c.is_valid bad && c.is_catchable bad) ≡ false
    → (e : Exc) × (p₁ : Process) × (run_forever_pre c s r p ≡ (
      err e,
      record r { ssock_r = some s.reader; ssock_w = some s.writer; sig_wfd = p.wakeup_fd },
      p₁,
    ))
      × (p₁.wakeup_fd ≡ some s.writer)
      × ((sig : ℕ) → p₁.handler sig ≡ overlay good (λ _. noop) p.handler sig)
unfolding run_forever_pre ssock_start sig_reg set_sig_wfd
failed_pre c s r p good bad rest idle m n split f b =
    let (e, p₁, eq, w, h) =
      add_all_stuck c good bad rest (record p { wakeup_fd = some s.writer }) m f b in
    let some_signal : is_empty (good ++ bad ∷ rest) ≡ false = not_empty good in
    (e, p₁, ground (arith, idle, m, n, split, eq, some_signal), w, h)
  where
    not_empty : (xs : List ℕ) → is_empty (xs ++ bad ∷ rest) ≡ false
    not_empty [] = refl
    not_empty (x ∷ xs) = refl

-- Nothing listens: only the self-socket goes.
quiet_post :
    (c : Caller) (r : Runtime) (p : Process) (fd : ℕ)
    → r.ssock_w ≡ some fd
    → r.sig_listening ≡ false
    → run_forever_post c r p
      ≡ (ok tt, record r { ssock_r = none; ssock_w = none; stopping = false }, p)
unfolding run_forever_post ssock_stop sig_dereg
quiet_post c r p fd e l = ground (arith, e, l)

finally-post :
    (c : Caller) (outcome : Result (Unit {0})) (r : Runtime) (p : Process) (fd : ℕ)
    → r.ssock_w ≡ some fd
    → r.sig_listening ≡ true
    → c.is_main ≡ true
    → finally (outcome, r, p) (run_forever_post c) ≡ (
      outcome,
      record r { ssock_r = none; ssock_w = none; sig_listening = false; stopping = false },
      record (remove_all c r.sigset p) { wakeup_fd = r.sig_wfd },
    )
finally-post c (ok u) r p fd e l m = post_lem c r p fd e l m
finally-post c (err x) r p fd e l m = rw (post_lem c r p fd e l m) refl

-- A run in which every signal of the set can be caught, on the main thread, over a runtime that is not
-- running: it ends as the native loop does, the self-socket is gone and nothing listens, the wakeup
-- descriptor is the one from before, the signals of the set have their standard handlers, and all
-- other handlers are as they were.
pub run_forever_restores :
    (c : Caller) (s : Pair) (outcome : Result (Unit {0})) (r : Runtime) (p : Process) (sig : ℕ)
    → r.ssock_w ≡ none
    → c.is_main ≡ true
    → s.refuses ≡ none
    → all_fine c r.sigset ≡ true
    → let after = run_forever c s outcome r p in
      (after.0 ≡ outcome)
      × (after.1.ssock_w ≡ none)
      × (after.1.sig_listening ≡ false)
      × (after.2.wakeup_fd ≡ p.wakeup_fd)
      × (after.2.handler sig ≡ overlay r.sigset standard p.handler sig)
unfolding run_forever
run_forever_restores c s outcome r p sig idle m n f =
    let (p₁, e₁, h₁) = pre_lem c s r p idle m n f in
    let r₁ : Runtime = record r {
      ssock_r = some s.reader;
      ssock_w = some s.writer;
      sig_wfd = p.wakeup_fd;
      sig_listening = true;
    } in
    let (w₂, h₂) = remove_all_lem c r.sigset p₁ m f in
    rw (run_forever, e₁, finally-post c outcome r₁ p₁ s.writer refl refl m)
      (refl, refl, refl, refl, ground (arith, h₁ sig, h₂ sig))

-- A signal of the set that is not valid or cannot be caught, on the main thread: `run_forever` raises, and
-- the signals before it in the set keep the handler that ignores them, with the wakeup descriptor left on
-- the self-socket, which is dropped.
pub failed_start_leaks :
    (c : Caller) (s : Pair) (outcome : Result (Unit {0})) (r : Runtime) (p : Process)
    (good : List ℕ) (bad : ℕ) (rest : List ℕ) (sig : ℕ)
    → r.ssock_w ≡ none
    → r.sig_listening ≡ false
    → c.is_main ≡ true
    → s.refuses ≡ none
    → r.sigset ≡ good ++ bad ∷ rest
    → all_fine c good ≡ true
    → (c.is_valid bad && c.is_catchable bad) ≡ false
    → let after = run_forever c s outcome r p in
      ((e : Exc) × (after.0 ≡ err e))
      × (after.1.ssock_w ≡ none)
      × (after.2.wakeup_fd ≡ some s.writer)
      × (after.2.handler sig ≡ overlay good (λ _. noop) p.handler sig)
unfolding run_forever
failed_start_leaks c s outcome r p good bad rest sig idle l m n split f b =
    let (e, p₁, eq, w, h) = failed_pre c s r p good bad rest idle m n split f b in
    let r₁ : Runtime = record r {
      ssock_r = some s.reader;
      ssock_w = some s.writer;
      sig_wfd = p.wakeup_fd;
    } in
    rw (run_forever, eq, quiet_post c r₁ p₁ s.writer refl l) ((e, refl), refl, w, h sig)

refused_pre :
    (s : Pair) (c : Caller) (r : Runtime) (p : Process) (fd : ℕ)
    → r.ssock_w ≡ some fd
    → run_forever_pre c s r p ≡ (err runtime_error, r, p)
unfolding run_forever_pre ssock_start
refused_pre s c r p fd e = ground (arith, e)

-- A second `run_forever` on a runtime that runs, on the main thread: it raises RuntimeError, and on its way
-- out takes down the self-socket and the signal handling of the first one.
pub second_run_tears_down :
    (c : Caller) (s : Pair) (outcome : Result (Unit {0})) (r : Runtime) (p : Process) (fd : ℕ)
    → r.ssock_w ≡ some fd
    → r.sig_listening ≡ true
    → c.is_main ≡ true
    → let after = run_forever c s outcome r p in
      (after.0 ≡ err runtime_error)
      × (after.1.ssock_w ≡ none)
      × (after.1.sig_listening ≡ false)
      × (after.2.wakeup_fd ≡ r.sig_wfd)
unfolding run_forever
second_run_tears_down c s outcome r p fd e l m =
    rw (run_forever, refused_pre s c r p fd e, post_lem c r p fd e l m) (refl, refl, refl, refl)
