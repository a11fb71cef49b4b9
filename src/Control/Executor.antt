-- ===== src/Control/Executor.antt =====
-- `_MtAsyncioExecutor.submit` and `run_in_executor` of mt_asyncio/asyncio/_loop.py. The native pool answers as an
-- argument, and `concurrent.futures.Future` is the parameter of `Threadsafe`.
use mt_asyncio.Prelude.{ℕ, ◌≡◌, true, false, not, none, some, if◌then◌else◌}
use mt_asyncio.Errors.{Exc, user, Result, ok, err}
use mt_asyncio.Futures.{World, pending, is_stop_iteration, result}
use mt_asyncio.Control.{Outcome, value, failed, exc_of}
use mt_asyncio.Control.Mirror.{awaited}
use mt_asyncio.Control.Bridge.{on_done, run_call, bridge_mirrors}
use mt_asyncio.Control.Threadsafe.{ConcurrentFuture, IsConcurrentFuture}

-- What `res.fetch()` gives: `err` is True, False, or neither, when the pool dropped the call.
pub data Fetched : Type 0 where
  raised : Exc → Fetched
  gave : ℕ → Fetched
  dropped : Fetched

-- The native CancelledError.
abbrev pub native_cancelled : Exc
native_cancelled = user 125

module _ {ℓ} {F : Type ℓ} (cf : ConcurrentFuture F) where
  -- `_drain()` after its await.
  unfoldable pub drain : Fetched → F → F
  drain (raised e) f = cf.set_exception e f
  drain (gave v) f = cf.set_result v f
  drain dropped f = cf.set_exception native_cancelled f

  abbrev spawned : Result Fetched → F → F
  spawned (err e) f = cf.set_exception e f
  spawned (ok x) f = drain x f

  -- `submit` on its new future, up to the end of `_drain`: `_spawn_blocking` raises, or the pool answers.
  unfoldable pub submit : Result Fetched → F → F
  unfolding drain
  submit spawn f =
      let (runs, f') = cf.set_running_or_notify_cancel f in
      if not runs then f' else spawned spawn f'

-- How the call ended.
abbrev pub executed : Result Fetched → Outcome
executed (err e) = failed e
executed (ok (raised e)) = failed e
executed (ok (gave v)) = value v
executed (ok dropped) = failed native_cancelled

spawned-executed {ℓ} :
    {F : Type ℓ} (cf : ConcurrentFuture F)
    → IsConcurrentFuture cf
    → (spawn : Result Fetched) (f : F) → cf.is_running f ≡ true
    → cf.outcome (spawned cf spawn f) ≡ some (executed spawn)
unfolding drain
spawned-executed cf law (err e) f r = law.keeps_exception e f r
spawned-executed cf law (ok (raised e)) f r = law.keeps_exception e f r
spawned-executed cf law (ok (gave v)) f r = law.keeps_result v f r
spawned-executed cf law (ok dropped) f r = law.keeps_exception native_cancelled f r

-- `run_in_executor` loses no outcome: whether the pool refuses the call, runs it to a value or an exception,
-- or drops it, the concurrent future, new and pending, ends with that; and where the handle of the
-- bridge runs while the loop's future is pending, awaiting that future gives the same (for an
-- exception that is not a StopIteration).
pub executor_delivers {ℓ} :
    {F : Type ℓ} (cf : ConcurrentFuture F)
    → IsConcurrentFuture cf
    → (spawn : Result Fetched) (f : F) (afut : ℕ) (w : World ℕ) → cf.is_pending f ≡ true
    → (w.fut afut).state ≡ pending
    → (w.fut afut).exception ≡ none
    → ((e : Exc) → exc_of (executed spawn) ≡ some e → is_stop_iteration e ≡ false)
    → (cf.outcome (submit cf spawn f) ≡ some (executed spawn))
      × (result (run_call afut (on_done (executed spawn)) w) afut ≡ awaited (executed spawn))
unfolding submit
executor_delivers cf law spawn f afut w p s x h =
    let (runs, running) = law.starts f p in
    (
      rw runs (spawned-executed cf law spawn (cf.set_running_or_notify_cancel f).1 running),
      (bridge_mirrors afut (executed spawn) none w s x h).0,
    )
