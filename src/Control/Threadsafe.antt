-- ===== src/Control/Threadsafe.antt =====
-- The bridge from a task to a future of concurrent.futures: `run_coroutine_threadsafe` of
-- mt_asyncio/asyncio/_utils.py. What `concurrent.futures.Future` does is a parameter.
use mt_asyncio.Prelude.{ℕ, ◌≡◌, Bool, true, false, not, Option, none, some, if◌then◌else◌}
use mt_asyncio.Errors.{Exc, type_error, Result, ok, err}
use mt_asyncio.Control.{Outcome, value, failed, was_cancelled}

-- The methods, and what an observer sees: whether it waits to be run, runs, and how it ended.
pub record ConcurrentFuture {ℓ} (F : Type ℓ) : Type ℓ where
  pub is_cancelled : F → Bool
  pub set_running_or_notify_cancel : F → Bool × F
  pub cancel : F → Bool × F
  pub set_exception : Exc → F → F
  pub set_result : ℕ → F → F
  pub is_pending : F → Bool
  pub is_running : F → Bool
  pub outcome : F → Option Outcome

-- The documented behaviour that counts here.
pub record IsConcurrentFuture {ℓ} {F : Type ℓ} (cf : ConcurrentFuture F) : Type ℓ where
  pub starts :
      (f : F)
      → cf.is_pending f ≡ true
      → ((cf.set_running_or_notify_cancel f).0 ≡ true)
        × (cf.is_running (cf.set_running_or_notify_cancel f).1 ≡ true)
  pub pending_alive : (f : F) → cf.is_pending f ≡ true → cf.is_cancelled f ≡ false
  pub running_open : (f : F) → cf.is_running f ≡ true → cf.outcome f ≡ none
  pub running_stays : (f : F) → cf.is_running f ≡ true → cf.cancel f ≡ (false, f)
  pub keeps_result :
      (v : ℕ) (f : F) → cf.is_running f ≡ true → cf.outcome (cf.set_result v f) ≡ some (value v)
  pub keeps_exception :
      (e : Exc) (f : F)
      → cf.is_running f ≡ true
      → cf.outcome (cf.set_exception e f) ≡ some (failed e)

module _ {ℓ} {F : Type ℓ} (cf : ConcurrentFuture F) where
  abbrev passed_on : Outcome → F → F
  passed_on was_cancelled f = (cf.cancel f).1
  passed_on (failed e) f = cf.set_exception e f
  passed_on (value v) f = cf.set_result v f

  -- `_chain(task)`, of a task that ended so.
  unfoldable pub chain : Outcome → F → F
  chain o f =
      let (runs, f') = cf.set_running_or_notify_cancel f in
      if cf.is_cancelled f then f else if not runs then f' else passed_on o f'

  -- `_callback()`, by what `create_task` gives: the task to chain, or the exception that goes on.
  unfoldable pub callback : Result ℕ → F → Result ℕ × F
  callback (ok task) f = (ok task, f)
  callback (err e) f =
      let (runs, f') = cf.set_running_or_notify_cancel f in
      (err e, if runs then cf.set_exception e f' else f')

-- `run_coroutine_threadsafe` gives a new future, or raises.
unfoldable pub run_coroutine_threadsafe {ℓ} : {F : Type ℓ} → Bool → F → Result F
run_coroutine_threadsafe is_coroutine f = if is_coroutine then ok f else err type_error

-- What reaches the thread that waits for the future.
abbrev pub delivered : Outcome → Option Outcome
delivered (value v) = some (value v)
delivered (failed e) = some (failed e)
delivered was_cancelled = none

passed_on-delivered {ℓ} :
    {F : Type ℓ} (cf : ConcurrentFuture F)
    → IsConcurrentFuture cf
    → (o : Outcome) (f : F) → cf.is_running f ≡ true
    → cf.outcome (passed_on cf o f) ≡ delivered o
passed_on-delivered cf law (value v) f r = law.keeps_result v f r
passed_on-delivered cf law (failed e) f r = law.keeps_exception e f r
passed_on-delivered cf law was_cancelled f r =
    rw (passed_on, law.running_stays f r) (law.running_open f r)

-- The value or the exception of the task reaches a future that still waits to be run. A cancellation of the
-- task does not: the future is set running first, a running future refuses its `cancel`, and it never
-- ends. An exception of `create_task` reaches it too.
pub chain_delivers {ℓ} :
    {F : Type ℓ} (cf : ConcurrentFuture F)
    → IsConcurrentFuture cf
    → (o : Outcome) (e : Exc) (f : F) → cf.is_pending f ≡ true
    → (cf.outcome (chain cf o f) ≡ delivered o)
      × (cf.outcome (callback cf (err e) f).1 ≡ some (failed e))
unfolding chain callback
chain_delivers cf law o e f p =
    let (runs, running) = law.starts f p in
    let f' = (cf.set_running_or_notify_cancel f).1 in
    (
      rw (law.pending_alive f p, runs) (passed_on-delivered cf law o f' running),
      rw runs (law.keeps_exception e f' running),
    )
