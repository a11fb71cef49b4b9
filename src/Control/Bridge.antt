-- ===== src/Control/Bridge.antt =====
-- The bridge from concurrent.futures to the loop's futures: `_wrap_concurrent_future` of
-- mt_asyncio/asyncio/_loop.py.
use mt_asyncio.Prelude.{ℕ, ◌≡◌, refl, false, Option, none, some, arith}
use mt_asyncio.Errors.{Exc, Result, ok, err}
use mt_asyncio.Futures.{
  World, pending, instance_of, is_stop_iteration, set_result, set_exception, cancel, result,
}
use mt_asyncio.Control.{Outcome, value, failed, was_cancelled, exc_of}
use mt_asyncio.Control.Mirror.{awaited}

-- What `_on_done` passes to `call_soon`.
pub data Call : Type 0 where
  cancels : Call
  sets_exception : Exc → Call
  sets_result : ℕ → Call

-- `_on_done(cf)`, of a concurrent future that ended so.
unfoldable pub on_done : Outcome → Call
on_done was_cancelled = cancels
on_done (failed e) = sets_exception e
on_done (value v) = sets_result v

-- `Handle._run`: an exception that the call raises is printed, and the world stays.
abbrev swallowed : World ℕ → Result (World ℕ) → World ℕ
swallowed w (ok w') = w'
swallowed w (err e) = w

unfoldable pub run_call : ℕ → Call → World ℕ → World ℕ
unfolding cancel set_exception set_result
run_call f cancels w = (cancel f none w).1
run_call f (sets_exception e) w = swallowed w (set_exception f (instance_of e) w)
run_call f (sets_result v) w = swallowed w (set_result f v w)

-- The bridge passes the outcome on: where the handle runs while the loop's future is pending (an exception
-- that is not a StopIteration), awaiting it gives what the concurrent future ended with; where it is
-- done before, by a cancellation or otherwise, the late handle changes nothing.
pub bridge_mirrors :
    (f : ℕ) (o : Outcome) (msg : Option ℕ) (w : World ℕ)
    → (w.fut f).state ≡ pending
    → (w.fut f).exception ≡ none
    → ((e : Exc) → exc_of o ≡ some e → is_stop_iteration e ≡ false)
    → (result (run_call f (on_done o) w) f ≡ awaited o)
      × (run_call f (on_done o) (cancel f msg w).1 ≡ (cancel f msg w).1)
unfolding run_call on_done result
bridge_mirrors f (value v) msg w p x h = (ground (arith, p, x), ground (arith, p))
bridge_mirrors f (failed e) msg w p x h = (ground (arith, p, h e refl), ground (arith, p, h e refl))
bridge_mirrors f was_cancelled msg w p x h = (ground (arith, p), ground (arith, p))
