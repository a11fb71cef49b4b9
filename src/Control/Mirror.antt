-- ===== src/Control/Mirror.antt =====
-- What `shield` of mt_asyncio/asyncio/_ctl.py passes on from the inner task to the outer future.
use mt_asyncio.Prelude.{ℕ, ◌≡◌, refl, false, Option, none, some, arith}
use mt_asyncio.Errors.{Exc, cancelled_error, Result, ok, err}
use mt_asyncio.Futures.{
  World, pending, finished, complete, is_stop_iteration, set_result, set_exception, cancel, result,
}
use mt_asyncio.Control.{Outcome, value, failed, was_cancelled, exc_of, inner_done}

-- What awaiting a future with this outcome gives.
abbrev pub awaited : Outcome → Result (Option ℕ)
awaited (value v) = ok (some v)
awaited (failed e) = err e
awaited was_cancelled = err (cancelled_error none)

-- The outer future of `shield`, pending when the inner one is done, ends as the inner one did (an
-- exception of the inner one is not a StopIteration); if it is cancelled before, it stays as it is,
-- and the inner outcome is dropped. In both cases `_inner_done` does not raise.
pub shield_mirrors :
    (outer : ℕ) (o : Outcome) (msg : Option ℕ) (w : World ℕ)
    → (w.fut outer).state ≡ pending
    → (w.fut outer).exception ≡ none
    → ((e : Exc) → exc_of o ≡ some e → is_stop_iteration e ≡ false)
    → ((w' : World ℕ) × (inner_done outer o w ≡ ok w') × (result w' outer ≡ awaited o))
      × (inner_done outer o (cancel outer msg w).1 ≡ ok (cancel outer msg w).1)
unfolding inner_done set_result set_exception cancel result
shield_mirrors outer (value v) msg w p x h = (
  (
    complete w outer (record (w.fut outer) { result = some v; state = finished }),
    ground (arith, p),
    ground (arith, p, x),
  ),
  ground (arith, p),
)
shield_mirrors outer (failed e) msg w p x h = (
  (
    complete w outer (record (w.fut outer) { exception = some e; state = finished }),
    ground (arith, p, h e refl),
    ground (arith, p),
  ),
  ground (arith, p),
)
shield_mirrors outer was_cancelled msg w p x h =
    (((cancel outer none w).1, ground (arith, p), ground (arith, p)), ground (arith, p))
