-- ===== src/Sync/Condition/Waiting.antt =====
-- No notification of a `Condition` of mt_asyncio/asyncio/_sync.py is lost on a task that waits.
use mt_asyncio.Prelude.{ℕ, ◌<◌, ◌≡◌, true, false, List, contains, Distinct}
use mt_asyncio.Futures.{done}
use mt_asyncio.Sync.Lock.{Lock}
use mt_asyncio.Sync.Lock
use mt_asyncio.Sync.Condition.History.{System}

record Inv (s : System) : Type 0 where
  here :
      (f : ℕ)
      → contains f s.parked ≡ true
      → done s.world f ≡ false
      → contains f s.cond.waiters ≡ true
  known : (f : ℕ) → contains f s.parked ≡ true → f < s.world.next
  below : (f : ℕ) → contains f s.cond.waiters ≡ true → f < s.world.next
  distinct : Distinct s.cond.waiters
  single : Distinct s.parked
