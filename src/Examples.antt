-- ===== src/Examples.antt =====
-- The theorems at concrete inputs, and runs of the models.
mod Futures
mod Sync
mod Queue
mod Tasks
mod Control
mod Shared
mod Streams
mod Compat
mod LifeCycle
mod Process
mod Scheduling
mod Priority
mod Groups
mod Timeouts
mod Condition
mod Tls
mod Pytest
use mt_asyncio.Prelude.{ℕ, none, []}
use mt_asyncio.Futures.{World, new_future}

-- Before any future is made, on a thread outside every `defer_wakes` region.
abbrev pub fresh_world {ℓ} : {A : Type ℓ} → World A
fresh_world = record {
  fut = λ _. new_future;
  next = 0;
  ready = [];
  tls = record { depth = 0; pending_wakes = none };
}
