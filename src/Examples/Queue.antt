-- ===== src/Examples/Queue.antt =====
-- Conditions and queues: the theorems of `Sync.Condition` and `Sync.Queue` at concrete states.
use mt_asyncio.Prelude.{ℕ, ◌≡◌, refl, true, false, List, [], ◌∷◌, ◌++◌}
use mt_asyncio.Futures.{set_result}
use mt_asyncio.Sync.{hand_over}
use mt_asyncio.Sync.Lock.{Lock}
use mt_asyncio.Sync.Lock
use mt_asyncio.Sync.Condition.{Condition}
use mt_asyncio.Sync.Queue.{Queue}
use mt_asyncio.Sync.Queue.Storage.{fifo}
use mt_asyncio.Sync.Queue.History.{
  System, Op, puts, puts_nowait, gets, dones_task, step, run, start,
}
use mt_asyncio.Sync.Queue.Fifo.{fifo_order}
use mt_asyncio.Examples.{fresh_world}

-- Three tasks wait on a condition.
abbrev three_waiters : Condition
three_waiters = record { lock = Lock.new; waiters = 0 ∷ 1 ∷ 2 ∷ [] }

-- A getter comes first and parks; three puts follow, of which the last parks; the getter retries.
abbrev traffic : List (Op ℕ)
traffic = gets ∷ puts 5 ∷ puts_nowait 6 ∷ puts 7 ∷ gets ∷ dones_task ∷ []

abbrev after : System ℕ (List ℕ)
after = run fifo (start fifo fresh_world 2) traffic

traffic_delivers : (after.delivered ≡ 5 ∷ []) × (after.queue.store ≡ 6 ∷ [])
unfolding run step hand_over set_result
traffic_delivers = (refl, refl)

fifo_order_example : after.accepted ≡ after.delivered ++ after.queue.store
fifo_order_example = fifo_order fresh_world 2 traffic

abbrev stack : Queue (List ℕ)
stack = record {
  maxsize = 0;
  store = 4 ∷ [];
  getters = [];
  putters = [];
  unfinished = 1;
  finished = record { value = false; waiters = [] };
}

abbrev taller : Queue (List ℕ)
taller = record {
  maxsize = 0;
  store = 4 ∷ 9 ∷ [];
  getters = [];
  putters = [];
  unfinished = 2;
  finished = record { value = false; waiters = [] };
}

-- Two getters are parked.
abbrev hungry : Queue (List ℕ)
hungry = record {
  maxsize = 0;
  store = [];
  getters = 0 ∷ 1 ∷ [];
  putters = [];
  unfinished = 0;
  finished = record { value = true; waiters = [] };
}

-- One item was taken and is being worked on; then it is done; then another one comes.
abbrev working : Queue (List ℕ)
working = record {
  maxsize = 0;
  store = [];
  getters = [];
  putters = [];
  unfinished = 1;
  finished = record { value = false; waiters = [] };
}

abbrev counted_down : Queue (List ℕ)
counted_down = record working { unfinished = 0 }

abbrev refilled : Queue (List ℕ)
refilled = record working { store = 8 ∷ [] }
