-- ===== src/Sync/Queue/History.antt =====
-- Histories of `Queue` of mt_asyncio/asyncio/_sync.py: any calls on any threads, in the order in
-- which their critical sections run.
use mt_asyncio.Prelude.{ℕ, ◌+◌, Bool, Option, List, [], ◌∷◌, ◌++◌}
use mt_asyncio.Errors.{Result, ok, err}
use mt_asyncio.Futures.{World, cancel}
use mt_asyncio.Sync.Queue.{
  Hooks, Queue, Put, stored, parked, Got, got, waits, new, put, put_nowait, get, get_nowait,
  put_cancelled, get_cancelled, task_done,
}

-- `accepted` lists the items that were stored and `delivered` those that were returned, oldest
-- first; `dones` counts the calls of `task_done` that returned.
pub record System (Item Store : Type 0) : Type 0 where
  pub world : World Bool
  pub queue : Queue Store
  pub accepted : List Item
  pub delivered : List Item
  pub dones : ℕ

-- `puts` and `gets` are one round of their loop: a task that is woken runs the next round.
pub data Op (Item : Type 0) : Type 0 where
  puts puts_nowait : Item → Op Item
  gets gets_nowait : Op Item
  throws_put throws_get : ℕ → Op Item
  dones_task : Op Item
  cancels : ℕ → Option ℕ → Op Item

module _ {Item Store : Type 0} where
  abbrev settle_put : System Item Store → Item → Result (Put Store) → System Item Store
  settle_put s a (ok (stored w q)) = record s {
    world = w;
    queue = q;
    accepted = s.accepted ++ a ∷ [];
  }
  settle_put s a (ok (parked f w q)) = record s { world = w; queue = q }
  settle_put s a (err e) = s

  abbrev settle_put_nowait :
      System Item Store → Item → Result (World Bool × Queue Store) → System Item Store
  settle_put_nowait s a (ok (w, q)) = record s {
    world = w;
    queue = q;
    accepted = s.accepted ++ a ∷ [];
  }
  settle_put_nowait s a (err e) = s

  abbrev settle_got : System Item Store → Result (Got Item Store) → System Item Store
  settle_got s (ok (got a w q)) = record s {
    world = w;
    queue = q;
    delivered = s.delivered ++ a ∷ [];
  }
  settle_got s (ok (waits f w q)) = record s { world = w; queue = q }
  settle_got s (err e) = s

  abbrev settle_got_nowait :
      System Item Store → Result (Item × World Bool × Queue Store) → System Item Store
  settle_got_nowait s (ok (a, w, q)) = record s {
    world = w;
    queue = q;
    delivered = s.delivered ++ a ∷ [];
  }
  settle_got_nowait s (err e) = s

  abbrev settle_done : System Item Store → Result (World Bool × Queue Store) → System Item Store
  settle_done s (ok (w, q)) = record s { world = w; queue = q; dones = s.dones + 1 }
  settle_done s (err e) = s

module _ {Item Store : Type 0} (h : Hooks Item Store) where
  -- A call that raises changes nothing.
  unfoldable pub step : System Item Store → Op Item → System Item Store
  unfolding put put_nowait get get_nowait put_cancelled get_cancelled task_done cancel
  step s (puts a) = settle_put s a (put h a s.world s.queue)
  step s (puts_nowait a) = settle_put_nowait s a (put_nowait h a s.world s.queue)
  step s gets = settle_got s (get h s.world s.queue)
  step s gets_nowait = settle_got_nowait s (get_nowait h s.world s.queue)
  step s (throws_put f) = record s { queue = put_cancelled f s.queue }
  step s (throws_get f) = record s { queue = get_cancelled f s.queue }
  step s dones_task = settle_done s (task_done s.world s.queue)
  step s (cancels f msg) = record s { world = (cancel f msg s.world).1 }

  unfoldable pub run : System Item Store → List (Op Item) → System Item Store
  run s [] = s
  run s (o ∷ os) = run (step s o) os

  abbrev pub start : World Bool → ℕ → System Item Store
  start w maxsize = record {
    world = w;
    queue = new h maxsize;
    accepted = [];
    delivered = [];
    dones = 0;
  }
