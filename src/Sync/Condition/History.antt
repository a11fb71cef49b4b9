-- ===== src/Sync/Condition/History.antt =====
-- `Condition` of mt_asyncio/asyncio/_sync.py over histories: tasks that wait, notify, are cancelled, and take and
-- give back its lock.
use mt_asyncio.Prelude.{ℕ, Bool, ◌&&◌, Option, List, [], ◌∷◌, if◌then◌else◌, contains, remove}
use mt_asyncio.Errors.{Result, ok, err}
use mt_asyncio.Futures.{World, create_future, cancel, is_finished, was_cancelled}
use mt_asyncio.Sync.Lock.{Lock}
use mt_asyncio.Sync.Lock
use mt_asyncio.Sync.Condition.{Condition, new, wait, on_cancelled, notify, notify_all}

-- `parked` lists the futures that are awaited in `wait`.
pub record System : Type 0 where
  pub world : World Bool
  pub cond : Condition
  pub parked : List ℕ

-- `throws` is CancelledError at the await of `wait`, `resumes` its end without one; `acquires` and
-- `releases` are calls on the lock.
pub data Event : Type 0 where
  waits notifies_all acquires releases creates : Event
  resumes throws notifies : ℕ → Event
  cancels : ℕ → Option ℕ → Event

abbrev pub settle_waiting : System → Result (ℕ × World Bool × Condition) → System
settle_waiting s (ok (f, w, c)) = record { world = w; cond = c; parked = f ∷ s.parked }
settle_waiting s (err e) = s

abbrev pub settle_notified : System → Result (World Bool × Condition) → System
settle_notified s (ok (w, c)) = record s { world = w; cond = c }
settle_notified s (err e) = s

abbrev pub settle_acquiring : System → Lock.Begun → System
settle_acquiring s (Lock.acquired l) = record s { cond = record (s.cond) { lock = l } }
settle_acquiring s (Lock.parked f w l) = record s { world = w; cond = record (s.cond) { lock = l } }

abbrev pub settle_released : System → Result (World Bool × Lock) → System
settle_released s (ok (w, l)) = record s { world = w; cond = record (s.cond) { lock = l } }
settle_released s (err e) = s

unfoldable pub step : System → Event → System
unfolding wait on_cancelled Lock.acquire create_future cancel
step s waits = settle_waiting s (wait s.world s.cond)
step s (notifies n) = settle_notified s (notify n s.world s.cond)
step s notifies_all = settle_notified s (notify_all s.world s.cond)
step s acquires = settle_acquiring s (Lock.acquire s.world s.cond.lock)
step s releases = settle_released s (Lock.release s.world s.cond.lock)
step s creates = record s { world = (create_future s.world).1 }
step s (resumes f) =
    if is_finished (s.world.fut f).state then record s { parked = remove f s.parked } else s
step s (throws f) =
    if contains f s.parked && was_cancelled s.world f
    then record s { cond = on_cancelled f s.cond; parked = remove f s.parked }
    else s
step s (cancels f msg) = record s { world = (cancel f msg s.world).1 }

unfoldable pub run : System → List Event → System
run s [] = s
run s (e ∷ es) = run (step s e) es

abbrev pub start : World Bool → System
start w = record { world = w; cond = new; parked = [] }
