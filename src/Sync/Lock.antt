-- ===== src/Sync/Lock.antt =====
-- mt_asyncio/asyncio/_sync.py, `Lock`: its methods, and a system of any number of tasks that
-- acquire and release one lock and are cancelled at any time.
pub mod Refines
use mt_asyncio.Prelude.{
  ℕ, ◌+◌, ◌-◌, Bool, true, false, not, ◌&&◌, List, [], ◌∷◌, ◌++◌, ◌==◌, if◌then◌else◌, contains,
  remove,
}
use mt_asyncio.Errors.{Result, ok, err, ◌>>=◌}
use mt_asyncio.Futures.{World, create_future, cancel, done, was_cancelled, is_finished}
use mt_asyncio.Sync.{hand_over}
use mt_asyncio.Sync.Semaphore.{Event, is_empty}

pub record Lock : Type 0 where
  pub is_locked : Bool
  pub waiters : List ℕ

-- `Lock()`
abbrev pub new : Lock
new = record { is_locked = false; waiters = [] }

-- The first critical section of `acquire`: the lock at once, or a future to await.
pub data Begun : Type 0 where
  acquired : Lock → Begun
  parked : ℕ → World Bool → Lock → Begun

unfoldable pub acquire : World Bool → Lock → Begun
unfolding create_future
acquire w l =
    if not l.is_locked && is_empty l.waiters
    then acquired (record l { is_locked = true })
    else let (f, w') = create_future w in parked f w' (record l { waiters = l.waiters ++ f ∷ [] })

-- The critical section of `except CancelledError` in `acquire`, and whether `self.release()`
-- follows.
unfoldable pub on_cancelled : ℕ → World Bool → Lock → Bool × Lock
on_cancelled f w l =
    if contains f l.waiters
    then (false, record l { waiters = remove f l.waiters })
    else (done w f && not (was_cancelled w f), l)

unfoldable pub release : World Bool → Lock → Result (World Bool × Lock)
release w l = hand_over true l.waiters w >>= λ h.
    ok (
      h.world,
      record { is_locked = if h.granted then l.is_locked else false; waiters = h.waiters },
    )

-- As `Semaphore.System`: the tasks are counted, not named.
pub record System : Type 0 where
  pub world : World Bool
  pub lock : Lock
  pub holders : ℕ
  pub unwinding : ℕ
  pub open_waits : List ℕ

abbrev pub settle_begun : System → Begun → System
settle_begun s (acquired l) = record s { lock = l; holders = s.holders + 1 }
settle_begun s (parked f w l) = record s { world = w; lock = l; open_waits = f ∷ s.open_waits }

abbrev pub settle_thrown : System → ℕ → Bool × Lock → System
settle_thrown s f (granted, l) = record s {
  lock = l;
  unwinding = if granted then s.unwinding + 1 else s.unwinding;
  open_waits = remove f s.open_waits;
}

-- A `release` that raises leaves the system as it was.
abbrev pub settle_released : System → Result (World Bool × Lock) → System → System
settle_released s (ok (w, l)) t = record t { world = w; lock = l }
settle_released s (err e) t = s

unfoldable pub step : System → Event → System
unfolding acquire on_cancelled release create_future cancel
step s Event.acquires = settle_begun s (acquire s.world s.lock)
step s (Event.resumes f) =
    if contains f s.open_waits && is_finished (s.world.fut f).state
    then record s { holders = s.holders + 1; open_waits = remove f s.open_waits }
    else s
step s (Event.throws f) =
    if contains f s.open_waits then settle_thrown s f (on_cancelled f s.world s.lock) else s
step s Event.leaves =
    if s.holders == 0
    then s
    else settle_released s (release s.world s.lock) (record s { holders = s.holders - 1 })
step s Event.unwinds =
    if s.unwinding == 0
    then s
    else settle_released s (release s.world s.lock) (record s { unwinding = s.unwinding - 1 })
step s Event.creates = record s { world = (create_future s.world).1 }
step s (Event.cancels f msg) = record s { world = (cancel f msg s.world).1 }

unfoldable pub run : System → List Event → System
run s [] = s
run s (e ∷ es) = run (step s e) es

abbrev pub start : World Bool → System
start w = record { world = w; lock = new; holders = 0; unwinding = 0; open_waits = [] }
