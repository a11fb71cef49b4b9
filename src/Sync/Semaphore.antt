-- ===== src/Sync/Semaphore.antt =====
-- mt_asyncio/asyncio/_sync.py, `Semaphore`: its methods, and a system of any number of tasks that
-- acquire and release one semaphore and are cancelled at any time.
pub mod Permits
pub mod Safety
use mt_asyncio.Prelude.{
  ℕ, ◌+◌, ◌-◌, Bool, true, false, not, ◌&&◌, ◌||◌, Option, List, [], ◌∷◌, ◌++◌, ltb, ◌==◌,
  if◌then◌else◌, contains, remove, count_if,
}
use mt_asyncio.Errors.{Result, ok, err, ◌>>=◌}
use mt_asyncio.Futures.{World, create_future, cancel, done, was_cancelled, is_finished}
use mt_asyncio.Sync.{hand_over}

pub record Semaphore : Type 0 where
  pub value : ℕ
  pub waiters : List ℕ

-- `Semaphore(value)` with `value >= 0`.
abbrev pub new : ℕ → Semaphore
new value = record { value = value; waiters = [] }

abbrev pub is_empty {ℓ} : {A : Type ℓ} → List A → Bool
is_empty [] = true
is_empty (x ∷ xs) = false

-- `any(not w.cancelled() for w in self._waiters)`
abbrev pub any_live : World Bool → List ℕ → Bool
any_live w [] = false
any_live w (f ∷ fs) = not (was_cancelled w f) || any_live w fs

unfoldable pub locked : World Bool → Semaphore → Bool
locked w s = (s.value == 0) || any_live w s.waiters

-- The first critical section of `acquire`: a permit at once, or a future to await.
pub data Begun : Type 0 where
  acquired : Semaphore → Begun
  parked : ℕ → World Bool → Semaphore → Begun

unfoldable pub acquire : World Bool → Semaphore → Begun
unfolding create_future
acquire w s =
    if ltb 0 s.value && is_empty s.waiters
    then acquired (record s { value = s.value - 1 })
    else let (f, w') = create_future w in parked f w' (record s { waiters = s.waiters ++ f ∷ [] })

-- The critical section of `except CancelledError` in `acquire`, and whether `self.release()`
-- follows.
unfoldable pub on_cancelled : ℕ → World Bool → Semaphore → Bool × Semaphore
on_cancelled f w s =
    if contains f s.waiters
    then (false, record s { waiters = remove f s.waiters })
    else (done w f && not (was_cancelled w f), s)

unfoldable pub release : World Bool → Semaphore → Result (World Bool × Semaphore)
release w s = hand_over true s.waiters w >>= λ h.
    ok (h.world, record { value = if h.granted then s.value else s.value + 1; waiters = h.waiters })

-- The tasks are counted, not named: `holders` have returned from `acquire` and will release,
-- `unwinding` are between the critical section of the handler and its `release`, and `open` lists
-- the futures that are awaited in `acquire`.
pub record System : Type 0 where
  pub world : World Bool
  pub semaphore : Semaphore
  pub holders : ℕ
  pub unwinding : ℕ
  pub open_waits : List ℕ

-- `creates` and `cancels` are what other code does to futures: it never completes a private one.
pub data Event : Type 0 where
  acquires : Event
  resumes : ℕ → Event
  throws : ℕ → Event
  leaves unwinds creates : Event
  cancels : ℕ → Option ℕ → Event

abbrev pub settle_begun : System → Begun → System
settle_begun s (acquired sem) = record s { semaphore = sem; holders = s.holders + 1 }
settle_begun s (parked f w sem) = record s {
  world = w;
  semaphore = sem;
  open_waits = f ∷ s.open_waits;
}

abbrev pub settle_thrown : System → ℕ → Bool × Semaphore → System
settle_thrown s f (granted, sem) = record s {
  semaphore = sem;
  unwinding = if granted then s.unwinding + 1 else s.unwinding;
  open_waits = remove f s.open_waits;
}

-- A `release` that raises leaves the system as it was.
abbrev pub settle_released : System → Result (World Bool × Semaphore) → System → System
settle_released s (ok (w, sem)) t = record t { world = w; semaphore = sem }
settle_released s (err e) t = s

-- An event that cannot happen in the state changes nothing. `await fut` returns if `fut` is
-- finished, and may raise CancelledError in any state (a pending `_must_cancel`).
unfoldable pub step : System → Event → System
unfolding acquire on_cancelled release create_future cancel
step s acquires = settle_begun s (acquire s.world s.semaphore)
step s (resumes f) =
    if contains f s.open_waits && is_finished (s.world.fut f).state
    then record s { holders = s.holders + 1; open_waits = remove f s.open_waits }
    else s
step s (throws f) =
    if contains f s.open_waits then settle_thrown s f (on_cancelled f s.world s.semaphore) else s
step s leaves =
    if s.holders == 0
    then s
    else settle_released s (release s.world s.semaphore) (record s { holders = s.holders - 1 })
step s unwinds =
    if s.unwinding == 0
    then s
    else settle_released s (release s.world s.semaphore) (record s { unwinding = s.unwinding - 1 })
step s creates = record s { world = (create_future s.world).1 }
step s (cancels f msg) = record s { world = (cancel f msg s.world).1 }

unfoldable pub run : System → List Event → System
run s [] = s
run s (e ∷ es) = run (step s e) es

abbrev pub start : World Bool → ℕ → System
start w n = record { world = w; semaphore = new n; holders = 0; unwinding = 0; open_waits = [] }

-- The permits handed to a task that has not resumed yet.
abbrev pub granted : System → ℕ
granted s = count_if (λ f. is_finished (s.world.fut f).state) s.open_waits
