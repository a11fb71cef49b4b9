-- ===== src/Sync.antt =====
-- mt_asyncio/asyncio/_sync.py: the loop that every primitive there runs over its deque of waiters.
-- The primitives are the modules below. A method's `with self._mu` block is one step, in which no
-- other thread touches the primitive or completes one of its futures.
pub mod Handover
pub mod Semaphore
pub mod Lock
pub mod Bounded
pub mod Event
pub mod Condition
pub mod Queue
use mt_asyncio.Prelude.{ℕ, Bool, true, false, List, [], ◌∷◌, if◌then◌else◌}
use mt_asyncio.Errors.{Result, ok, err, ◌>>=◌}
use mt_asyncio.Futures.{World, done, set_result}

-- What is left of the deque and the world, and the future that was completed, if one was.
pub record Handed {ℓ} (A : Type ℓ) : Type ℓ where
  pub granted : Bool
  pub waiters : List ℕ
  pub world : World A

-- `while self._waiters: fut = popleft(); if not fut.done(): fut.set_result(v); return`
unfoldable pub hand_over {ℓ} : {A : Type ℓ} → A → List ℕ → World A → Result (Handed A)
hand_over v [] w = ok (record { granted = false; waiters = []; world = w })
hand_over v (f ∷ fs) w =
    if done w f
    then hand_over v fs w
    else (set_result f v w >>= λ w'. ok (record { granted = true; waiters = fs; world = w' }))
