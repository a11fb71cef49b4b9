-- ===== src/Errors.antt =====
-- The exceptions that the modules of mt_asyncio/asyncio raise, and a raising computation.
use mt_asyncio.Prelude.{ℕ, Option}

-- `cancelled_error` carries the message of the cancellation; `user` is any other exception.
pub data Exc : Type 0 where
  cancelled_error : Option ℕ → Exc
  invalid_state_error runtime_error value_error type_error timeout_error : Exc
  queue_empty queue_full index_error : Exc
  system_exit keyboard_interrupt stop_iteration : Exc
  user : ℕ → Exc

pub data Result {ℓ} (A : Type ℓ) : Type ℓ where
  ok : A → Result A
  err : Exc → Result A

infixl 5 ◌>>=◌
abbrev pub ◌>>=◌ {ℓ κ} : {A : Type ℓ} {B : Type κ} → Result A → (A → Result B) → Result B
ok a >>= f = f a
err e >>= f = err e
