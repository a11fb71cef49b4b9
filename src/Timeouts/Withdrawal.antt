-- ===== src/Timeouts/Withdrawal.antt =====
-- A `Timeout` of mt_asyncio/asyncio/_timeouts.py over a task of mt_asyncio/asyncio/_tasks.py: a deadline that
-- passes after the body's last await.
use mt_asyncio.Prelude.{
  ℕ, suc, inl, inr, Bool-cases, not, ◌≡◌, Bool, true, false, Option, none, some, arith, ltb, ◌==◌,
  if◌then◌else◌,
}
use mt_asyncio.Errors.{Result, ok}
use mt_asyncio.Futures.{World, is_pending, is_cancelled, complete, set_result}
use mt_asyncio.Futures
use mt_asyncio.Sync.Handover.{given}
use mt_asyncio.Timeouts.{Timeout, entered, exit_locked, exit_result, on_timeout}
use mt_asyncio.Tasks.{
  Task, Runtime, must_cancel_of, cancel, uncancel, cancelling, returned, finish, set_must_cancel,
  request, unmark,
}

module _ {ℓ} {A : Type ℓ} where
  abbrev with_timeout : Timeout → Option (Bool × Runtime A) → Option (Timeout × Runtime A)
  with_timeout t none = none
  with_timeout t (some (b, r)) = some (t, r)

  -- `_on_timeout` of the scope that the task `i` has entered; the fuel is that of `Task.cancel`.
  unfoldable pub fire : ℕ → ℕ → Timeout → Runtime A → Option (Timeout × Runtime A)
  unfolding on_timeout cancel
  fire fuel i t r =
      let (asks, t') = on_timeout t in
      if asks then with_timeout t' (cancel fuel i none r) else some (t', r)

  -- `__aexit__`: `by_cancel` says that the body ended by CancelledError.
  unfoldable pub leave_scope :
      ℕ → Bool → Timeout → Runtime A → Result (Unit {0}) × Timeout × Runtime A
  unfolding exit_locked exit_result uncancel
  leave_scope i by_cancel t r =
      let (won, handle, t') = exit_locked t in
      let (left, r') = uncancel i r in
      if won then (exit_result left by_cancel, t', r') else (ok tt, t', r)

  -- A deadline that passes while the task runs in the scope, of which the body is not told before
  -- it ends: `__aexit__` takes the request back, and a task that then returns ends with its value,
  -- unless `n > 0` requests of others were outstanding. In that case it is cancelled, by the
  -- request that was taken back.
  pub withdrawn_iff :
      (fuel i n : ℕ) (t : Timeout) (k : Task) (v : A) (r : Runtime A)
      → t.state ≡ entered
      → r.task i ≡ some k
      → k.fut_waiter ≡ none
      → k.must_cancel ≡ false
      → k.num_cancels_requested ≡ n
      → is_pending (r.world.fut i).state ≡ true
      → (t₁ : Timeout) × (r₁ : Runtime A) × (fire (suc fuel) i t r ≡ some (t₁, r₁))
        × (let (res, t₂, r₂) = leave_scope i false t₁ r₁ in
            (res ≡ ok tt)
            × (cancelling i r₂ ≡ n)
            × ((r₃ : Runtime A) × (finish i (returned v) r₂ ≡ ok r₃)
                × (is_cancelled (r₃.world.fut i).state ≡ ltb 0 n)))
  unfolding fire leave_scope cancelling finish set_must_cancel set_result Futures.cancel given
      complete
  withdrawn_iff fuel i n t k v r e p w m q s =
      let t₁ = (on_timeout t).1 in
      let r₁ = set_must_cancel i (request i k none r) in
      let r₂ = (leave_scope i false t₁ r₁).2 in
      let marked : must_cancel_of (r₂.task i) ≡ not (n == 0) = ground (arith, e, p, q) in
      let alive : is_pending (r₂.world.fut i).state ≡ true = ground (arith, e, p, s) in
      (
        t₁,
        r₁,
        ground (arith, e, p, w, s),
        (
          ground (arith, e),
          ground (arith, e, p, q),
          elim (Bool-cases (n == 0)) [
            | inl z ↦ (
              record (unmark (r₂.task i) i r₂) { world = given r₂.world i v },
              ground (arith, marked, z, alive),
              ground (arith, z),
            )
            | inr z ↦ (
              record (unmark (r₂.task i) i r₂) {
                world = (Futures.cancel i (r₂.world.fut i).cancel_message r₂.world).1;
              },
              ground (arith, marked, z),
              ground (arith, z, alive),
            )
          ],
        ),
      )
