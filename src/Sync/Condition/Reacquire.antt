-- ===== src/Sync/Condition/Reacquire.antt =====
-- The lock of a `Condition` of mt_asyncio/asyncio/_sync.py around `wait`: the acquisition in its `finally`, a
-- cancellation there, and the `__aexit__` that follows.
use mt_asyncio.Prelude.{
  ℕ, ◌+◌, ◌≤◌, ◌≡◌, ◌⊎◌, inl, inr, refl, Bool, true, false, Option, List, [], ◌∷◌, arith, ltb,
  length, Bool-cases, contains, remove,
}
use mt_asyncio.Errors.{Result, ok, ◌>>=◌}
use mt_asyncio.Futures.{World, done, cancel}
use mt_asyncio.Sync.Handover.{given, done-given, set_result-given, hand_over_lem}
use mt_asyncio.Sync.Lock.{Lock}
use mt_asyncio.Sync.Lock
use mt_asyncio.Sync.Condition.Notify.{wake_each_lem}
use mt_asyncio.Sync.Condition.{Condition, notify_loop, notify, wake_each, notify_all}

-- The `finally` of `wait` up to its await.
unfoldable pub reacquire : World Bool → Condition → Lock.Begun
unfolding Lock.acquire
reacquire w c = Lock.acquire w c.lock

-- A CancelledError at that await, on the lock's future `f`: whether the lock was granted, and is released
-- again. It leaves `wait`.
unfoldable pub reacquire_cancelled : ℕ → World Bool → Condition → Bool × Condition
unfolding Lock.on_cancelled
reacquire_cancelled f w c =
    let (granted, l) = Lock.on_cancelled f w c.lock in (granted, record c { lock = l })

-- `__aexit__`
unfoldable pub leave : World Bool → Condition → Result (World Bool × Condition)
unfolding Lock.release
leave w c = Lock.release w c.lock >>= λ r. ok (r.0, record c { lock = r.1 })

-- A release of the lock succeeds: the lock is free, or a pending waiter is granted it.
leave_lem :
    (w : World Bool) (c : Condition)
    → (w' : World Bool) × (c' : Condition) × (leave w c ≡ ok (w', c'))
      × ((c'.lock.is_locked ≡ false) ⊎ ((g : ℕ) × (done w g ≡ false) × (done w' g ≡ true)))
unfolding leave Lock.release
leave_lem w c = elim (hand_over_lem true c.lock.waiters w) [
  | inl (e, all) ↦
      (w, record c { lock = record { is_locked = false; waiters = [] } }, rw e refl, inl refl)
  | inr (g, rest, e, s) ↦ (
    given w g true,
    record c { lock = record { is_locked = c.lock.is_locked; waiters = rest } },
    rw e refl,
    inr (g, s.waiting, ground (arith, done-given w g true g)),
  )
]

-- A waiter that is cancelled while it waits for the lock again leaves `wait` without the lock, which another
-- task has; and the `__aexit__` of its `async with` then frees that lock, or gives it to a third task.
pub second_cancel_breaks_lock :
    (f : ℕ) (msg : Option ℕ) (w : World Bool) (c : Condition)
    → contains f c.lock.waiters ≡ true
    → c.lock.is_locked ≡ true
    → let w₁ = (cancel f msg w).1 in
      let (granted, c₁) = reacquire_cancelled f w₁ c in
      (granted ≡ false)
      × (c₁.lock.is_locked ≡ true)
      × ((w₂ : World Bool) × (c₂ : Condition) × (leave w₁ c₁ ≡ ok (w₂, c₂))
          × ((c₂.lock.is_locked ≡ false) ⊎ ((g : ℕ) × (done w₁ g ≡ false) × (done w₂ g ≡ true))))
unfolding reacquire_cancelled Lock.on_cancelled
second_cancel_breaks_lock f msg w c h l =
    let w₁ = (cancel f msg w).1 in
    let c₁ : Condition = record c {
      lock = record (c.lock) { waiters = remove f c.lock.waiters };
    } in
    rw h (refl, l, leave_lem w₁ c₁)

notify_loop-wake_each :
    (count n : ℕ) (fs : List ℕ) (w : World Bool)
    → count + length fs ≤ n
    → notify_loop count n fs w ≡ (wake_each fs w >>= λ w'. ok ([], w'))
unfolding notify_loop wake_each
notify_loop-wake_each count n [] w h = refl
notify_loop-wake_each count n (f ∷ fs) w h =
    let more : ltb count n ≡ true = ground (arith, h) in
    elim (Bool-cases (done w f)) [
      | inl e ↦ rw (more, e) (notify_loop-wake_each count n fs w (omega (arith, h)))
      | inr e ↦
          rw (more, e, set_result-given w f true e)
            (notify_loop-wake_each (count + 1) n fs (given w f true) (omega (arith, h)))
    ]

-- `notify_all()`, which copies and clears the deque first, does what `notify(n)` does with an `n` as large as
-- the deque or larger.
pub notify_all-notify :
    (n : ℕ) (w : World Bool) (c : Condition) → length c.waiters ≤ n → notify_all w c ≡ notify n w c
unfolding notify_all notify
notify_all-notify n w c h =
    let (w', e, all) = wake_each_lem c.waiters w in
    rw (notify_loop-wake_each 0 n c.waiters w (omega (arith, h)), e) refl
