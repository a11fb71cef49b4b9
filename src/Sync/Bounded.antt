-- ===== src/Sync/Bounded.antt =====
-- mt_asyncio/asyncio/_sync.py, `BoundedSemaphore`: `Semaphore` with a `release` that refuses to
-- pass the initial value. Its callers may release more often than they acquired.
use mt_asyncio.Prelude.{
  ℕ, ◌+◌, ◌<◌, ◌≤◌, ◌≡◌, ◌↔◌, ◌⊎◌, inl, inr, refl, Bool, true, false, ◌&&◌, Option, List, [], ◌∷◌,
  arith, leb, if◌then◌else◌, All,
}
use mt_asyncio.Errors.{Result, ok, err, value_error, ◌>>=◌}
use mt_asyncio.Futures.{World, cancel, create_future, done}
use mt_asyncio.Sync.{hand_over}
use mt_asyncio.Sync.Handover.{hand_over_lem, Served-member, All-contains}
use mt_asyncio.Sync.Semaphore.{
  Semaphore, new, is_empty, Begun, acquired, parked, acquire, on_cancelled,
}

pub record BoundedSemaphore : Type 0 where
  pub semaphore : Semaphore
  pub bound : ℕ

-- `BoundedSemaphore(value)` with `value >= 0`.
abbrev pub new_bounded : ℕ → BoundedSemaphore
new_bounded value = record { semaphore = new value; bound = value }

unfoldable pub release : World Bool → BoundedSemaphore → Result (World Bool × BoundedSemaphore)
release w b =
    if is_empty b.semaphore.waiters && leb b.bound b.semaphore.value
    then err value_error
    else (hand_over true b.semaphore.waiters w >>= λ h. ok (
      h.world,
      record b {
        semaphore = record {
          value = if h.granted then b.semaphore.value else b.semaphore.value + 1;
          waiters = h.waiters;
        };
      },
    ))

pub record System : Type 0 where
  pub world : World Bool
  pub bounded : BoundedSemaphore

pub data Event : Type 0 where
  acquires releases : Event
  throws : ℕ → Event
  cancels : ℕ → Option ℕ → Event

abbrev settle_begun : System → Begun → System
settle_begun s (acquired sem) = record s { bounded = record (s.bounded) { semaphore = sem } }
settle_begun s (parked f w sem) = record {
  world = w;
  bounded = record (s.bounded) { semaphore = sem };
}

abbrev settle_released : System → Result (World Bool × BoundedSemaphore) → System
settle_released s (ok (w, b)) = record { world = w; bounded = b }
settle_released s (err e) = s

-- Any task may release at any time, whether it holds a permit or not.
unfoldable pub step : System → Event → System
unfolding acquire on_cancelled release create_future cancel
step s acquires = settle_begun s (acquire s.world s.bounded.semaphore)
step s releases = settle_released s (release s.world s.bounded)
step s (throws f) = record s {
  bounded = record (s.bounded) { semaphore = (on_cancelled f s.world s.bounded.semaphore).1 };
}
step s (cancels f msg) = record s { world = (cancel f msg s.world).1 }

unfoldable pub run : System → List Event → System
run s [] = s
run s (e ∷ es) = run (step s e) es

abbrev pub start : World Bool → ℕ → System
start w n = record { world = w; bounded = new_bounded n }

record Inv (n : ℕ) (s : System) : Type 0 where
  fixed : s.bounded.bound ≡ n
  within : s.bounded.semaphore.value ≤ n
  idle : (s.bounded.semaphore.value ≡ 0) ⊎ (s.bounded.semaphore.waiters ≡ [])

releases-Inv : {n : ℕ} (s : System) → 0 < n → Inv n s → Inv n (step s releases)
unfolding step
releases-Inv {n} s p inv = elim (hand_over_lem true s.bounded.semaphore.waiters s.world) [
  | inl (e, all) ↦ ground (arith, e)
  | inr (f, rest, e, served) ↦ ground (arith, e, Served-member served)
]

step-Inv : {n : ℕ} (s : System) (e : Event) → 0 < n → Inv n s → Inv n (step s e)
unfolding step
step-Inv s acquires p inv = ground arith
step-Inv s releases p inv = releases-Inv s p inv
step-Inv s (throws f) p inv = ground arith
step-Inv s (cancels f msg) p inv = record {
  fixed = inv.fixed;
  within = inv.within;
  idle = inv.idle;
}

run-Inv : {n : ℕ} (es : List Event) (s : System) → 0 < n → Inv n s → Inv n (run s es)
unfolding run
run-Inv [] s p inv = inv
run-Inv (e ∷ es) s p inv = run-Inv es (step s e) p (step-Inv s e p inv)

start-Inv : (w : World Bool) (n : ℕ) → Inv n (start w n)
start-Inv w n = record { fixed = refl; within = omega arith; idle = inr refl }

-- With a positive bound the counter never passes the initial value, over every history of acquires,
-- releases (unpaired ones too), deliveries of CancelledError and cancelled futures.
pub bounded_value :
    (w : World Bool) (n : ℕ) (es : List Event)
    → 0 < n
    → (run (start w n) es).bounded.semaphore.value ≤ n
bounded_value w n es p = (run-Inv es (start w n) p (start-Inv w n)).within

-- Over every such history, with a positive bound, `release` raises ValueError exactly when the
-- counter stands at the initial value.
pub release_refused_iff :
    (w : World Bool) (n : ℕ) (es : List Event)
    → 0 < n
    → let s = run (start w n) es in
      (release s.world s.bounded ≡ err value_error) ↔ (s.bounded.semaphore.value ≡ n)
unfolding release
release_refused_iff w n es p =
    let s = run (start w n) es in
    let inv = run-Inv es (start w n) p (start-Inv w n) in
    (
      λ e. elim (hand_over_lem true s.bounded.semaphore.waiters s.world) [
        | inl (h, all) ↦ ground (arith, inv.within, inv.fixed, h)
        | inr (f, rest, h, served) ↦ ground (arith, inv.within, inv.fixed, h)
      ],
      λ e. ground (arith, inv.fixed, inv.idle),
    )

-- The guard reads the deque, not what is pending in it: while only done (cancelled) waiters are
-- queued, a `release` at the bound does not raise, and the counter passes the bound.
pub release_exceeds_bound :
    (w : World Bool) (b : BoundedSemaphore)
    → is_empty b.semaphore.waiters ≡ false
    → All (λ g. done w g ≡ true) b.semaphore.waiters
    → b.semaphore.value ≡ b.bound
    → release w b ≡ ok (w, record b { semaphore = record { value = b.bound + 1; waiters = [] } })
unfolding release
release_exceeds_bound w b q d e = elim (hand_over_lem true b.semaphore.waiters w) [
  | inl (h, all) ↦ ground (arith, h)
  | inr (f, rest, h, served) ↦
      cc (All-contains w b.semaphore.waiters f d (Served-member served), served.waiting)
]
