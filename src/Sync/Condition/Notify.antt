-- ===== src/Sync/Condition/Notify.antt =====
-- Whom `notify` and `notify_all` of mt_asyncio/asyncio/_sync.py wake.
use mt_asyncio.Prelude.{
  ℕ, ◌+◌, ◌-◌, ◌≡◌, inl, inr, refl, ap, Bool, true, false, not, ◌||◌, List, [], ◌∷◌, ◌++◌, arith,
  ltb, Bool-cases, if◌then◌else◌, contains, Distinct, count_if, count_if-agree, contains-append,
}
use mt_asyncio.Errors.{ok}
use mt_asyncio.Futures.{World, done}
use mt_asyncio.Sync.Handover.{given, done-given, set_result-given}
use mt_asyncio.Sync.Condition.{Condition, notify_loop, notify, wake_each, notify_all}

-- How many futures of the list are pending.
abbrev pub pending_count : World Bool → List ℕ → ℕ
pending_count w fs = count_if (λ f. not (done w f)) fs

-- The deque is `front ++ rest`; exactly `k` of `front` were pending, and are now done; nothing else
-- changed its state.
pub record Woke (k : ℕ) (w : World Bool) (fs rest : List ℕ) (w' : World Bool) : Type 0 where
  pub front : List ℕ
  pub order : fs ≡ front ++ rest
  pub woken : pending_count w front ≡ k
  pub settled : (g : ℕ) → done w' g ≡ (contains g front || done w g)

abbrev pub least : ℕ → ℕ → ℕ
least a b = if ltb a b then a else b

-- Completing `f` does not change how many of `fs` are pending, if `f` is not among them.
pending_count-given :
    (w : World Bool) (f : ℕ) (fs : List ℕ)
    → contains f fs ≡ false
    → pending_count (given w f true) fs ≡ pending_count w fs
pending_count-given w f fs h =
    count_if-agree _ _ fs (λ a c. ground (arith, done-given w f true a, c, h))

notify_loop_lem :
    (count n : ℕ) (fs : List ℕ) (w : World Bool)
    → Distinct fs
    → (rest : List ℕ) × (w' : World Bool) × (notify_loop count n fs w ≡ ok (rest, w'))
      × Woke (least (n - count) (pending_count w fs)) w fs rest w'
unfolding notify_loop
notify_loop_lem count n [] w d =
    ([], w, refl, record { front = []; order = refl; woken = ground arith; settled = λ g. refl })
notify_loop_lem count n (f ∷ fs) w d = elim (Bool-cases (ltb count n)) [
  | inl more ↦ elim (Bool-cases (done w f)) [
    | inl e ↦
        let (rest, w', r, k) = notify_loop_lem count n fs w d.1 in
        (
          rest,
          w',
          rw (more, e) r,
          record {
            front = f ∷ k.front;
            order = ap (◌∷◌ f) k.order;
            woken = ground (arith, k.woken);
            settled = λ g. ground (arith, k.settled g);
          },
        )
    | inr e ↦
        let (rest, w', r, k) = notify_loop_lem (count + 1) n fs (given w f true) d.1 in
        (
          rest,
          w',
          rw (more, e, set_result-given w f true e) r,
          record {
            front = f ∷ k.front;
            order = ap (◌∷◌ f) k.order;
            woken = ground (
              arith,
              k.woken,
              ap (contains f) k.order,
              contains-append f k.front rest,
              pending_count-given w f k.front,
              pending_count-given w f fs d.0,
            );
            settled = λ g. ground (arith, k.settled g, done-given w f true g);
          },
        )
  ]
  | inr stop ↦ (
    f ∷ fs,
    w,
    rw stop refl,
    record { front = []; order = refl; woken = ground arith; settled = λ g. refl },
  )
]

-- `notify(n)` never raises. It pops a prefix of the deque in which exactly `n` futures were
-- pending, or all that are pending if they are fewer; those are woken, done ones are dropped, the
-- rest stays queued in order, and no other future and not the lock is touched.
pub notify_lem :
    (n : ℕ) (w : World Bool) (c : Condition)
    → Distinct c.waiters
    → (rest : List ℕ) × (w' : World Bool) × (notify n w c
        ≡ ok (w', record { lock = c.lock; waiters = rest }))
      × Woke (least n (pending_count w c.waiters)) w c.waiters rest w'
unfolding notify
notify_lem n w c d =
    let (rest, w', e, k) = notify_loop_lem 0 n c.waiters w d in
    let n₀ : (n - 0) ≡ n = omega arith in (rest, w', rw e refl, rw n₀ at k)

pub wake_each_lem :
    (fs : List ℕ) (w : World Bool)
    → (w' : World Bool) × (wake_each fs w ≡ ok w')
      × ((g : ℕ) → done w' g ≡ (contains g fs || done w g))
unfolding wake_each
wake_each_lem [] w = (w, refl, λ g. refl)
wake_each_lem (f ∷ fs) w = elim (Bool-cases (done w f)) [
  | inl e ↦ let (w', r, all) = wake_each_lem fs w in (w', rw e r, λ g. ground (arith, all g))
  | inr e ↦
      let (w', r, all) = wake_each_lem fs (given w f true) in
      (w', rw (e, set_result-given w f true e) r, λ g. ground (arith, all g, done-given w f true g))
]

-- `notify_all` never raises: it empties the deque, every future that was in it is done, and every
-- other future is as it was.
pub notify_all_lem :
    (w : World Bool) (c : Condition)
    → (w' : World Bool) × (notify_all w c ≡ ok (w', record { lock = c.lock; waiters = [] }))
      × ((g : ℕ) → done w' g ≡ (contains g c.waiters || done w g))
unfolding notify_all
notify_all_lem w c = let (w', e, all) = wake_each_lem c.waiters w in (w', rw e refl, all)
