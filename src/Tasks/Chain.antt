-- ===== src/Tasks/Chain.antt =====
-- `Task.cancel` of mt_asyncio/asyncio/_tasks.py along a chain of tasks that wait for one another.
use mt_asyncio.Prelude.{
  ℕ, zero, suc, ◌+◌, ◌<◌, ◌≡◌, ◌⊎◌, inl, inr, refl, ◌∙◌, true, false, Option, none, some, arith,
  Bool-cases, Option-cases,
}
use mt_asyncio.Futures.{World, Future, done, was_cancelled}
use mt_asyncio.Futures
use mt_asyncio.Tasks.{Task, Runtime, request, set_must_cancel, cancel, must_cancel_of}

abbrev pub waiter_of : Option Task → Option ℕ
waiter_of none = none
waiter_of (some t) = t.fut_waiter

module _ {ℓ} {A : Type ℓ} where
  -- `rank` falls along every wait: no tasks wait for one another in a circle.
  abbrev pub IsRanked : (ℕ → ℕ) → Runtime A → Type 0
  IsRanked rank r = (i j : ℕ) → waiter_of (r.task i) ≡ some j → rank j < rank i

  request-IsRanked :
      (rank : ℕ → ℕ) (r : Runtime A) (i : ℕ) (t : Task) (msg : Option ℕ)
      → r.task i ≡ some t
      → IsRanked rank r
      → IsRanked rank (request i t msg r)
  request-IsRanked rank r i t msg e h k j w = ground (arith, h k j)

  -- Where a request on `i` stands: a task of the chain will raise at its next await, or the plain
  -- future at its end is cancelled.
  pub data Landed (r : Runtime A) : ℕ → Type 0 where
    marked : (i : ℕ) → must_cancel_of (r.task i) ≡ true → Landed r i
    cancelled : (i : ℕ) → was_cancelled r.world i ≡ true → Landed r i
    through : (i j : ℕ) → waiter_of (r.task i) ≡ some j → Landed r j → Landed r i

  -- What `cancel` answers and leaves.
  abbrev pub Cancelled : ℕ → ℕ → Option ℕ → Runtime A → Type ℓ
  Cancelled fuel i msg r =
      ((done r.world i ≡ true) × (cancel fuel i msg r ≡ some (false, r)))
      ⊎ ((done r.world i ≡ false)
          × (r' : Runtime A) × (cancel fuel i msg r ≡ some (true, r'))
          × ((k : ℕ) → waiter_of (r'.task k) ≡ waiter_of (r.task k))
          × Landed r' i)

  set_must_cancel-waiter :
      (r : Runtime A) (i k : ℕ) → waiter_of ((set_must_cancel i r).task k) ≡ waiter_of (r.task k)
  unfolding set_must_cancel
  set_must_cancel-waiter r i k = ground arith

  set_must_cancel-marked :
      (r : Runtime A) (i : ℕ) (t : Task)
      → r.task i ≡ some t
      → must_cancel_of ((set_must_cancel i r).task i) ≡ true
  unfolding set_must_cancel
  set_must_cancel-marked r i t e = ground arith

  request-waiter :
      (r : Runtime A) (i k : ℕ) (t : Task) (msg : Option ℕ)
      → r.task i ≡ some t
      → waiter_of ((request i t msg r).task k) ≡ waiter_of (r.task k)
  request-waiter r i k t msg e = ground arith

  plain_lem :
      (fuel i : ℕ) (msg : Option ℕ) (r : Runtime A) → r.task i ≡ none → Cancelled (suc fuel) i msg r
  unfolding cancel Futures.cancel
  plain_lem fuel i msg r n = elim (Bool-cases (done r.world i)) [
    | inl d ↦ inl (d, ground (arith, n, d))
    | inr d ↦ inr (
      d,
      record r { world = (Futures.cancel i msg r.world).1 },
      ground (arith, n, d),
      λ k. refl,
      cancelled i (ground (arith, d)),
    )
  ]

  -- A task that is not done marks itself, if it is not parked or what it waits for is done.
  marked_lem :
      (r : Runtime A) (i : ℕ) (t : Task) (msg : Option ℕ)
      → r.task i ≡ some t
      → ((k : ℕ)
          → waiter_of ((set_must_cancel i (request i t msg r)).task k) ≡ waiter_of (r.task k))
        × Landed (set_must_cancel i (request i t msg r)) i
  marked_lem r i t msg k = (
    λ g. set_must_cancel-waiter (request i t msg r) i g ∙ request-waiter r i g t msg k,
    marked i (
        set_must_cancel-marked (request i t msg r) i
          (record t { num_cancels_requested = t.num_cancels_requested + 1 }) (ground arith)),
  )

  parked_lem :
      (fuel i j : ℕ) (msg : Option ℕ) (r : Runtime A) (t : Task)
      → r.task i ≡ some t
      → done r.world i ≡ false
      → t.fut_waiter ≡ some j
      → Cancelled fuel j msg (request i t msg r)
      → Cancelled (suc fuel) i msg r
  unfolding cancel
  parked_lem fuel i j msg r t k d z (inl (dj, ej)) =
      let (same, landed) = marked_lem r i t msg k in
      inr (d, set_must_cancel i (request i t msg r), ground (arith, k, d, z, ej), same, landed)
  parked_lem fuel i j msg r t k d z (inr (dj, r', ej, same, landed)) = inr (
    d,
    r',
    ground (arith, k, d, z, ej),
    λ g. same g ∙ request-waiter r i g t msg k,
    through i j (same i ∙ request-waiter r i i t msg k ∙ ground (arith, k, z)) landed,
  )

  -- On waits without a circle, with fuel above the rank of the task, `cancel` ends. On a done
  -- future it answers false and changes nothing. Otherwise it answers true, changes no task's wait,
  -- and the request has landed: following the waits from the task, one reaches a task that is
  -- marked to raise CancelledError, or a future that is now cancelled.
  pub cancel_lands :
      (fuel : ℕ) (rank : ℕ → ℕ) (i : ℕ) (msg : Option ℕ) (r : Runtime A)
      → IsRanked rank r
      → rank i < fuel
      → Cancelled fuel i msg r
  unfolding cancel
  cancel_lands zero rank i msg r h e = absurd (omega arith)
  cancel_lands (suc fuel) rank i msg r h e = elim (Option-cases (r.task i)) [
    | inl n ↦ plain_lem fuel i msg r n
    | inr (t, k) ↦ elim (Bool-cases (done r.world i)) [
      | inl d ↦ inl (d, rw (k, d) refl)
      | inr d ↦ elim (Option-cases t.fut_waiter) [
        | inl z ↦
            let (same, landed) = marked_lem r i t msg k in
            inr (d, set_must_cancel i (request i t msg r), ground (arith, k, d, z), same, landed)
        | inr (j, z) ↦ parked_lem fuel i j msg r t k d z (
            cancel_lands fuel rank j msg (request i t msg r) (request-IsRanked rank r i t msg k h)
              (omega (arith, h i j (ground (arith, k, z)))))
      ]
    ]
  ]
