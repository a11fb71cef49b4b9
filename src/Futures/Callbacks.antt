-- ===== src/Futures/Callbacks.antt =====
-- The done-callbacks of a future of mt_asyncio/asyncio/_futures.py over a history: which are
-- scheduled, in which order, and which are dropped by `remove_done_callback`.
use mt_asyncio.Prelude.{
  ℕ, ◌⊎◌, ◌≡◌, Bool, true, false, not, ◌&&◌, some, none, List, [], ◌∷◌, ◌++◌, ◌==◌, if◌then◌else◌,
}
use mt_asyncio.Futures.{World, Callback, Call, done}
use mt_asyncio.Futures.History.{Op, adds, removes}

-- The callbacks of future `i` among the calls.
abbrev pub scheduled : ℕ → List Call → List Callback
scheduled i [] = []
scheduled i (c ∷ cs) = if c.future == i then c.callback ∷ scheduled i cs else scheduled i cs

module _ {ℓ} {A : Type ℓ} where
  abbrev pub added_by : ℕ → Op A → List Callback
  added_by i (adds j fn context current) =
      if j == i
      then record { fn = fn; context = elim context [ none ↦ current | some given ↦ given ] } ∷ []
      else []
  added_by i _ = []

  -- The callbacks that the history adds to `i`, oldest first.
  abbrev pub added : ℕ → List (Op A) → List Callback
  added i [] = []
  added i (o ∷ os) = added_by i o ++ added i os

  abbrev pub spares : ℕ → Op A → Bool
  spares i (removes j fn) = not (j == i)
  spares i _ = true

  -- No call of `remove_done_callback` on `i`.
  abbrev pub no_removal : ℕ → List (Op A) → Bool
  no_removal i [] = true
  no_removal i (o ∷ os) = spares i o && no_removal i os

  -- Scheduled so far, then still waiting.
  abbrev pub ledger : World A → ℕ → List Callback
  ledger w i = scheduled i w.ready ++ (w.fut i).callbacks

  -- Nothing waits at a future that is done.
  abbrev pub IsDrained : World A → ℕ → Type 0
  IsDrained w i = (done w i ≡ false) ⊎ ((w.fut i).callbacks ≡ [])

  -- Nothing is scheduled while a future is pending.
  abbrev pub IsSilent : World A → ℕ → Type 0
  IsSilent w i = (done w i ≡ true) ⊎ (scheduled i w.ready ≡ [])
