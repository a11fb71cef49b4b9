-- ===== src/Futures/Wakes.antt =====
-- The wakes of mt_asyncio/asyncio/_wakes.py and `Future._wake`: held back inside `defer_wakes`, and
-- never lost.
use mt_asyncio.Prelude.{
  ℕ, not, ◌<◌, ◌≡◌, refl, ◌∙◌, Bool, true, false, ◌&&◌, ◌||◌, Option, some, none, List, [], ◌∷◌,
  arith, ◌==◌, contains,
}
use mt_asyncio.Futures.{World, Tls, done}
use mt_asyncio.Futures.History.{Op, creates, exits, step, run, held, exit_defer-rest}
use mt_asyncio.Futures.Complete.{step-next}

abbrev is_none {ℓ} : {A : Type ℓ} → Option A → Bool
is_none none = true
is_none (some a) = false

-- A thread holds wakes back exactly inside a region.
abbrev pub IsCoherent : Tls → Type 0
IsCoherent t = (t.depth == 0) ≡ is_none t.pending_wakes

module _ {ℓ} {A : Type ℓ} where
  -- A future is done exactly when its event is set or about to be set by the running thread.
  abbrev pub IsAwake : World A → ℕ → Type 0
  IsAwake w i = done w i ≡ ((w.fut i).event || contains i (held w.tls.pending_wakes))

  step-IsCoherent : (w : World A) (o : Op A) → IsCoherent w.tls → IsCoherent (step w o).tls
  unfolding step
  step-IsCoherent w creates c = ground arith
  step-IsCoherent w exits c = ground (arith, exit_defer-rest w)
  step-IsCoherent w o c = ground arith

  abbrev pub is_exit : Op A → Bool
  is_exit exits = true
  is_exit _ = false

  abbrev pub no_exit : List (Op A) → Bool
  no_exit [] = true
  no_exit (o ∷ os) = not (is_exit o) && no_exit os

  step-event :
      (w : World A) (o : Op A) (i : ℕ)
      → i < w.next
      → 0 < w.tls.depth
      → IsCoherent w.tls
      → is_exit o ≡ false
      → (((step w o).fut i).event ≡ (w.fut i).event) × (0 < (step w o).tls.depth)
  unfolding step
  step-event w exits i h d c n = absurd (cc)
  step-event w o i h d c n = ground arith

  -- While the thread is inside a region, whatever it completes resumes nobody: no event of an
  -- existing future changes before an exit.
  pub wakes_deferred :
      (os : List (Op A)) (w : World A) (i : ℕ)
      → i < w.next
      → 0 < w.tls.depth
      → IsCoherent w.tls
      → no_exit os ≡ true
      → ((run w os).fut i).event ≡ (w.fut i).event
  unfolding run
  wakes_deferred [] w i h d c n = refl
  wakes_deferred (o ∷ os) w i h d c n =
      let e = step-event w o i h d c (ground arith) in
      wakes_deferred os (step w o) i (step-next w o i h) e.1 (step-IsCoherent w o c) (ground arith)
      ∙ e.0
