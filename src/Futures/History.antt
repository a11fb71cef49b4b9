-- ===== src/Futures/History.antt =====
-- Histories of mt_asyncio/asyncio/_futures.py and _wakes.py: the methods called one after the
-- other, in any order that the worker threads choose.
use mt_asyncio.Prelude.{
  ℕ, ◌-◌, ◌==◌, inl, inr, some, none, Bool-cases, false, if◌then◌else◌, ◌≡◌, refl, Bool, Option,
  List, [], ◌∷◌, arith, contains, ◌||◌,
}
use mt_asyncio.Errors.{Result, ok, err}
use mt_asyncio.Futures.{
  World, Raisable, create_future, set_result, set_exception, cancel, add_done_callback,
  remove_done_callback, enter_defer, exit_defer, flush, flush_pending, set_event,
}

pub data Op {ℓ} (A : Type ℓ) : Type ℓ where
  creates : Op A
  sets_result : ℕ → A → Op A
  sets_exception : ℕ → Raisable → Op A
  cancels : ℕ → Option ℕ → Op A
  adds : ℕ → ℕ → Option ℕ → ℕ → Op A
  removes : ℕ → ℕ → Op A
  enters exits : Op A

-- A call that raises leaves the world as it was.
abbrev pub after {ℓ} : {A : Type ℓ} → World A → Result (World A) → World A
after w (ok w') = w'
after w (err e) = w

-- The wakes held back by the running thread.
abbrev pub held : Option (List ℕ) → List ℕ
held none = []
held (some l) = l

module _ {ℓ} {A : Type ℓ} where
  unfoldable pub step : World A → Op A → World A
  unfolding create_future set_result set_exception cancel add_done_callback remove_done_callback
      enter_defer exit_defer
  step w creates = (create_future w).1
  step w (sets_result i v) = after w (set_result i v w)
  step w (sets_exception i r) = after w (set_exception i r w)
  step w (cancels i msg) = (cancel i msg w).1
  step w (adds i fn context current) = add_done_callback i fn context current w
  step w (removes i fn) = (remove_done_callback i fn w).1
  step w enters = enter_defer w
  step w exits = exit_defer w

  unfoldable pub run : World A → List (Op A) → World A
  run w [] = w
  run w (o ∷ os) = run (step w o) os

  -- What `flush` leaves of a future: its event alone may have changed.
  pub fut-flush :
      (l : List ℕ) (w : World A) (i : ℕ)
      → (flush l w).fut i ≡ record (w.fut i) { event = contains i l || (w.fut i).event }
  fut-flush [] w i = refl
  fut-flush (j ∷ l) w i = ground (arith, fut-flush l (set_event w j) i)

  pub flush-rest :
      (l : List ℕ) (w : World A)
      → ((flush l w).next ≡ w.next) × ((flush l w).ready ≡ w.ready) × ((flush l w).tls ≡ w.tls)
  flush-rest [] w = (refl, refl, refl)
  flush-rest (j ∷ l) w = flush-rest l (set_event w j)

  -- Whether the exit from `defer_wakes` is the outermost one and wakes the awaiters of `i`.
  abbrev pub released : World A → ℕ → Bool
  released w i = if (w.tls.depth - 1) == 0 then contains i (held w.tls.pending_wakes) else false

  flush_pending-fut :
      (o : Option (List ℕ)) (w : World A) (i : ℕ)
      → (flush_pending o w).fut i
        ≡ record (w.fut i) { event = contains i (held o) || (w.fut i).event }
  flush_pending-fut none w i = refl
  flush_pending-fut (some l) w i = fut-flush l w i

  flush_pending-rest :
      (o : Option (List ℕ)) (w : World A)
      → ((flush_pending o w).next ≡ w.next)
        × ((flush_pending o w).ready ≡ w.ready)
        × ((flush_pending o w).tls ≡ w.tls)
  flush_pending-rest none w = (refl, refl, refl)
  flush_pending-rest (some l) w = flush-rest l w

  pub exit_defer-fut :
      (w : World A) (i : ℕ)
      → (exit_defer w).fut i ≡ record (w.fut i) { event = released w i || (w.fut i).event }
  unfolding exit_defer
  exit_defer-fut w i = elim (Bool-cases ((w.tls.depth - 1) == 0)) [
    | inl e ↦ rw e (flush_pending-fut w.tls.pending_wakes _ i)
    | inr e ↦ rw e refl
  ]

  pub exit_defer-rest :
      (w : World A)
      → ((exit_defer w).next ≡ w.next)
        × ((exit_defer w).ready ≡ w.ready)
        × ((exit_defer w).tls ≡ record {
          depth = w.tls.depth - 1;
          pending_wakes = if (w.tls.depth - 1) == 0 then none else w.tls.pending_wakes;
        })
  unfolding exit_defer
  exit_defer-rest w = elim (Bool-cases ((w.tls.depth - 1) == 0)) [
    | inl e ↦ rw e (flush_pending-rest w.tls.pending_wakes _)
    | inr e ↦ rw e (refl, refl, refl)
  ]
