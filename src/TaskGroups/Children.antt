-- ===== src/TaskGroups/Children.antt =====
-- What a `TaskGroup` of mt_asyncio/asyncio/_tg.py keeps while its children complete on any worker.
use mt_asyncio.Prelude.{
  ℕ, ◌≡◌, ◌⊎◌, inl, inr, refl, Bool, true, false, Option, none, some, List, [], ◌∷◌, arith,
  if◌then◌else◌, Bool-cases,
}
use mathlib.Core.List.{append-nil}
use mt_asyncio.Errors.{ok}
use mt_asyncio.Futures.{World, done, cancel}
use mt_asyncio.Sync.Semaphore.{is_empty}
use mt_asyncio.Sync.Handover.{given, done-given, set_result-given, done-cancel}
use mt_asyncio.TaskGroups.{Group, complete_waiter}
use mt_asyncio.TaskGroups.System.{
  System, Event, creates, finishes, closes, exits, waits, resumes, interrupts, cancels, is_some,
  ready, step, run, start,
}

-- The group is entered and has no child yet.
abbrev pub IsFresh : Group → Type 0
IsFresh g =
    (g.tasks ≡ [])
    × (g.errors ≡ [])
    × (g.on_completed_fut ≡ none)
    × (g.parent_cancel_requested ≡ false)

record Inv (s : System) : Type 0 where
  same : s.parked ≡ s.group.on_completed_fut
  listed : s.group.errors ≡ s.raised
  alarm :
      (is_some s.parked ≡ false)
      ⊎ ((is_empty s.group.tasks ≡ false)
          ⊎ ((is_empty s.closing ≡ false) ⊎ (ready s.world s.parked ≡ true)))
  out :
      (s.left ≡ false)
      ⊎ ((is_empty s.group.tasks ≡ true) × (s.group.exiting ≡ true) × (is_some s.parked ≡ false))
  once : s.requests ≡ (if s.group.parent_cancel_requested then 1 else 0)

complete_waiter-ready :
    (o : Option ℕ) (w : World Bool)
    → (w' : World Bool) × (complete_waiter o w ≡ ok w')
      × ((is_some o ≡ false) ⊎ (ready w' o ≡ true))
complete_waiter-ready none w = (w, refl, inl refl)
complete_waiter-ready (some f) w = elim (Bool-cases (done w f)) [
  | inl d ↦ (w, rw d refl, inr d)
  | inr d ↦ (
    given w f true,
    rw (d, set_result-given w f true d) refl,
    inr (ground (arith, done-given w f true f)),
  )
]

ready-cancel :
    (o : Option ℕ) (w : World Bool) (f : ℕ) (msg : Option ℕ)
    → ready w o ≡ true
    → ready (cancel f msg w).1 o ≡ true
ready-cancel none w f msg h = h
ready-cancel (some g) w f msg h = ground (arith, h, done-cancel w f msg g)

closes-Inv : (s : System) (t : ℕ) → Inv s → Inv (step s (closes t))
unfolding step
closes-Inv s t inv = ground (arith, complete_waiter-ready s.group.on_completed_fut s.world)

step-Inv : (s : System) (e : Event) → Inv s → Inv (step s e)
unfolding step
step-Inv s (creates t) inv = ground arith
step-Inv s (finishes t none over) inv = ground (arith, append-nil s.raised)
step-Inv s (finishes t (some e) over) inv = ground arith
step-Inv s (closes t) inv = closes-Inv s t inv
step-Inv s (exits exc) inv = ground arith
step-Inv s waits inv = ground arith
step-Inv s resumes inv = ground arith
step-Inv s interrupts inv = ground arith
step-Inv s (cancels f msg) inv = ground (arith, ready-cancel s.parked s.world f msg)

run-Inv : (es : List Event) (s : System) → Inv s → Inv (run s es)
unfolding run
run-Inv [] s inv = inv
run-Inv (e ∷ es) s inv = run-Inv es (step s e) (step-Inv s e inv)

start-Inv : (w : World Bool) (g : Group) → IsFresh g → Inv (start w g)
start-Inv w g fresh = ground (arith, fresh)

-- The parent is not left behind: over every history, while it awaits a future that is not done and
-- no child is left, some child is still on its way to the wake-up at the end of `_on_task_done`.
pub parent_woken :
    (w : World Bool) (g : Group) (es : List Event) (f : ℕ)
    → IsFresh g
    → let s = run (start w g) es in
      s.parked ≡ some f
      → done s.world f ≡ false
      → is_empty s.group.tasks ≡ true
      → is_empty s.closing ≡ false
parent_woken w g es f fresh p d t =
    let inv = run-Inv es (start w g) (start-Inv w g fresh) in ground (arith, inv.alarm)

-- However many children fail, and on whichever workers, the group cancels its parent at most once:
-- `_parent_cancel_requested` says whether it did.
pub parent_cancelled_once :
    (w : World Bool) (g : Group) (es : List Event)
    → IsFresh g
    → let s = run (start w g) es in s.requests ≡ (if s.group.parent_cancel_requested then 1 else 0)
parent_cancelled_once w g es fresh = (run-Inv es (start w g) (start-Inv w g fresh)).once
