-- ===== src/Loop/Scheduling/Timers.antt =====
-- When the callbacks of `call_at` and `call_later` run (mt_asyncio/asyncio/_loop.py).
use mt_asyncio.Prelude.{
  ℕ, ◌+◌, ◌-◌, ◌≤◌, ◌≡◌, refl, Bool, true, false, Option, none, some, List, [], ◌∷◌, ◌++◌, arith,
  ◌==◌, if◌then◌else◌, update, inl, inr, Option-cases,
}
use mt_asyncio.Reactor.{Surroundings}
use mt_asyncio.Loop.Scheduling.{
  Held, wakes, queues, System, wake_over, flush_over, call_soon, call_at, call_later, timer,
  cancel_handle, flush_held, Event, soons, ats, laters, fires, cancels, wakes_future, enters, exits,
  step, run, start,
}

-- A timer that is armed resumes no earlier than its time, and one that ran did not.
record Inv (s : System) : Type 0 where
  armed_late : (h d : ℕ) → s.due h ≡ some d → s.when_of h ≤ d
  ran_late : (h t : ℕ) → s.ran_at h ≡ some t → s.when_of h ≤ t
  fresh_due : (h : ℕ) → s.next_handle ≤ h → s.due h ≡ none
  fresh_ran : (h : ℕ) → s.next_handle ≤ h → s.ran_at h ≡ none

flush_held-Inv : (l : List Held) (s : System) → Inv s → Inv (flush_held l s)
flush_held-Inv [] s inv = inv
flush_held-Inv (wakes f ∷ l) s inv =
    flush_held-Inv l (record s { woken = s.woken ++ f ∷ [] })
      (record {
        armed_late = inv.armed_late;
        ran_late = inv.ran_late;
        fresh_due = inv.fresh_due;
        fresh_ran = inv.fresh_ran;
      })
flush_held-Inv (queues h ∷ l) s inv =
    flush_held-Inv l (record s { queue = s.queue ++ h ∷ [] })
      (record {
        armed_late = inv.armed_late;
        ran_late = inv.ran_late;
        fresh_due = inv.fresh_due;
        fresh_ran = inv.fresh_ran;
      })

call_soon-Inv : (e : Surroundings) (s : System) → Inv s → Inv (call_soon e s).1
unfolding call_soon
call_soon-Inv e s inv = record {
  armed_late = λ h d p. ground (arith, inv.armed_late h d, p);
  ran_late = λ h t p. ground (arith, inv.ran_late h t, p);
  fresh_due = λ h p. ground (arith, inv.fresh_due h, p);
  fresh_ran = λ h p. ground (arith, inv.fresh_ran h, p);
}

call_at-Inv : (e : Surroundings) (when now : ℕ) (s : System) → Inv s → Inv (call_at e when now s).1
unfolding call_at
call_at-Inv e when now s inv = record {
  armed_late = λ h d p. ground (arith, inv.armed_late h d, p);
  ran_late = λ h t p. ground (arith, inv.ran_late h t, inv.fresh_ran h, p);
  fresh_due = λ h p. ground (arith, inv.fresh_due h, p);
  fresh_ran = λ h p. ground (arith, inv.fresh_ran h, p);
}

timer-Inv : (g now : ℕ) (s : System) → Inv s → Inv (timer g now s)
unfolding timer
timer-Inv g now s inv = elim (Option-cases (s.due g)) [
  | inl e ↦ rw e inv
  | inr (due, e) ↦ record {
    armed_late = λ h d p. ground (arith, e, inv.armed_late h d, p);
    ran_late = λ h t p. ground (arith, e, inv.ran_late h t, inv.armed_late g due e, p);
    fresh_due = λ h p. ground (arith, e, inv.fresh_due h, p);
    fresh_ran = λ h p. ground (arith, e, inv.fresh_ran h, inv.fresh_due h, p);
  }
]

-- What the timers do not depend on.
other-Inv :
    (s : System) (depth : ℕ) (pending : Option (List Held)) (woken : List ℕ) (cancelled : ℕ → Bool)
    → Inv s
    → Inv (record s { depth = depth; pending = pending; woken = woken; cancelled = cancelled })
other-Inv s depth pending woken cancelled inv = record {
  armed_late = inv.armed_late;
  ran_late = inv.ran_late;
  fresh_due = inv.fresh_due;
  fresh_ran = inv.fresh_ran;
}

wake_over-Inv : (o : Option (List Held)) (f : ℕ) (s : System) → Inv s → Inv (wake_over o f s)
wake_over-Inv none f s inv = other-Inv s s.depth s.pending (s.woken ++ f ∷ []) s.cancelled inv
wake_over-Inv (some l) f s inv =
    other-Inv s s.depth (some (l ++ wakes f ∷ [])) s.woken s.cancelled inv

flush_over-Inv : (o : Option (List Held)) (s : System) → Inv s → Inv (flush_over o s)
flush_over-Inv none s inv = inv
flush_over-Inv (some l) s inv = flush_held-Inv l s inv

if-Inv : (c : Bool) (s t : System) → Inv s → Inv t → Inv (if c then s else t)
if-Inv true s t h k = h
if-Inv false s t h k = k

step-Inv : (s : System) (e : Event) → Inv s → Inv (step s e)
unfolding step call_later cancel_handle
step-Inv s (soons e) inv = call_soon-Inv e s inv
step-Inv s (ats e when now) inv = call_at-Inv e when now s inv
step-Inv s (laters e delay now) inv = call_at-Inv e (now + delay) now s inv
step-Inv s (fires h now) inv = timer-Inv h now s inv
step-Inv s (cancels h) inv = other-Inv s s.depth s.pending s.woken (update s.cancelled h true) inv
step-Inv s (wakes_future f) inv = wake_over-Inv s.pending f s inv
step-Inv s enters inv =
    other-Inv s (s.depth + 1) (if s.depth == 0 then some [] else s.pending) s.woken s.cancelled inv
step-Inv s exits inv =
    let d = s.depth - 1 in
    let flushed = flush_over s.pending (record s { depth = d; pending = none }) in
    if-Inv (s.depth == 0) s (if d == 0 then flushed else record s { depth = d }) inv (
      if-Inv (d == 0) flushed (record s { depth = d })
        (flush_over-Inv s.pending (record s { depth = d; pending = none })
          (other-Inv s d none s.woken s.cancelled inv))
        (other-Inv s d s.pending s.woken s.cancelled inv))

run-Inv : (es : List Event) (s : System) → Inv s → Inv (run s es)
unfolding run
run-Inv [] s inv = inv
run-Inv (e ∷ es) s inv = run-Inv es (step s e) (step-Inv s e inv)

start-Inv : Inv start
start-Inv = record {
  armed_late = λ h d p. cc;
  ran_late = λ h t p. cc;
  fresh_due = λ h p. refl;
  fresh_ran = λ h p. refl;
}

-- A callback passed to `call_at` or `call_later` runs no earlier than the time it was asked for, in every
-- history, and a timer that is cancelled does not run any more.
pub timers_on_time :
    (es : List Event) (h t now : ℕ)
    → let s = run start es in
      (s.ran_at h ≡ some t → s.when_of h ≤ t)
      × (s.cancelled h ≡ true → (timer h now s).ran_at h ≡ s.ran_at h)
unfolding timer
timers_on_time es h t now =
    let s = run start es in ((run-Inv es start start-Inv).ran_late h t, λ c. ground (arith, c))
