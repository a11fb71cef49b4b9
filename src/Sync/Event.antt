-- ===== src/Sync/Event.antt =====
-- mt_asyncio/asyncio/_sync.py, `Event`: its methods, and a system of any number of tasks that wait,
-- set, clear and are cancelled. `set` empties the list of waiters under the lock and completes them
-- afterwards, one by one, while other threads run.
use mt_asyncio.Prelude.{
  ℕ, ◌<◌, ◌≡◌, ◌⊎◌, inl, refl, Bool, true, false, ◌&&◌, ◌||◌, Option, List, [], ◌∷◌, ◌++◌, arith,
  if◌then◌else◌, contains, remove, Distinct, Distinct-remove, contains-remove, contains-remove_ne,
  contains-append,
}
use mt_asyncio.Errors.{Result, ok, err}
use mt_asyncio.Futures.{World, create_future, cancel, done, set_result, is_finished}
use mt_asyncio.Sync.Handover.{
  given, done-given, next-given, set_result-given, done-cancel, next-cancel,
}

pub record Event : Type 0 where
  pub value : Bool
  pub waiters : List ℕ

-- `Event()`
abbrev pub new : Event
new = record { value = false; waiters = [] }

abbrev pub is_set : Event → Bool
is_set e = e.value

-- The critical section of `set`: the futures that it will complete, and the event.
unfoldable pub set_locked : Event → List ℕ × Event
set_locked e = if e.value then ([], e) else (e.waiters, record { value = true; waiters = [] })

-- One round of the loop of `set`: `if not fut.done(): fut.set_result(True)`.
unfoldable pub wake_one : ℕ → World Bool → Result (World Bool)
wake_one f w = if done w f then ok w else set_result f true w

unfoldable pub clear : Event → Event
clear e = record e { value = false }

-- The critical section of `wait`: return at once, or a future to await.
pub data Begun : Type 0 where
  already_set : Begun
  parked : ℕ → World Bool → Event → Begun

unfoldable pub wait : World Bool → Event → Begun
unfolding create_future
wait w e =
    if e.value
    then already_set
    else let (f, w') = create_future w in parked f w' (record e { waiters = e.waiters ++ f ∷ [] })

-- `except CancelledError` in `wait`.
unfoldable pub on_cancelled : ℕ → Event → Event
on_cancelled f e = if contains f e.waiters then record e { waiters = remove f e.waiters } else e

-- `waking` lists the futures that some `set` has taken and not reached yet; `open_waits` those
-- that are awaited in `wait`.
pub record System : Type 0 where
  pub world : World Bool
  pub event : Event
  pub waking : List ℕ
  pub open_waits : List ℕ

pub data Move : Type 0 where
  waits sets clears : Move
  wakes : ℕ → Move
  resumes : ℕ → Move
  throws : ℕ → Move
  cancels : ℕ → Option ℕ → Move

abbrev settle_begun : System → Begun → System
settle_begun s already_set = s
settle_begun s (parked f w e) = record s { world = w; event = e; open_waits = f ∷ s.open_waits }

abbrev settle_set : System → List ℕ × Event → System
settle_set s (l, e) = record s { event = e; waking = l ++ s.waking }

abbrev settle_woken : System → ℕ → Result (World Bool) → System
settle_woken s f (ok w) = record s { world = w; waking = remove f s.waking }
settle_woken s f (err e) = s

-- A move that cannot happen in the state changes nothing.
unfoldable pub step : System → Move → System
unfolding wait set_locked wake_one clear on_cancelled create_future cancel
step s waits = settle_begun s (wait s.world s.event)
step s sets = settle_set s (set_locked s.event)
step s clears = record s { event = clear s.event }
step s (wakes f) = if contains f s.waking then settle_woken s f (wake_one f s.world) else s
step s (resumes f) =
    if contains f s.open_waits && is_finished (s.world.fut f).state
    then record s { open_waits = remove f s.open_waits }
    else s
step s (throws f) =
    if contains f s.open_waits
    then record s { event = on_cancelled f s.event; open_waits = remove f s.open_waits }
    else s
step s (cancels f msg) = record s { world = (cancel f msg s.world).1 }

unfoldable pub run : System → List Move → System
run s [] = s
run s (m ∷ ms) = run (step s m) ms

abbrev pub start : World Bool → System
start w = record { world = w; event = new; waking = []; open_waits = [] }

record Inv (s : System) : Type 0 where
  fresh : (g : ℕ) → contains g s.open_waits ≡ true → g < s.world.next
  distinct : Distinct s.open_waits
  settled :
      (g : ℕ)
      → contains g s.open_waits ≡ true
      → ((contains g s.event.waiters || contains g s.waking) ≡ true) ⊎ (done s.world g ≡ true)
  emptied : (s.event.value ≡ false) ⊎ (s.event.waiters ≡ [])

start-Inv : (w : World Bool) → Inv (start w)
start-Inv w = record { fresh = λ g h. cc; distinct = tt; settled = λ g h. cc; emptied = inl refl }

wake_one-given :
    (w : World Bool) (f : ℕ) → wake_one f w ≡ ok (if done w f then w else given w f true)
unfolding wake_one
wake_one-given w f = ground (arith, set_result-given w f true)

module _ {s : System} (inv : Inv s) where
  open inv use {fresh, distinct, settled, emptied}

  waits-Inv : Inv (step s waits)
  unfolding step
  waits-Inv = record {
    fresh = λ g h. ground (arith, fresh g);
    distinct = ground (arith, fresh s.world.next);
    settled = λ g h.
        ground (arith, settled g, fresh g, contains-append g s.event.waiters (s.world.next ∷ []));
    emptied = ground arith;
  }

  sets-Inv : Inv (step s sets)
  unfolding step
  sets-Inv = record {
    fresh = λ g h. ground (arith, fresh g);
    distinct = ground arith;
    settled = λ g h. ground (arith, settled g, contains-append g s.event.waiters s.waking);
    emptied = ground arith;
  }

  wakes-Inv : (f : ℕ) → Inv (step s (wakes f))
  unfolding step
  wakes-Inv f = record {
    fresh = λ g h. ground (arith, fresh g, wake_one-given s.world f, next-given s.world f true);
    distinct = ground (arith, wake_one-given s.world f);
    settled = λ g h. ground (
      arith,
      settled g,
      wake_one-given s.world f,
      done-given s.world f true g,
      contains-remove_ne g f s.waking,
    );
    emptied = ground (arith, wake_one-given s.world f);
  }

  leaves-Inv : (f : ℕ) → Inv (step s (resumes f)) × Inv (step s (throws f))
  unfolding step
  leaves-Inv f = (
    record {
      fresh = λ g h. ground (arith, fresh g, contains-remove g f s.open_waits distinct);
      distinct = ground (arith, Distinct-remove f s.open_waits distinct);
      settled = λ g h. ground (arith, settled g, contains-remove g f s.open_waits distinct);
      emptied = ground arith;
    },
    record {
      fresh = λ g h. ground (arith, fresh g, contains-remove g f s.open_waits distinct);
      distinct = ground (arith, Distinct-remove f s.open_waits distinct);
      settled = λ g h. ground (
        arith,
        settled g,
        contains-remove g f s.open_waits distinct,
        contains-remove_ne g f s.event.waiters,
      );
      emptied = ground arith;
    },
  )

step-Inv : (s : System) (m : Move) → Inv s → Inv (step s m)
unfolding step
step-Inv s waits inv = waits-Inv inv
step-Inv s sets inv = sets-Inv inv
step-Inv s clears inv = record {
  fresh = inv.fresh;
  distinct = inv.distinct;
  settled = inv.settled;
  emptied = inl refl;
}
step-Inv s (wakes f) inv = wakes-Inv inv f
step-Inv s (resumes f) inv = (leaves-Inv inv f).0
step-Inv s (throws f) inv = (leaves-Inv inv f).1
step-Inv s (cancels f msg) inv = record {
  fresh = λ g h. ground (arith, inv.fresh g, next-cancel s.world f msg);
  distinct = inv.distinct;
  settled = λ g h. ground (arith, inv.settled g, done-cancel s.world f msg g);
  emptied = inv.emptied;
}

run-Inv : (ms : List Move) (s : System) → Inv s → Inv (run s ms)
unfolding run
run-Inv [] s inv = inv
run-Inv (m ∷ ms) s inv = run-Inv ms (step s m) (step-Inv s m inv)

-- No lost wake-up: over every history of waits, sets, clears, wakes, deliveries of CancelledError
-- and cancelled futures, while the event is set a task whose awaited future is pending is one that
-- some `set` still has to reach.
pub event_no_lost_wake :
    (w : World Bool) (ms : List Move) (f : ℕ)
    → let s = run (start w) ms in
      s.event.value ≡ true
      → contains f s.open_waits ≡ true
      → done s.world f ≡ false
      → contains f s.waking ≡ true
event_no_lost_wake w ms f v c d =
    let inv = run-Inv ms (start w) (start-Inv w) in ground (arith, inv.settled f c, inv.emptied)
