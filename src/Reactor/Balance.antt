-- ===== src/Reactor/Balance.antt =====
-- Loops that come and go on the reactor of mt_asyncio/asyncio/_reactor.py.
use mt_asyncio.Prelude.{
  ℕ, ◌+◌, ◌-◌, ◌≡◌, Bool, true, false, not, ◌&&◌, Option, none, some, List, [], ◌∷◌, arith, ltb,
  ◌==◌, if◌then◌else◌,
}
use mt_asyncio.Errors.{Result, ok, err}
use mt_asyncio.Reactor.{Reactor, Surroundings, new, acquire, release}

-- `users` counts the loops that hold the runtime, `starts` the threads started, `stops` the
-- runtimes stopped.
pub record System : Type 0 where
  pub reactor : Reactor
  pub users : ℕ
  pub starts : ℕ
  pub stops : ℕ

pub data Event : Type 0 where
  acquires : Bool → Surroundings → Event
  releases : Event

abbrev pub is_some : Option ℕ → Bool
is_some none = false
is_some (some a) = true

abbrev settle_acquired : System → Bool × Result (Option ℕ) × Reactor → System
settle_acquired s (b, ok rt, r) = record s {
  reactor = r;
  users = s.users + 1;
  starts = if b then s.starts + 1 else s.starts;
}
settle_acquired s (b, err e, r) = record s {
  reactor = r;
  starts = if b then s.starts + 1 else s.starts;
}

abbrev settle_released : System → Option ℕ × Reactor → System
settle_released s (rt, r) = record s {
  reactor = r;
  users = s.users - 1;
  stops = if is_some rt then s.stops + 1 else s.stops;
}

unfoldable pub step : System → Event → System
unfolding acquire release
step s (acquires context e) = settle_acquired s (acquire context e s.reactor)
step s releases = settle_released s (release s.reactor)

unfoldable pub run : System → List Event → System
run s [] = s
run s (e ∷ es) = run (step s e) es

abbrev pub begun : System
begun = record { reactor = new; users = 0; starts = 0; stops = 0 }

-- Every thread that is started comes up in time.
abbrev pub all_come_up : List Event → Bool
all_come_up [] = true
all_come_up (acquires context e ∷ es) = e.comes_up && all_come_up es
all_come_up (releases ∷ es) = all_come_up es

record Inv (s : System) : Type 0 where
  counted : s.reactor.count ≡ s.users
  kept : (ltb 0 s.users && not (is_some s.reactor.runtime)) ≡ false
  used : (s.reactor.owns_run && (s.users == 0)) ≡ false
  balanced : s.starts ≡ s.stops + (if s.reactor.owns_run then 1 else 0)
  threaded : s.reactor.thread ≡ s.reactor.owns_run

acquires-Inv :
    (s : System) (context : Bool) (e : Surroundings)
    → e.comes_up ≡ true
    → Inv s
    → Inv (step s (acquires context e))
unfolding step
acquires-Inv s context e c inv = ground arith

releases-Inv : (s : System) → Inv s → Inv (step s releases)
unfolding step
releases-Inv s inv = ground arith

run-Inv : (es : List Event) (s : System) → all_come_up es ≡ true → Inv s → Inv (run s es)
unfolding run
run-Inv [] s h inv = inv
run-Inv (acquires context e ∷ es) s h inv =
    run-Inv es (step s (acquires context e)) (ground (arith, h))
      (acquires-Inv s context e (ground (arith, h)) inv)
run-Inv (releases ∷ es) s h inv = run-Inv es (step s releases) h (releases-Inv s inv)

-- Over every history of loops that come and go in which every thread comes up in time: the reactor
-- counts the loops that hold the runtime; while there is one the runtime is there; each thread that
-- was started is stopped once, by the last loop, and one that is not stopped yet is in use.
pub reactor_balanced :
    (es : List Event)
    → all_come_up es ≡ true
    → let s = run begun es in
      (s.reactor.count ≡ s.users)
      × ((ltb 0 s.users && not (is_some s.reactor.runtime)) ≡ false)
      × (s.starts ≡ s.stops + (if s.reactor.owns_run then 1 else 0))
      × ((s.reactor.owns_run && (s.users == 0)) ≡ false)
reactor_balanced es h =
    let inv = run-Inv es begun h (ground arith) in (inv.counted, inv.kept, inv.balanced, inv.used)
