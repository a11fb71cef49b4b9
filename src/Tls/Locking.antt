-- ===== src/Tls/Locking.antt =====
-- The invariant of the threads in the SSL protocol of mt_asyncio/asyncio/_tls.py, kept by every step.
use mt_asyncio.Prelude.{
  ℕ, ◌+◌, ◌≡◌, refl, Bool, true, false, ◌&&◌, Option, none, some, List, [], ◌∷◌, ◌++◌, arith, ◌==◌,
  if◌then◌else◌, update,
}
use mt_asyncio.Tls.{
  Entry, app, raw, protocol, Guard, unguarded, locked, deferring_locked, guard_of, app_guard,
  raw_guard, callback_guard, entered, protocol_guard, owned_by, can_acquire, acquire, release,
}
use mt_asyncio.Tls.Threads.{Frame, System, start, enter_guard, exit_guard, call, end_frame}

abbrev pub is_locked : Guard → Bool
is_locked unguarded = false
is_locked locked = true
is_locked deferring_locked = true

abbrev pub is_deferring : Guard → Bool
is_deferring deferring_locked = true
is_deferring g = false

abbrev pub all_locked : List Frame → Bool
all_locked [] = true
all_locked (f ∷ fs) = is_locked f.guard && all_locked fs

abbrev pub locks : List Frame → ℕ
locks [] = 0
locks (f ∷ fs) = (if is_locked f.guard then 1 else 0) + locks fs

abbrev pub defers : List Frame → ℕ
defers [] = 0
defers (f ∷ fs) = (if is_deferring f.guard then 1 else 0) + defers fs

abbrev pub holds : System → ℕ → Bool
holds s t = owned_by t s.lock.owner

abbrev pub items : Option (List ℕ) → List ℕ
items none = []
items (some d) = d

abbrev pub hand_of : System → Option ℕ → List ℕ
hand_of s none = []
hand_of s (some t) = items (s.taken t)

-- The records that the owner of the lock has taken and not written yet.
abbrev pub in_hand : System → List ℕ
in_hand s = hand_of s s.lock.owner

guard_of-locked : (e : Entry) → is_locked (guard_of e) ≡ true
unfolding guard_of app_guard raw_guard callback_guard protocol_guard
guard_of-locked (app m) = ground arith
guard_of-locked (raw m) = ground arith
guard_of-locked (entered m) = ground arith
guard_of-locked (protocol m) = ground arith

pub record Inv (s : System) : Type 0 where
  pub free : (s.lock.depth == 0) ≡ (elim s.lock.owner [ none ↦ true | some u ↦ false ])
  pub balanced : (t : ℕ) → locks (s.frames t) ≡ (if holds s t then s.lock.depth else 0)
  pub guarded : (t : ℕ) → all_locked (s.frames t) ≡ true
  pub deferred : (t : ℕ) → s.regions t ≡ defers (s.frames t)
  pub hands : (t : ℕ) → holds s t ≡ false → s.taken t ≡ none
  pub order : s.wire ++ in_hand s ++ s.outgoing ≡ s.produced

pub start-Inv : Inv start
start-Inv = record {
  free = refl;
  balanced = λ t. refl;
  guarded = λ t. refl;
  deferred = λ t. refl;
  hands = λ t h. refl;
  order = refl;
}

pub owner_of : (t : ℕ) (o : Option ℕ) → owned_by t o ≡ true → o ≡ some t
owner_of t none h = cc
owner_of t (some u) h = ground arith

-- A thread that is in a method owns the lock.
pub inside :
    (s : System) (t : ℕ) (f : Frame) (rest : List Frame)
    → s.frames t ≡ f ∷ rest
    → Inv s
    → holds s t ≡ true
inside s t f rest e inv = ground (arith, e, inv.balanced t, inv.guarded t)

-- The frames of a thread change, with the same guards.
pub set_frames-Inv :
    (s : System) (t : ℕ) (fs : List Frame)
    → locks fs ≡ locks (s.frames t)
    → all_locked fs ≡ true
    → defers fs ≡ defers (s.frames t)
    → Inv s
    → Inv (record s { frames = update s.frames t fs })
set_frames-Inv s t fs l a d inv = record {
  free = inv.free;
  balanced = λ u. ground (arith, l, inv.balanced u);
  guarded = λ u. ground (arith, a, inv.guarded u);
  deferred = λ u. ground (arith, d, inv.deferred u);
  hands = inv.hands;
  order = inv.order;
}

pub end_frame-Inv :
    (s : System) (t : ℕ) (f : Frame) (rest : List Frame)
    → s.frames t ≡ f ∷ rest
    → s.taken t ≡ none
    → Inv s
    → Inv (end_frame t (f ∷ rest) s)
unfolding exit_guard release
end_frame-Inv s t f rest e n inv =
    let o : s.lock.owner ≡ some t = owner_of t s.lock.owner (inside s t f rest e inv) in
    record {
      free = ground (arith, o, inv.free);
      balanced = λ u. ground (arith, o, e, inv.balanced u, inv.balanced t, inv.guarded t, inv.free);
      guarded = λ u. ground (arith, e, inv.guarded u, inv.guarded t);
      deferred = λ u. ground (arith, e, inv.deferred u, inv.deferred t);
      hands = λ u h. ground (arith, o, n, inv.hands u);
      order = ground (arith, o, n, inv.order);
    }

pub call-Inv :
    (s : System) (t : ℕ) (e : Entry) (fs : List Frame)
    → locks fs ≡ locks (s.frames t)
    → all_locked fs ≡ true
    → defers fs ≡ defers (s.frames t)
    → Inv s
    → Inv (call t e fs s)
unfolding call enter_guard can_acquire acquire
call-Inv s t e fs l a d inv = record {
  free = ground (arith, guard_of-locked e, inv.free);
  balanced = λ u. ground (arith, guard_of-locked e, inv.balanced u, l, inv.balanced t, inv.free);
  guarded = λ u. ground (arith, guard_of-locked e, a, inv.guarded u);
  deferred = λ u. ground (arith, guard_of-locked e, d, inv.deferred u, inv.deferred t);
  hands = λ u h. ground (arith, guard_of-locked e, inv.hands u, inv.free);
  order = ground (arith, guard_of-locked e, inv.order, inv.hands t, inv.free);
}
