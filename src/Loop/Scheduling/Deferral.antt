-- ===== src/Loop/Scheduling/Deferral.antt =====
-- What the regions of `defer_wakes` do to `call_soon`, and when timers run (mt_asyncio/asyncio/_loop.py).
use mt_asyncio.Prelude.{
  ℕ, ◌-◌, ◌≡◌, refl, sym, ap, ◌∙◌, Bool, true, false, Option, none, some, List, [], ◌∷◌, ◌++◌,
  arith, ltb, ◌==◌, if◌then◌else◌, inl, inr, Option-cases,
}
use mathlib.Core.List.{append_assoc, append-nil}
use mt_asyncio.Loop.Scheduling.{
  Held, wakes, queues, System, call_soon, call_at, call_later, timer, cancel_handle, flush_held,
  Event, soons, ats, laters, fires, cancels, wakes_future, enters, exits, step, run, start,
}

-- The handles that a region holds back, in order.
abbrev pub handles : List Held → List ℕ
handles [] = []
handles (wakes f ∷ l) = handles l
handles (queues h ∷ l) = h ∷ handles l

abbrev pub held_back : Option (List Held) → List ℕ
held_back none = []
held_back (some l) = handles l

-- Everything that `call_soon` accepted.
abbrev pub accepted : System → List ℕ
accepted s = s.queue ++ held_back s.pending

-- What this step adds to them.
abbrev pub added : System → Event → List ℕ
added s (soons e) = if (call_soon e s).0 then s.next_handle ∷ [] else []
added s (ats e when now) = []
added s (laters e delay now) = []
added s (fires h now) = []
added s (cancels h) = []
added s (wakes_future f) = []
added s enters = []
added s exits = []

-- The handles of a history's calls of `call_soon`, in the order of the calls.
unfoldable pub submitted : System → List Event → List ℕ
submitted s [] = []
submitted s (e ∷ es) = added s e ++ submitted (step s e) es

abbrev pub is_last_exit : System → Event → Bool
is_last_exit s exits = s.depth == 1
is_last_exit s (soons e) = false
is_last_exit s (ats e when now) = false
is_last_exit s (laters e delay now) = false
is_last_exit s (fires h now) = false
is_last_exit s (cancels h) = false
is_last_exit s (wakes_future f) = false
is_last_exit s enters = false

abbrev pub is_some : Option (List Held) → Bool
is_some none = false
is_some (some l) = true

-- A region holds something back exactly while it is entered.
abbrev Inv : System → Type 0
Inv s = is_some s.pending ≡ ltb 0 s.depth

handles-append : (l m : List Held) → handles (l ++ m) ≡ handles l ++ handles m
handles-append [] m = refl
handles-append (wakes f ∷ l) m = handles-append l m
handles-append (queues h ∷ l) m = ap (◌∷◌ h) (handles-append l m)

flush_held_lem :
    (l : List Held) (s : System)
    → ((flush_held l s).queue ≡ s.queue ++ handles l)
      × ((flush_held l s).pending ≡ s.pending)
      × ((flush_held l s).depth ≡ s.depth)
flush_held_lem [] s = (sym (append-nil s.queue), refl, refl)
flush_held_lem (wakes f ∷ l) s = flush_held_lem l (record s { woken = s.woken ++ f ∷ [] })
flush_held_lem (queues h ∷ l) s =
    let (q, p, d) = flush_held_lem l (record s { queue = s.queue ++ h ∷ [] }) in
    (q ∙ append_assoc s.queue (h ∷ []) (handles l), p, d)

step-Inv : (s : System) (e : Event) → Inv s → Inv (step s e)
unfolding step call_soon call_at call_later timer cancel_handle
step-Inv s (soons e) inv = ground (arith, inv)
step-Inv s (ats e when now) inv = ground (arith, inv)
step-Inv s (laters e delay now) inv = ground (arith, inv)
step-Inv s (fires h now) inv = ground (arith, inv)
step-Inv s (cancels h) inv = inv
step-Inv s (wakes_future f) inv = ground (arith, inv)
step-Inv s enters inv = ground (arith, inv)
step-Inv s exits inv = elim (Option-cases s.pending) [
  | inl e ↦ ground (arith, inv, e)
  | inr (l, e) ↦
      ground (arith, inv, e, flush_held_lem l (record s { depth = s.depth - 1; pending = none }))
]

step-accepted : (s : System) (e : Event) → Inv s → accepted (step s e) ≡ accepted s ++ added s e
unfolding step call_soon call_at call_later timer cancel_handle
step-accepted s (soons e) inv = elim (Option-cases s.pending) [
  | inl z ↦ ground (arith, z, append-nil s.queue, append-nil (s.queue ++ s.next_handle ∷ []))
  | inr (l, z) ↦ ground (
    arith,
    z,
    handles-append l (queues s.next_handle ∷ []),
    append_assoc s.queue (handles l) (s.next_handle ∷ []),
    append-nil (s.queue ++ handles l),
  )
]
step-accepted s (ats e when now) inv = ground (arith, append-nil (accepted s))
step-accepted s (laters e delay now) inv = ground (arith, append-nil (accepted s))
step-accepted s (fires h now) inv = ground (arith, append-nil (accepted s))
step-accepted s (cancels h) inv = sym (append-nil (accepted s))
step-accepted s (wakes_future f) inv = elim (Option-cases s.pending) [
  | inl z ↦ ground (arith, z, append-nil (accepted s))
  | inr (l, z) ↦
      ground
        (arith, z, handles-append l (wakes f ∷ []), append-nil (handles l), append-nil (accepted s))
]
step-accepted s enters inv = ground (arith, inv, append-nil (accepted s))
step-accepted s exits inv = elim (Option-cases s.pending) [
  | inl z ↦ ground (arith, z, inv, append-nil (accepted s))
  | inr (l, z) ↦ ground (
    arith,
    z,
    inv,
    flush_held_lem l (record s { depth = s.depth - 1; pending = none }),
    append-nil (accepted s),
    append-nil (s.queue ++ handles l),
  )
]

run-accepted :
    (es : List Event) (s : System)
    → Inv s
    → Inv (run s es) × (accepted (run s es) ≡ accepted s ++ submitted s es)
unfolding run submitted
run-accepted [] s inv = (inv, sym (append-nil (accepted s)))
run-accepted (e ∷ es) s inv =
    let (inv', q) = run-accepted es (step s e) (step-Inv s e inv) in
    (
      inv',
      q
          ∙ ap (λ (l : List ℕ). l ++ submitted (step s e) es) (step-accepted s e inv)
          ∙ append_assoc (accepted s) (added s e) (submitted (step s e) es),
    )

region-queue :
    (s : System) (e : Event)
    → Inv s
    → ltb 0 s.depth ≡ true
    → is_last_exit s e ≡ false
    → ((step s e).queue ≡ s.queue) × ((step s e).woken ≡ s.woken)
unfolding step call_soon call_at call_later timer cancel_handle
region-queue s (soons e) inv d x = ground (arith, inv, d)
region-queue s (ats e when now) inv d x = ground (arith, inv, d)
region-queue s (laters e delay now) inv d x = ground (arith, inv, d)
region-queue s (fires h now) inv d x = ground (arith, inv, d)
region-queue s (cancels h) inv d x = (refl, refl)
region-queue s (wakes_future f) inv d x = ground (arith, inv, d)
region-queue s enters inv d x = (refl, refl)
region-queue s exits inv d x = ground (arith, inv, d, x)

-- `call_soon` under `defer_wakes`, over every history of one thread's calls, timers, wakes and regions, on
-- a reactor that may fail to start: what the runtime was given, then what a region still holds back,
-- is every handle that a `call_soon` returned, in the order of the calls, none lost or twice; outside
-- every region nothing is held back; and inside one, nothing reaches the runtime and no future is
-- woken before the last exit.
pub soon_in_order :
    (es : List Event) (e : Event)
    → let s = run start es in
      (s.queue ++ held_back s.pending ≡ submitted start es)
      × (s.depth ≡ 0 → s.pending ≡ none)
      × (ltb 0 s.depth ≡ true
          → is_last_exit s e ≡ false
          → ((step s e).queue ≡ s.queue) × ((step s e).woken ≡ s.woken))
soon_in_order es e =
    let s = run start es in
    let (inv, q) = run-accepted es start refl in
    (q, λ d. ground (arith, inv, d), region-queue s e inv)
