-- ===== src/Tls/Interleaving.antt =====
-- Every history of the threads in the SSL protocol of mt_asyncio/asyncio/_tls.py keeps the invariant.
use mt_asyncio.Prelude.{
  ℕ, ◌≡◌, refl, ap, ◌∙◌, true, Option, none, some, List, [], ◌∷◌, ◌++◌, map, arith, update,
}
use mathlib.Core.List.{append-nil, append_assoc}
use mt_asyncio.Tls.{
  Entry, Act, produces, process_outgoing, resumes, invokes, Upstream, Op, act, super, dispatches,
  resume_branch,
}
use mt_asyncio.Tls.Threads.{
  Frame, System, run_act, set_top, next, from_outside, unwound, perform, resume_reading, advance,
  end_frame, Event, enters, runs, raises, step, run,
}
use mt_asyncio.Tls.Locking.{
  Inv, inside, owner_of, set_frames-Inv, end_frame-Inv, call-Inv, holds, in_hand,
}

-- Actions of a thread that owns the lock, with its stack left alone.
act-Inv :
    (s : System) (t : ℕ) (a : Act)
    → holds s t ≡ true
    → s.taken t ≡ none
    → Inv s
    → Inv (run_act t a s)
unfolding resume_reading
act-Inv s t (produces r) h n inv =
    let o = owner_of t s.lock.owner h in
    record {
      free = inv.free;
      balanced = inv.balanced;
      guarded = inv.guarded;
      deferred = inv.deferred;
      hands = inv.hands;
      order =
          ground (arith, o, n, inv.order, append_assoc (s.wire ++ in_hand s) s.outgoing (r ∷ []));
    }
act-Inv s t process_outgoing h n inv =
    let o = owner_of t s.lock.owner h in
    record {
      free = inv.free;
      balanced = inv.balanced;
      guarded = inv.guarded;
      deferred = inv.deferred;
      hands = λ u k. ground (arith, h, k, inv.hands u);
      order = ground (arith, o, n, inv.order, append-nil s.wire, append-nil (s.wire ++ s.outgoing));
    }
act-Inv s t a h n inv = record {
  free = ground (arith, inv.free);
  balanced = λ u. ground (arith, inv.balanced u);
  guarded = λ u. ground (arith, inv.guarded u);
  deferred = λ u. ground (arith, inv.deferred u);
  hands = λ u k. ground (arith, k, inv.hands u);
  order = ground (arith, inv.order);
}

put-Inv :
    (s : System) (t : ℕ) (d : List ℕ)
    → s.taken t ≡ some d
    → Inv s
    → Inv (record s { taken = update s.taken t none; wire = s.wire ++ d })
put-Inv s t d e inv =
    let h : holds s t ≡ true = ground (arith, e, inv.hands t) in
    let o = owner_of t s.lock.owner h in
    record {
      free = inv.free;
      balanced = inv.balanced;
      guarded = inv.guarded;
      deferred = inv.deferred;
      hands = λ u k. ground (arith, h, k, inv.hands u);
      order = ground (arith, o, e, inv.order, append-nil (s.wire ++ d));
    }

set_ops-Inv :
    (s : System) (t : ℕ) (f : Frame) (rest : List Frame) (ops : List Op)
    → s.frames t ≡ f ∷ rest
    → Inv s
    → Inv (record s { frames = update s.frames t (record { guard = f.guard; ops = ops } ∷ rest) })
set_ops-Inv s t f rest ops e inv =
    set_frames-Inv s t (record { guard = f.guard; ops = ops } ∷ rest) (ground (arith, e))
      (ground (arith, e, inv.guarded t)) (ground (arith, e)) inv

frames_kept : (t : ℕ) (a : Act) (s : System) → (run_act t a s).frames ≡ s.frames
unfolding resume_reading
frames_kept t resumes s = ground arith
frames_kept t a s = refl

do-Inv :
    (s : System) (t : ℕ) (f : Frame) (rest : List Frame) (a : Act) (ops : List Op)
    → s.frames t ≡ f ∷ rest
    → s.taken t ≡ none
    → Inv s
    → Inv (set_top t f.guard ops rest (run_act t a s))
do-Inv s t f rest a ops e n inv =
    set_ops-Inv (run_act t a s) t f rest ops
      (ap (λ (g : ℕ → List Frame). g t) (frames_kept t a s) ∙ e)
      (act-Inv s t a (inside s t f rest e inv) n inv)

perform-Inv :
    (up : Upstream) (s : System) (t : ℕ) (f : Frame) (rest : List Frame) (ops : List Op)
    → s.frames t ≡ f ∷ rest
    → s.taken t ≡ none
    → Inv s
    → Inv (perform up t f rest ops s)
unfolding perform
perform-Inv up s t f rest [] e n inv = end_frame-Inv s t f rest e n inv
perform-Inv up s t f rest (act (invokes c) ∷ ops) e n inv =
    call-Inv s t c (record { guard = f.guard; ops = ops } ∷ rest) (ground (arith, e))
      (ground (arith, e, inv.guarded t)) (ground (arith, e)) inv
perform-Inv up s t f rest (act a ∷ ops) e n inv = do-Inv s t f rest a ops e n inv
perform-Inv up s t f rest (super m ∷ ops) e n inv =
    set_ops-Inv s t f rest (map act (up m s.state) ++ ops) e inv
perform-Inv up s t f rest (dispatches ∷ ops) e n inv =
    set_ops-Inv s t f rest (resume_branch s.state ++ ops) e inv

advance-Inv :
    (up : Upstream) (s : System) (t : ℕ) (fs : List Frame)
    → s.frames t ≡ fs
    → s.taken t ≡ none
    → Inv s
    → Inv (advance up t fs s)
advance-Inv up s t [] e n inv = inv
advance-Inv up s t (f ∷ rest) e n inv = perform-Inv up s t f rest f.ops e n inv

runs-Inv :
    (up : Upstream) (s : System) (t : ℕ) (o : Option (List ℕ))
    → s.taken t ≡ o
    → Inv s
    → Inv (next up t o s)
runs-Inv up s t none e inv = advance-Inv up s t (s.frames t) refl e inv
runs-Inv up s t (some d) e inv = put-Inv s t d e inv

enters-Inv :
    (s : System) (t : ℕ) (e : Entry) (fs : List Frame)
    → s.frames t ≡ fs
    → Inv s
    → Inv (from_outside t e fs s)
enters-Inv s t e [] p inv = call-Inv s t e [] (ground (arith, p)) refl (ground (arith, p)) inv
enters-Inv s t e (f ∷ rest) p inv = inv

unwound-Inv :
    (s : System) (t : ℕ) (fs : List Frame)
    → s.frames t ≡ fs
    → s.taken t ≡ none
    → Inv s
    → Inv (end_frame t fs s)
unwound-Inv s t [] e n inv = inv
unwound-Inv s t (f ∷ rest) e n inv = end_frame-Inv s t f rest e n inv

raises-Inv :
    (s : System) (t : ℕ) (o : Option (List ℕ)) → s.taken t ≡ o → Inv s → Inv (unwound t o s)
raises-Inv s t none e inv = unwound-Inv s t (s.frames t) refl e inv
raises-Inv s t (some d) e inv = inv

step-Inv : (up : Upstream) (s : System) (e : Event) → Inv s → Inv (step up s e)
unfolding step
step-Inv up s (enters t e) inv = enters-Inv s t e (s.frames t) refl inv
step-Inv up s (runs t) inv = runs-Inv up s t (s.taken t) refl inv
step-Inv up s (raises t) inv = raises-Inv s t (s.taken t) refl inv

pub run-Inv : (up : Upstream) (es : List Event) (s : System) → Inv s → Inv (run up s es)
unfolding run
run-Inv up [] s inv = inv
run-Inv up (e ∷ es) s inv = run-Inv up es (step up s e) (step-Inv up s e inv)
