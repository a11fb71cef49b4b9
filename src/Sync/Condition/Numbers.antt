-- ===== src/Sync/Condition/Numbers.antt =====
-- `notify` and `notify_all` of mt_asyncio/asyncio/_sync.py make no futures.
use mt_asyncio.Prelude.{
  ℕ, ◌+◌, ◌≡◌, inl, inr, refl, ◌∙◌, Bool, true, List, [], ◌∷◌, ◌++◌, arith, ltb, Bool-cases,
  Distinct,
}
use mt_asyncio.Errors.{Result, ok, err, ◌>>=◌}
use mt_asyncio.Futures.{World, done}
use mt_asyncio.Sync.Handover.{given, set_result-given, next-given}
use mt_asyncio.Sync.Condition.{Condition, notify_loop, wake_each, notify}

pub Distinct-rest : (front rest : List ℕ) → Distinct (front ++ rest) → Distinct rest
Distinct-rest [] rest d = d
Distinct-rest (x ∷ front) rest d = Distinct-rest front rest d.1

notify_loop-next :
    (count n : ℕ) (fs rest : List ℕ) (w w' : World Bool)
    → notify_loop count n fs w ≡ ok (rest, w')
    → w'.next ≡ w.next
unfolding notify_loop
notify_loop-next count n [] rest w w' e = ground (arith, e)
notify_loop-next count n (f ∷ fs) rest w w' e = elim (Bool-cases (ltb count n)) [
  | inl more ↦ elim (Bool-cases (done w f)) [
    | inl d ↦ notify_loop-next count n fs rest w w' (rw (more, d) at e)
    | inr d ↦
        notify_loop-next (count + 1) n fs rest (given w f true) w'
          (rw (more, d, set_result-given w f true d) at e)
        ∙ next-given w f true
  ]
  | inr stop ↦ ground (arith, e, stop)
]

loop_result :
    (c : Condition) (k : ℕ) (r : Result (List ℕ × World Bool)) (w' : World Bool) (c' : Condition)
    → ((rest : List ℕ) (v : World Bool) → r ≡ ok (rest, v) → v.next ≡ k)
    → ◌>>=◌ {B = World Bool × Condition} r (λ x. ok (x.1, record c { waiters = x.0 })) ≡ ok (w', c')
    → w'.next ≡ k
loop_result c k (ok (rest, v)) w' c' h e = ground (arith, h rest v refl, e)
loop_result c k (err x) w' c' h e = cc

pub notify-next :
    (n : ℕ) (w : World Bool) (c : Condition) (w' : World Bool) (c' : Condition)
    → notify n w c ≡ ok (w', c')
    → w'.next ≡ w.next
unfolding notify
notify-next n w c w' c' e =
    loop_result c w.next (notify_loop 0 n c.waiters w) w' c'
      (λ rest v h. notify_loop-next 0 n c.waiters rest w v h) e

pub wake_each-next : (fs : List ℕ) (w w' : World Bool) → wake_each fs w ≡ ok w' → w'.next ≡ w.next
unfolding wake_each
wake_each-next [] w w' e = ground (arith, e)
wake_each-next (f ∷ fs) w w' e = elim (Bool-cases (done w f)) [
  | inl d ↦ wake_each-next fs w w' (rw d at e)
  | inr d ↦
      wake_each-next fs (given w f true) w' (rw (d, set_result-given w f true d) at e)
      ∙ next-given w f true
]
