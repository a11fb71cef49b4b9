-- ===== src/Control/Completed.antt =====
-- `as_completed` of mt_asyncio/asyncio/_utils.py: its callbacks, one at a time, over the Queue of
-- mt_asyncio/asyncio/_sync.py that it collects in. A future is a number; none stands for a timeout.
use mt_asyncio.Prelude.{
  ℕ, ◌+◌, ◌≡◌, refl, Bool, true, false, not, ◌&&◌, Option, none, some, List, [], ◌∷◌, ◌++◌, arith,
  if◌then◌else◌, length, length-append, contains, remove, Bool-cases, inl, inr,
}
use mt_asyncio.Errors.{Result, ok, err, timeout_error, ◌>>=◌}
use mt_asyncio.Futures.{World}
use mt_asyncio.Sync.Handover.{hand_over-total}
use mt_asyncio.Sync.Queue.{Queue, put_nowait}
use mt_asyncio.Sync.Queue
use mt_asyncio.Sync.Queue.Storage.{fifo}
use mt_asyncio.Sync.Semaphore.{is_empty}

-- What the callbacks of one `as_completed` share; `todo` is a set, `timer_cancelled` says that the timeout's
-- handle was cancelled.
pub record Completing : Type 0 where
  pub todo : List ℕ
  pub results : Queue (List (Option ℕ))
  pub world : World Bool
  pub has_timeout : Bool
  pub timer_cancelled : Bool

abbrev pub begin : List ℕ → Bool → World Bool → Completing
begin fs has_timeout w = record {
  todo = fs;
  results = Queue.new fifo 0;
  world = w;
  has_timeout = has_timeout;
  timer_cancelled = false;
}

abbrev stored : Completing → Result (World Bool × Queue (List (Option ℕ))) → Result Completing
stored c (ok (w, q)) = ok (record c { world = w; results = q })
stored c (err e) = err e

-- `done.put_nowait(item)`
unfoldable pub put_item : Option ℕ → Completing → Result Completing
unfolding put_nowait
put_item a c = stored c (put_nowait fifo a c.world c.results)

-- `_on_completion(f)`
unfoldable pub on_completion : ℕ → Completing → Result Completing
unfolding put_item
on_completion f c =
    if not (contains f c.todo)
    then ok c
    else (put_item (some f) (record c { todo = remove f c.todo }) >>= λ c'.
        ok
          (if is_empty c'.todo && c'.has_timeout then record c' { timer_cancelled = true } else c'))

-- The loop of `_on_timeout` over `list(todo)`.
unfoldable pub put_timeouts : List ℕ → Completing → Result Completing
unfolding put_item
put_timeouts [] c = ok c
put_timeouts (f ∷ fs) c = put_item none c >>= λ c'. put_timeouts fs c'

-- `_on_timeout()`
unfoldable pub on_timeout : Completing → Result Completing
unfolding put_timeouts
on_timeout c = put_timeouts c.todo c >>= λ c'. ok (record c' { todo = [] })

-- `range(len(todo))`: how many awaitables the generator yields.
unfoldable pub yields : Completing → ℕ
yields c = length c.todo

-- What `_wait_for_one` makes of an item; `outcome` is `f.result()`.
abbrev pub one_result : (ℕ → Result ℕ) → Option ℕ → Result ℕ
one_result outcome none = err timeout_error
one_result outcome (some f) = outcome f

pub data Event : Type 0 where
  completes : ℕ → Event
  times_out : Event

unfoldable pub step : Event → Completing → Result Completing
unfolding on_completion on_timeout
step (completes f) c = on_completion f c
step times_out c = on_timeout c

unfoldable pub run : List Event → Completing → Result Completing
unfolding step
run [] c = ok c
run (e ∷ es) c = step e c >>= λ c'. run es c'

-- The queue has no bound, and holds one item more.
put_item_lem :
    (a : Option ℕ) (c : Completing)
    → c.results.maxsize ≡ 0
    → (c' : Completing) × (put_item a c ≡ ok c')
      × (c'.todo ≡ c.todo)
      × (c'.results.maxsize ≡ 0)
      × (c'.results.store ≡ c.results.store ++ a ∷ [])
unfolding put_item
put_item_lem a c m =
    let (r, e) = hand_over-total true c.results.getters c.world in
    (
      record c {
        world = r.world;
        results = record (c.results) {
          store = c.results.store ++ a ∷ [];
          getters = r.waiters;
          unfinished = c.results.unfinished + 1;
          finished = record { value = false; waiters = c.results.finished.waiters };
        };
      },
      ground (arith, e, m),
      refl,
      m,
      refl,
    )

length-remove : (f : ℕ) (xs : List ℕ) → contains f xs ≡ true → length xs ≡ length (remove f xs) + 1
length-remove f [] h = cc
length-remove f (x ∷ xs) h = ground (arith, length-remove f xs)

-- Each of `n` futures is to do, or has its item.
abbrev Balanced : ℕ → Completing → Type 0
Balanced n c = (c.results.maxsize ≡ 0) × (length c.todo + length c.results.store ≡ n)

on_completion-Balanced :
    (n f : ℕ) (c : Completing)
    → Balanced n c
    → (c' : Completing) × (on_completion f c ≡ ok c') × Balanced n c'
unfolding on_completion
on_completion-Balanced n f c (m, h) = elim (Bool-cases (contains f c.todo)) [
  | inl e ↦
      let (c', p, t, m', q) = put_item_lem (some f) (record c { todo = remove f c.todo }) m in
      let last = is_empty c'.todo && c'.has_timeout in
      (
        if last then record c' { timer_cancelled = true } else c',
        rw (e, p) refl,
        (
          ground (arith, m'),
          ground (
            arith,
            h,
            t,
            q,
            length-remove f c.todo e,
            length-append c.results.store (some f ∷ []),
          ),
        ),
      )
  | inr e ↦ (c, rw e refl, (m, h))
]

put_timeouts-Balanced :
    (fs : List ℕ) (c : Completing)
    → c.results.maxsize ≡ 0
    → (c' : Completing) × (put_timeouts fs c ≡ ok c')
      × (c'.results.maxsize ≡ 0)
      × (length c'.results.store ≡ length fs + length c.results.store)
unfolding put_timeouts
put_timeouts-Balanced [] c m = (c, refl, m, omega arith)
put_timeouts-Balanced (f ∷ fs) c m =
    let (c₁, p, t, m₁, q) = put_item_lem none c m in
    let (c₂, p', m₂, k) = put_timeouts-Balanced fs c₁ m₁ in
    (c₂, rw p p', m₂, ground (arith, k, q, length-append c.results.store (none ∷ [])))

step-Balanced :
    (n : ℕ) (e : Event) (c : Completing)
    → Balanced n c
    → (c' : Completing) × (step e c ≡ ok c') × Balanced n c'
unfolding step on_timeout
step-Balanced n (completes f) c b = on_completion-Balanced n f c b
step-Balanced n times_out c (m, h) =
    let (c', p, m', k) = put_timeouts-Balanced c.todo c m in
    (record c' { todo = [] }, rw p refl, (m', omega (arith, k, h)))

run-Balanced :
    (n : ℕ) (es : List Event) (c : Completing)
    → Balanced n c
    → (c' : Completing) × (run es c ≡ ok c') × Balanced n c'
unfolding run
run-Balanced n [] c b = (c, refl, b)
run-Balanced n (e ∷ es) c b =
    let (c₁, p, b₁) = step-Balanced n e c b in
    let (c₂, q, b₂) = run-Balanced n es c₁ b₁ in (c₂, rw p q, b₂)

-- In any order of completions and timeouts, repeated or not, no callback of `as_completed` raises; each
-- future is in `todo` or has one item, its result or a timeout. So a generator that evaluates
-- `len(todo)` after these callbacks yields one awaitable less for each item that is already there.
pub as_completed_count :
    (fs : List ℕ) (has_timeout : Bool) (w : World Bool) (es : List Event)
    → (c : Completing) × (run es (begin fs has_timeout w) ≡ ok c)
      × (yields c + length c.results.store ≡ length fs)
unfolding yields
as_completed_count fs has_timeout w es =
    let (c, p, b) = run-Balanced (length fs) es (begin fs has_timeout w) (refl, omega arith) in
    (c, p, b.1)
