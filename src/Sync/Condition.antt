-- ===== src/Sync/Condition.antt =====
-- mt_asyncio/asyncio/_sync.py, `Condition`: its methods over a `Lock`.
pub mod Notify
pub mod Reacquire
pub mod Numbers
pub mod History
pub mod Waiting
use mt_asyncio.Prelude.{
  ℕ, ◌+◌, Bool, true, List, [], ◌∷◌, ◌++◌, ltb, if◌then◌else◌, contains, remove,
}
use mt_asyncio.Errors.{Result, ok, ◌>>=◌}
use mt_asyncio.Futures.{World, create_future, done, set_result}
use mt_asyncio.Sync.Lock.{Lock}
use mt_asyncio.Sync.Lock

pub record Condition : Type 0 where
  pub lock : Lock
  pub waiters : List ℕ

-- `Condition()`
abbrev pub new : Condition
new = record { lock = Lock.new; waiters = [] }

-- `Condition.wait` up to its await: queue a future, then release the lock.
unfoldable pub wait : World Bool → Condition → Result (ℕ × World Bool × Condition)
unfolding create_future
wait w c =
    let (f, w') = create_future w in
    (Lock.release w' c.lock >>= λ r.
    ok (f, r.0, record { lock = r.1; waiters = c.waiters ++ f ∷ [] }))

-- `except CancelledError` in `Condition.wait`.
unfoldable pub on_cancelled : ℕ → Condition → Condition
on_cancelled f c = if contains f c.waiters then record c { waiters = remove f c.waiters } else c

-- The loop of `notify`, after `count` waiters were woken.
unfoldable pub notify_loop : ℕ → ℕ → List ℕ → World Bool → Result (List ℕ × World Bool)
notify_loop count n [] w = ok ([], w)
notify_loop count n (f ∷ fs) w =
    let skip = notify_loop count n fs w in
    let wake = (set_result f true w >>= λ w'. notify_loop (count + 1) n fs w') in
    if ltb count n then (if done w f then skip else wake) else ok (f ∷ fs, w)

unfoldable pub notify : ℕ → World Bool → Condition → Result (World Bool × Condition)
unfolding notify_loop
notify n w c = notify_loop 0 n c.waiters w >>= λ r. ok (r.1, record c { waiters = r.0 })

-- `for fut in waiters: if not fut.done(): fut.set_result(True)`
unfoldable pub wake_each : List ℕ → World Bool → Result (World Bool)
wake_each [] w = ok w
wake_each (f ∷ fs) w =
    let skip = wake_each fs w in
    if done w f then skip else (set_result f true w >>= λ w'. wake_each fs w')

unfoldable pub notify_all : World Bool → Condition → Result (World Bool × Condition)
unfolding wake_each
notify_all w c = wake_each c.waiters w >>= λ w'. ok (w', record c { waiters = [] })
