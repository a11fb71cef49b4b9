-- ===== src/Sync/Queue.antt =====
-- mt_asyncio/asyncio/_sync.py, `Queue` and `LifoQueue`: their methods over the storage hooks that
-- the classes override.
pub mod Storage
pub mod Priority
pub mod History
pub mod Order
pub mod Fifo
pub mod Races
use mt_asyncio.Prelude.{
  ℕ, ◌+◌, ◌-◌, Bool, true, false, ◌&&◌, ◌||◌, Option, none, some, List, [], ◌∷◌, ◌++◌, ltb, leb,
  ◌==◌, if◌then◌else◌, remove, contains,
}
use mt_asyncio.Errors.{Result, ok, err, queue_empty, queue_full, value_error, index_error, ◌>>=◌}
use mt_asyncio.Futures.{World, create_future}
use mt_asyncio.Sync.{hand_over}
use mt_asyncio.Sync.Event.{Event, clear, set_locked}
use mt_asyncio.Sync.Event
use mt_asyncio.Sync.Condition.{wake_each}

-- `_init`, `_qlen`, `_put`, `_get`; `extract` has no answer where `_get` raises IndexError.
pub record Hooks (Item Store : Type 0) : Type 0 where
  pub empty : Store
  pub size : Store → ℕ
  pub insert : Item → Store → Store
  pub extract : Store → Option (Item × Store)

-- A `maxsize` of 0 (or below) is no bound.
pub record Queue (Store : Type 0) : Type 0 where
  pub maxsize : ℕ
  pub store : Store
  pub getters : List ℕ
  pub putters : List ℕ
  pub unfinished : ℕ
  pub finished : Event

-- The critical section of `put`: the item is stored, or there is a future to await.
pub data Put (Store : Type 0) : Type 0 where
  stored : World Bool → Queue Store → Put Store
  parked : ℕ → World Bool → Queue Store → Put Store

-- The critical section of `get`: an item, or a future to await.
pub data Got (Item Store : Type 0) : Type 0 where
  got : Item → World Bool → Queue Store → Got Item Store
  waits : ℕ → World Bool → Queue Store → Got Item Store

module _ {Item Store : Type 0} (h : Hooks Item Store) where
  -- `Queue(maxsize)`: the event starts set.
  abbrev pub new : ℕ → Queue Store
  new maxsize = record {
    maxsize = maxsize;
    store = h.empty;
    getters = [];
    putters = [];
    unfinished = 0;
    finished = record { value = true; waiters = [] };
  }

  unfoldable pub full : Queue Store → Bool
  full q = ltb 0 q.maxsize && leb q.maxsize (h.size q.store)

  -- The value of a getter's or putter's future is never read: `true` stands for None.
  unfoldable pub put_locked : Item → World Bool → Queue Store → Result (World Bool × Queue Store)
  unfolding clear
  put_locked item w q = hand_over true q.getters w >>= λ r. ok (
    r.world,
    record q {
      store = h.insert item q.store;
      unfinished = q.unfinished + 1;
      finished = clear q.finished;
      getters = r.waiters;
    },
  )

  -- One round of the loop of `put`.
  unfoldable pub put : Item → World Bool → Queue Store → Result (Put Store)
  unfolding put_locked create_future
  put item w q =
      if (q.maxsize == 0) || ltb (h.size q.store) q.maxsize
      then (put_locked item w q >>= λ r. ok (stored r.0 r.1))
      else let (f, w') = create_future w in
        ok (parked f w' (record q { putters = q.putters ++ f ∷ [] }))

  unfoldable pub put_nowait : Item → World Bool → Queue Store → Result (World Bool × Queue Store)
  unfolding put_locked
  put_nowait item w q =
      if ltb 0 q.maxsize && leb q.maxsize (h.size q.store)
      then err queue_full
      else put_locked item w q

  abbrev extracted : Option (Item × Store) → Result (Item × Store)
  extracted none = err index_error
  extracted (some r) = ok r

  unfoldable pub get_locked : World Bool → Queue Store → Result (Item × World Bool × Queue Store)
  get_locked w q = extracted (h.extract q.store) >>= λ e.
      (hand_over true q.putters w >>= λ r.
      ok (e.0, r.world, record q { store = e.1; putters = r.waiters }))

  -- One round of the loop of `get`.
  unfoldable pub get : World Bool → Queue Store → Result (Got Item Store)
  unfolding get_locked create_future
  get w q =
      if ltb 0 (h.size q.store)
      then (get_locked w q >>= λ r. ok (got r.0 r.1 r.2))
      else let (f, w') = create_future w in
        ok (waits f w' (record q { getters = q.getters ++ f ∷ [] }))

  unfoldable pub get_nowait : World Bool → Queue Store → Result (Item × World Bool × Queue Store)
  unfolding get_locked
  get_nowait w q = if h.size q.store == 0 then err queue_empty else get_locked w q

module _ {Store : Type 0} where
  -- `except CancelledError` in `put` and in `get`.
  unfoldable pub put_cancelled : ℕ → Queue Store → Queue Store
  put_cancelled f q = if contains f q.putters then record q { putters = remove f q.putters } else q

  unfoldable pub get_cancelled : ℕ → Queue Store → Queue Store
  get_cancelled f q = if contains f q.getters then record q { getters = remove f q.getters } else q

  -- The critical section of `task_done`, and whether `self._finished.set()` follows.
  unfoldable pub task_done_locked : Queue Store → Result (Bool × Queue Store)
  task_done_locked q =
      if q.unfinished == 0
      then err value_error
      else ok ((q.unfinished - 1) == 0, record q { unfinished = q.unfinished - 1 })

  -- `self._finished.set()`
  unfoldable pub set_finished : World Bool → Queue Store → Result (World Bool × Queue Store)
  unfolding set_locked wake_each
  set_finished w q =
      let (taken, e) = set_locked q.finished in
      (wake_each taken w >>= λ w'. ok (w', record q { finished = e }))

  -- `task_done` with nothing between its two parts.
  unfoldable pub task_done : World Bool → Queue Store → Result (World Bool × Queue Store)
  unfolding task_done_locked set_finished
  task_done w q = task_done_locked q >>= λ r. if r.0 then set_finished w (r.1) else ok (w, r.1)

  -- `join` up to its await: `already_set` if it returns at once.
  unfoldable pub join : World Bool → Queue Store → Event.Begun
  unfolding Event.wait
  join w q = if ltb 0 q.unfinished then Event.wait w q.finished else Event.already_set
