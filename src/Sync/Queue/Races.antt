-- ===== src/Sync/Queue/Races.antt =====
-- Two interleavings that `Queue` of mt_asyncio/asyncio/_sync.py does not survive: a wake-up that a
-- cancelled getter takes with it, and a `join` that returns while an item is unfinished.
use mt_asyncio.Prelude.{
  ℕ, ◌+◌, ◌<◌, ◌≡◌, refl, Bool, true, false, List, [], ◌∷◌, arith, ◌==◌, contains,
}
use mt_asyncio.Errors.{ok}
use mt_asyncio.Futures.{World, done}
use mt_asyncio.Sync.{hand_over}
use mt_asyncio.Sync.Handover.{given, done-given, set_result-given, hand_over-total}
use mt_asyncio.Sync.Event.{Event, already_set}
use mt_asyncio.Sync.Event
use mt_asyncio.Sync.Condition.Notify.{wake_each_lem}
use mt_asyncio.Sync.Queue.{
  Hooks, Queue, put_locked, get_cancelled, task_done_locked, set_finished, join,
}
use mt_asyncio.Sync.Queue.Storage.{IsLawful}

module _ {Item Store : Type 0} (h : Hooks Item Store) (law : IsLawful h) where
  -- Two getters `a` and `b` are parked, a put hands its wake-up to `a`, and `a` gets CancelledError
  -- before it runs: the handler of `a` leaves the queue as it is, so the item is there and `b`
  -- stays parked with nobody left to wake it.
  pub get_wakeup_lost :
      (item : Item) (w : World Bool) (q : Queue Store) (a b : ℕ) (rest : List ℕ)
      → q.getters ≡ a ∷ b ∷ rest
      → (a == b) ≡ false
      → contains a (b ∷ rest) ≡ false
      → done w a ≡ false
      → done w b ≡ false
      → (w' : World Bool) × (q' : Queue Store) × (put_locked h item w q ≡ ok (w', q'))
        × (get_cancelled a q' ≡ q')
        × (0 < h.size q'.store)
        × (q'.getters ≡ b ∷ rest)
        × (done w' b ≡ false)
  unfolding put_locked hand_over get_cancelled
  get_wakeup_lost item w q a b rest e ne na pa pb = (
    given w a true,
    record q {
      store = h.insert item q.store;
      unfinished = q.unfinished + 1;
      finished = Event.clear q.finished;
      getters = b ∷ rest;
    },
    rw (e, hand_over) (rw (pa, set_result-given w a true pa) refl),
    rw na refl,
    omega (arith, law.size-insert item q.store),
    refl,
    ground (arith, done-given w a true b),
  )

  -- The last `task_done` has counted down to 0 and not yet set the event; a put comes between: the
  -- event is then set, and `join` returns at once although one item is unfinished.
  pub join_too_early :
      (item : Item) (w w₁ : World Bool) (q q₁ q₂ : Queue Store)
      → task_done_locked q ≡ ok (true, q₁)
      → put_locked h item w q₁ ≡ ok (w₁, q₂)
      → (w₂ : World Bool) × (q₃ : Queue Store) × (set_finished w₁ q₂ ≡ ok (w₂, q₃))
        × (q₃.unfinished ≡ 1)
        × (q₃.finished.value ≡ true)
        × (join w₂ q₃ ≡ already_set)
  unfolding task_done_locked put_locked set_finished join
  join_too_early item w w₁ q q₁ q₂ e p =
      let (w₂, k, all) = wake_each_lem q₂.finished.waiters w₁ in
      let handed = hand_over-total true q₁.getters w in
      (
        w₂,
        record q₂ { finished = record { value = true; waiters = [] } },
        ground (arith, k, handed),
        ground (arith, handed),
        refl,
        ground (arith, handed),
      )
