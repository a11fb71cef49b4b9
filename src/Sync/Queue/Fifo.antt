-- ===== src/Sync/Queue/Fifo.antt =====
-- The order in which `Queue` and `LifoQueue` of mt_asyncio/asyncio/_sync.py deliver.
use mt_asyncio.Prelude.{ℕ, ◌+◌, ◌≡◌, refl, Bool, true, List, [], ◌∷◌, ◌++◌, length-append, arith}
use mathlib.Core.List.{append_assoc}
use mt_asyncio.Errors.{ok}
use mt_asyncio.Futures.{World}
use mt_asyncio.Sync.Handover.{hand_over-total}
use mt_asyncio.Sync.Condition.Notify.{wake_each_lem}
use mt_asyncio.Sync.Queue.{Queue, put_nowait, get_nowait}
use mt_asyncio.Sync.Queue.Storage.{fifo, lifo, unsnoc-append}
use mt_asyncio.Sync.Queue.History.{
  System, Op, puts, puts_nowait, gets, gets_nowait, throws_put, throws_get, dones_task, cancels,
  step, run, start,
}

module _ {Item : Type 0} where
  fifo-step :
      (s : System Item (List Item)) (o : Op Item)
      → s.accepted ≡ s.delivered ++ s.queue.store
      → (step fifo s o).accepted ≡ (step fifo s o).delivered ++ (step fifo s o).queue.store
  unfolding step
  fifo-step s (puts a) e = ground (
    arith,
    hand_over-total true s.queue.getters s.world,
    append_assoc s.delivered s.queue.store (a ∷ []),
  )
  fifo-step s (puts_nowait a) e = ground (
    arith,
    hand_over-total true s.queue.getters s.world,
    append_assoc s.delivered s.queue.store (a ∷ []),
  )
  fifo-step s gets e = fifo_got s.queue.store refl
    where
      fifo_got :
          (l : List Item)
          → s.queue.store ≡ l
          → (step fifo s gets).accepted
            ≡ (step fifo s gets).delivered ++ (step fifo s gets).queue.store
      fifo_got [] z = ground arith
      fifo_got (a ∷ l) z =
          ground (
            arith,
            hand_over-total true s.queue.putters s.world,
            append_assoc s.delivered (a ∷ []) l,
          )
  fifo-step s gets_nowait e = fifo_got s.queue.store refl
    where
      fifo_got :
          (l : List Item)
          → s.queue.store ≡ l
          → (step fifo s gets_nowait).accepted
            ≡ (step fifo s gets_nowait).delivered ++ (step fifo s gets_nowait).queue.store
      fifo_got [] z = ground arith
      fifo_got (a ∷ l) z =
          ground (
            arith,
            hand_over-total true s.queue.putters s.world,
            append_assoc s.delivered (a ∷ []) l,
          )
  fifo-step s (throws_put f) e = ground arith
  fifo-step s (throws_get f) e = ground arith
  fifo-step s dones_task e =
      ground (arith, e, wake_each_lem s.queue.finished.waiters s.world, wake_each_lem [] s.world)
  fifo-step s (cancels f msg) e = e

  fifo-run :
      (os : List (Op Item)) (s : System Item (List Item))
      → s.accepted ≡ s.delivered ++ s.queue.store
      → (run fifo s os).accepted ≡ (run fifo s os).delivered ++ (run fifo s os).queue.store
  unfolding run
  fifo-run [] s e = e
  fifo-run (o ∷ os) s e = fifo-run os (step fifo s o) (fifo-step s o e)

  -- First in, first out: over every history of puts, gets, deliveries of CancelledError and
  -- `task_done`s, the items a `Queue` delivered, then those it still holds, are the items it
  -- accepted, in the order in which they were put.
  pub fifo_order :
      (w : World Bool) (n : ℕ) (os : List (Op Item))
      → let s = run fifo (start fifo w n) os in s.accepted ≡ s.delivered ++ s.queue.store
  fifo_order w n os = fifo-run os (start fifo w n) refl

  -- Last in, first out: what `put` stored in a `LifoQueue` is what the next `get_nowait` returns,
  -- and it leaves the items as they were before the put, on any state of the waiters.
  pub lifo_order :
      (a : Item) (w w' : World Bool) (q q' : Queue (List Item))
      → put_nowait lifo a w q ≡ ok (w', q')
      → (w'' : World Bool) × (q'' : Queue (List Item)) × (get_nowait lifo w' q' ≡ ok (a, w'', q''))
        × (q''.store ≡ q.store)
        × (q''.unfinished ≡ q.unfinished + 1)
  unfolding put_nowait get_nowait
  lifo_order a w w' q q' e =
      let (r, o) = hand_over-total true q'.putters w' in
      (
        r.world,
        record q' { store = q.store; putters = r.waiters },
        ground (
          arith,
          o,
          hand_over-total true q.getters w,
          unsnoc-append q.store a,
          length-append q.store (a ∷ []),
        ),
        refl,
        ground (arith, hand_over-total true q.getters w),
      )
