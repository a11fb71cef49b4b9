-- ===== src/Streams/Reading.antt =====
-- The handoff of `StreamReader` in mt_asyncio/asyncio/_streams.py: what the reading task can rely on.
use mt_asyncio.Prelude.{
  ℕ, ◌≤◌, ◌≡◌, refl, Bool, true, false, not, ◌&&◌, ◌||◌, Option, none, some, List, [], ◌∷◌, arith,
  ◌==◌, if◌then◌else◌, Bool-cases, inl, inr, ◌⊎◌,
}
use mt_asyncio.Errors.{Exc, ok}
use mt_asyncio.Futures.{World, done, create_future}
use mt_asyncio.Sync.Handover.{done-cancel}
use mt_asyncio.Sync.Semaphore.{is_empty}
use mt_asyncio.Streams.{
  Feeding, StreamReader, is_none, is_visible, returns, parks, wait_locked, wait_for_data, wait_over,
}
use mt_asyncio.Streams.Feeds.{
  IsFeeding, System, Event, feeds, eofs, waits, resumes, interrupts, fails, looks, cancels, over,
  is_done, step, run, start,
}

-- The state of a task that is parked on a future that is not done.
abbrev Asleep : System → ℕ → Type 0
Asleep s f =
    (s.reader.super.waiter ≡ some f)
    × (s.reader.feed_gen ≡ s.reader.seen_gen)
    × (s.reader.super.eof ≡ false)
    × (s.reader.super.exception ≡ none)
    × ((is_empty s.reader.super.buffer || (s.looked == s.total)) ≡ true)

record Inv (s : System) : Type 0 where
  le : s.reader.seen_gen ≤ s.reader.feed_gen
  idle : (is_none s.parked && not (is_none s.reader.super.waiter)) ≡ false
  current : s.ready ≡ true → s.reader.feed_gen ≡ s.reader.seen_gen → s.looked ≡ s.total
  asleep : (f : ℕ) → s.parked ≡ some f → done s.world f ≡ false → Asleep s f

over-Inv : (s : System) → Inv (over s)
unfolding wait_over
over-Inv s = record { le = omega arith; idle = refl; current = λ r e. cc; asleep = λ f p h. cc }

if-Inv : (c : Bool) (s t : System) → Inv s → Inv t → Inv (if c then s else t)
if-Inv true s t h k = h
if-Inv false s t h k = k

module _ (b : Feeding) (law : IsFeeding b) where
  feeds-Inv : (s : System) (x : ℕ) (d : List ℕ) → Inv s → Inv (step b s (feeds x d))
  unfolding step
  feeds-Inv s x d inv = record {
    le = ground (arith, inv.le);
    idle = ground (arith, (law.data_wakes x d s.reader.super s.world).0);
    current = λ r e. ground (arith, e, inv.le);
    asleep = λ f p h.
        ground
          (arith, inv.asleep f p, inv.idle, p, h, (law.data_wakes x d s.reader.super s.world).1 f);
  }

  eofs-Inv : (s : System) → Inv s → Inv (step b s eofs)
  unfolding step
  eofs-Inv s inv = record {
    le = ground (arith, inv.le);
    idle = ground (arith, (law.eof_wakes s.reader.super s.world).0);
    current = λ r e. ground (arith, e, inv.le);
    asleep = λ f p h.
        ground (arith, inv.asleep f p, inv.idle, p, h, (law.eof_wakes s.reader.super s.world).1 f);
  }

  fails-Inv : (s : System) (e : Exc) → Inv s → Inv (step b s (fails e))
  unfolding step
  fails-Inv s x inv = record {
    le = ground (arith, inv.le);
    idle = ground (arith, (law.exception_wakes x s.reader.super s.world).0);
    current = λ r e. ground (arith, e, inv.le);
    asleep = λ f p h.
        ground (
          arith,
          inv.asleep f p,
          inv.idle,
          p,
          h,
          (law.exception_wakes x s.reader.super s.world).1 f,
        );
  }

  looks-Inv : (s : System) (n : ℕ) → Inv s → Inv (step b s (looks n))
  unfolding step
  looks-Inv s n inv = record {
    le = ground (arith, inv.le);
    idle = ground (arith, inv.idle);
    current = λ r e. ground (arith, r, e, inv.current);
    asleep = λ f p h. ground (arith, inv.asleep f, p, h);
  }

  waits-Inv : (s : System) → Inv s → Inv (step b s waits)
  unfolding step wait_locked create_future
  waits-Inv s inv = record {
    le = ground (arith, inv.le);
    idle = ground (arith, inv.idle);
    current = λ r e. ground (arith, inv.le, r, e, inv.current);
    asleep = λ f p h. ground (arith, inv.le, inv.current, inv.asleep f, p, h);
  }

  resumes-Inv : (s : System) → Inv s → Inv (step b s resumes)
  unfolding step
  resumes-Inv s inv = if-Inv (is_done s.world s.parked) (over s) s (over-Inv s) inv

  interrupts-Inv : (s : System) → Inv s → Inv (step b s interrupts)
  unfolding step
  interrupts-Inv s inv = if-Inv (is_none s.parked) s (over s) inv (over-Inv s)

  cancels-Inv : (s : System) (f : ℕ) (msg : Option ℕ) → Inv s → Inv (step b s (cancels f msg))
  unfolding step
  cancels-Inv s g msg inv = record {
    le = inv.le;
    idle = inv.idle;
    current = inv.current;
    asleep = λ f p h. inv.asleep f p (ground (arith, h, done-cancel s.world g msg f));
  }

  step-Inv : (s : System) (e : Event) → Inv s → Inv (step b s e)
  step-Inv s (feeds x d) inv = feeds-Inv s x d inv
  step-Inv s eofs inv = eofs-Inv s inv
  step-Inv s (fails e) inv = fails-Inv s e inv
  step-Inv s (looks n) inv = looks-Inv s n inv
  step-Inv s waits inv = waits-Inv s inv
  step-Inv s resumes inv = resumes-Inv s inv
  step-Inv s interrupts inv = interrupts-Inv s inv
  step-Inv s (cancels f msg) inv = cancels-Inv s f msg inv

  run-Inv : (es : List Event) (s : System) → Inv s → Inv (run b s es)
  unfolding run
  run-Inv [] s inv = inv
  run-Inv (e ∷ es) s inv = run-Inv es (step b s e) (step-Inv s e inv)

  start-Inv : (w : World Bool) (limit : ℕ) → Inv (start w limit)
  start-Inv w limit = record {
    le = omega arith;
    idle = refl;
    current = λ r e. cc;
    asleep = λ f p h. cc;
  }

  -- No data is lost between the transport and the reading task: over every history of feeds (of at least
  -- one byte), EOFs, exceptions, reads, waits, wake-ups and cancellations, where CPython's class
  -- behaves as documented. While the task is parked on a future that is not done, it is the reader's
  -- waiter, so the next feed wakes it; nothing was fed since the task last looked at the generation;
  -- there is no EOF and no exception; and the buffer is empty or holds no byte that the task has not
  -- looked at.
  pub no_lost_feed :
      (w : World Bool) (limit : ℕ) (es : List Event) (f : ℕ)
      → let s = run b (start w limit) es in
        s.parked ≡ some f
        → done s.world f ≡ false
        → (s.reader.super.waiter ≡ some f)
          × (s.reader.feed_gen ≡ s.reader.seen_gen)
          × (s.reader.super.eof ≡ false)
          × (s.reader.super.exception ≡ none)
          × ((is_empty s.reader.super.buffer || (s.looked == s.total)) ≡ true)
  no_lost_feed w limit es f p h = (run-Inv es (start w limit) (start-Inv w limit)).asleep f p h

-- `_wait_for_data` hands control back at once only if there is something to see, and never twice for one
-- feed: it then has data in the buffer, an EOF or an exception; and a second call with nothing fed in
-- between parks, unless there is an EOF or an exception.
pub wait_never_spins :
    (r r' : StreamReader) (w : World Bool)
    → wait_for_data r w ≡ ok (returns r')
    → (is_visible r'.super ≡ true)
      × ((wait_for_data r' w
            ≡ ok (
                parks w.next (create_future w).1 (record r' {
                  super = record (r'.super) { waiter = some w.next; paused = false };
                })))
          ⊎ ((r'.super.eof || not (is_none r'.super.exception)) ≡ true))
unfolding wait_for_data create_future
wait_never_spins r r' w h = elim (Bool-cases (r'.super.eof || not (is_none r'.super.exception))) [
  | inl e ↦ (ground (arith, h, e), inr e)
  | inr e ↦ (ground (arith, h, e), inl (ground (arith, h, e)))
]
