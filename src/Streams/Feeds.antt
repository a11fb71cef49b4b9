-- ===== src/Streams/Feeds.antt =====
-- The histories of a `StreamReader` of mt_asyncio/asyncio/_streams.py: a transport that feeds on any worker, and
-- one task that reads, over CPython's class as it is documented.
use mt_asyncio.Prelude.{
  ℕ, ◌+◌, ◌≡◌, Bool, true, false, ◌&&◌, ◌||◌, Option, none, some, List, [], ◌∷◌, ◌++◌, ◌==◌,
  if◌then◌else◌, length, drop,
}
use mt_asyncio.Errors.{Exc, Result, ok, err}
use mt_asyncio.Futures.{World, done, cancel}
use mt_asyncio.Streams.{
  Super, Feeding, StreamReader, new, is_none, feed_data, feed_eof, set_exception, Waited, returns,
  parks, wait_for_data, wait_over,
}

abbrev pub is_it : ℕ → Option ℕ → Bool
is_it g none = false
is_it g (some f) = f == g

-- A call of CPython's class wakes the waiter and forgets it, and completes no other future.
abbrev pub Wakes : Super → World Bool → Super × World Bool → Type 0
Wakes s w (s', w') = (s'.waiter ≡ none) × ((g : ℕ) → done w' g ≡ (is_it g s.waiter || done w g))

-- What the module relies on: CPython's documented behaviour, for at least one byte of data.
pub record IsFeeding (b : Feeding) : Type 0 where
  pub data_wakes :
      (x : ℕ) (d : List ℕ) (s : Super) (w : World Bool) → Wakes s w (b.feed_data (x ∷ d) s w)
  pub data_keeps :
      (x : ℕ) (d : List ℕ) (s : Super) (w : World Bool)
      → let s' = (b.feed_data (x ∷ d) s w).0 in
        (s'.buffer ≡ s.buffer ++ x ∷ d) × (s'.eof ≡ s.eof) × (s'.exception ≡ s.exception)
  pub eof_wakes : (s : Super) (w : World Bool) → Wakes s w (b.feed_eof s w)
  pub eof_keeps :
      (s : Super) (w : World Bool)
      → let s' = (b.feed_eof s w).0 in
        (s'.buffer ≡ s.buffer) × (s'.eof ≡ true) × (s'.exception ≡ s.exception)
  pub exception_wakes : (e : Exc) (s : Super) (w : World Bool) → Wakes s w (b.set_exception e s w)
  pub exception_keeps :
      (e : Exc) (s : Super) (w : World Bool)
      → let s' = (b.set_exception e s w).0 in
        (s'.buffer ≡ s.buffer) × (s'.eof ≡ s.eof) × (s'.exception ≡ some e)

-- `parked` is the future that the reading task awaits in `_wait_for_data`. `total` counts the bytes fed,
-- `looked` those that were fed when the task last looked at the buffer, which it does between two
-- calls of `_wait_for_data` (`ready`).
pub record System : Type 0 where
  pub reader : StreamReader
  pub world : World Bool
  pub parked : Option ℕ
  pub total : ℕ
  pub looked : ℕ
  pub ready : Bool

-- `looks` takes a number of bytes from the buffer; `interrupts` is a CancelledError at the await.
pub data Event : Type 0 where
  feeds : ℕ → List ℕ → Event
  eofs waits resumes interrupts : Event
  fails : Exc → Event
  looks : ℕ → Event
  cancels : ℕ → Option ℕ → Event

abbrev settle_fed : System → ℕ → StreamReader × World Bool → System
settle_fed s n (r, w) = record s { reader = r; world = w; total = s.total + n }

abbrev settle_waited : System → Result Waited → System
settle_waited s (ok (returns r)) = record s { reader = r; ready = false }
settle_waited s (ok (parks f w r)) = record s {
  reader = r;
  world = w;
  parked = some f;
  ready = false;
}
settle_waited s (err e) = s

abbrev pub over : System → System
over s = record s { reader = wait_over s.reader; parked = none; ready = false }

abbrev pub is_done : World Bool → Option ℕ → Bool
is_done w none = false
is_done w (some f) = done w f

module _ (b : Feeding) where
  unfoldable pub step : System → Event → System
  unfolding feed_data feed_eof set_exception wait_for_data wait_over cancel
  step s (feeds x d) = settle_fed s (length (x ∷ d)) (feed_data b (x ∷ d) s.reader s.world)
  step s eofs = settle_fed s 0 (feed_eof b s.reader s.world)
  step s (fails e) = settle_fed s 0 (set_exception b e s.reader s.world)
  step s (looks n) =
      if is_none s.parked
      then record s {
        reader = record (s.reader) {
          super = record (s.reader.super) { buffer = drop n s.reader.super.buffer };
        };
        looked = s.total;
        ready = true;
      }
      else s
  step s waits =
      if is_none s.parked && s.ready then settle_waited s (wait_for_data s.reader s.world) else s
  step s resumes = if is_done s.world s.parked then over s else s
  step s interrupts = if is_none s.parked then s else over s
  step s (cancels f msg) = record s { world = (cancel f msg s.world).1 }

  unfoldable pub run : System → List Event → System
  run s [] = s
  run s (e ∷ es) = run (step s e) es

abbrev pub start : World Bool → ℕ → System
start w limit = record {
  reader = new limit;
  world = w;
  parked = none;
  total = 0;
  looked = 0;
  ready = false;
}
