-- ===== src/Examples/Streams.antt =====
-- Streams: the theorems of `Streams` at concrete histories, over base classes that behave as CPython's do.
use mt_asyncio.Prelude.{
  ℕ, ◌≡◌, refl, Bool, true, false, not, ◌&&◌, ◌||◌, Option, none, some, List, [], ◌∷◌, ◌++◌, arith,
  ◌==◌, if◌then◌else◌, contains,
}
use mt_asyncio.Errors.{Result, ok, err}
use mt_asyncio.Futures.{World, done, set_result, create_future}
use mt_asyncio.Sync.Semaphore.{is_empty}
use mt_asyncio.Streams.{
  Super, Feeding, StreamReader, feed_data, wait_unpause, wait_locked, wait_for_data, FlowBase,
  drain_helper,
}
use mt_asyncio.Streams.Feeds.{
  IsFeeding, is_it, System, Event, feeds, looks, waits, step, run, start,
}
use mt_asyncio.Streams.Reading.{no_lost_feed}
use mt_asyncio.Streams.Draining.{IsFlow, pauses_writing, drains, no_stranded_writer}
use mt_asyncio.Streams.Draining
use mt_asyncio.Examples.{fresh_world}

abbrev settled : World Bool → Result (World Bool) → World Bool
settled w (ok w') = w'
settled w (err e) = w

-- `if not fut.done(): fut.set_result(None)`
unfoldable release_future : ℕ → World Bool → World Bool
unfolding set_result
release_future f w = settled w (set_result f true w)

done-release_future :
    (f g : ℕ) (w : World Bool) → done (release_future f w) g ≡ (f == g || done w g)
unfolding release_future
done-release_future f g w = ground arith

unfoldable wake_waiter : Option ℕ → World Bool → World Bool
wake_waiter none w = w
wake_waiter (some f) w = release_future f w

done-wake_waiter :
    (o : Option ℕ) (g : ℕ) (w : World Bool) → done (wake_waiter o w) g ≡ (is_it g o || done w g)
unfolding wake_waiter
done-wake_waiter none g w = refl
done-wake_waiter (some f) g w = done-release_future f g w

abbrev forgets : Super → World Bool → Super × World Bool
forgets s w = (record s { waiter = none }, wake_waiter s.waiter w)

-- CPython's `StreamReader`, as far as the module needs it.
abbrev std_reader : Feeding
std_reader = record {
  feed_data = λ d s w. forgets (record s { buffer = s.buffer ++ d }) w;
  feed_eof = λ s w. forgets (record s { eof = true }) w;
  set_exception = λ e s w. forgets (record s { exception = some e }) w;
}

std_reader-IsFeeding : IsFeeding std_reader
std_reader-IsFeeding = record {
  data_wakes = λ x d s w. (refl, λ g. done-wake_waiter s.waiter g w);
  data_keeps = λ x d s w. (refl, refl, refl);
  eof_wakes = λ s w. (refl, λ g. done-wake_waiter s.waiter g w);
  eof_keeps = λ s w. (refl, refl, refl);
  exception_wakes = λ e s w. (refl, λ g. done-wake_waiter s.waiter g w);
  exception_keeps = λ e s w. (refl, refl, refl);
}

unfoldable release_all : List ℕ → World Bool → World Bool
release_all [] w = w
release_all (f ∷ fs) w = release_all fs (release_future f w)

done-release_all :
    (fs : List ℕ) (g : ℕ) (w : World Bool) → done (release_all fs w) g ≡ (contains g fs || done w g)
unfolding release_all
done-release_all [] g w = refl
done-release_all (f ∷ fs) g w =
    ground (arith, done-release_all fs g (release_future f w), done-release_future f g w)

-- CPython's `FlowControlMixin`.
abbrev std_flow : FlowBase
std_flow = record {
  pause_writing = λ s w. (record s { paused = true }, w);
  resume_writing = λ s w. (record s { paused = false }, release_all s.drain_waiters w);
  connection_lost = λ s w.
      (record s { connection_lost = true }, if s.paused then release_all s.drain_waiters w else w);
}

std_flow-IsFlow : IsFlow std_flow
std_flow-IsFlow = record {
  pauses = λ s w. refl;
  resumes = λ s w. (refl, λ g. done-release_all s.drain_waiters g w);
  loses = λ s w. (refl, λ g. ground (arith, done-release_all s.drain_waiters g w));
}

-- Bytes come while the task looks; it waits, looks again, and parks.
abbrev reading : List Event
reading = feeds 1 (2 ∷ []) ∷ looks 1 ∷ feeds 3 [] ∷ waits ∷ looks 2 ∷ waits ∷ waits ∷ []

abbrev after_reading : System
after_reading = run std_reader (start fresh_world 64) reading

abbrev paused_and_drained : Draining.System
paused_and_drained =
    Draining.run std_flow (Draining.start fresh_world) (pauses_writing ∷ drains ∷ drains ∷ [])

no_lost_feed_example :
    (after_reading.reader.super.waiter ≡ some 0)
    × (after_reading.reader.feed_gen ≡ after_reading.reader.seen_gen)
    × (after_reading.reader.super.eof ≡ false)
    × (after_reading.reader.super.exception ≡ none)
    × ((is_empty after_reading.reader.super.buffer || (after_reading.looked == after_reading.total))
        ≡ true)
unfolding run step feed_data wait_for_data wait_unpause wait_locked create_future wake_waiter
no_lost_feed_example =
    no_lost_feed std_reader std_reader-IsFeeding fresh_world 64 reading 0 refl refl

-- Two bytes were fed since the task last waited.
abbrev with_data : StreamReader
with_data = record {
  super = record {
    buffer = 1 ∷ 2 ∷ [];
    eof = false;
    exception = none;
    waiter = none;
    paused = true;
    limit = 1;
  };
  feed_gen = 1;
  seen_gen = 0;
}

abbrev seen : StreamReader
seen = record {
  super = record {
    buffer = 1 ∷ 2 ∷ [];
    eof = false;
    exception = none;
    waiter = none;
    paused = false;
    limit = 1;
  };
  feed_gen = 1;
  seen_gen = 1;
}

no_stranded_writer_example :
    (paused_and_drained.flow.paused
      && (not paused_and_drained.flow.connection_lost
          && contains 1 paused_and_drained.flow.drain_waiters))
    ≡ true
unfolding Draining.run Draining.step drain_helper create_future
no_stranded_writer_example =
    no_stranded_writer std_flow std_flow-IsFlow fresh_world (pauses_writing ∷ drains ∷ drains ∷ [])
      1 refl refl
