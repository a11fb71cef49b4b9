-- ===== src/Streams.antt =====
-- mt_asyncio/asyncio/_streams.py: the handoff between the transport that feeds data and the task that reads
-- it, and the one between the transport that pauses writing and the tasks that drain. What CPython's
-- classes do is a parameter; a future's None is `true`.
pub mod Feeds
pub mod Reading
pub mod Draining
use mt_asyncio.Prelude.{
  ℕ, ◌+◌, ◌-◌, ◌≡◌, ◌≤◌, Bool, true, false, not, ◌&&◌, ◌||◌, Option, none, some, List, [], ◌∷◌,
  ◌++◌, leb, ◌==◌, if◌then◌else◌, length, contains, remove,
}
use mt_asyncio.Errors.{Exc, Result, ok, err, runtime_error, user}
use mt_asyncio.Futures.{World, create_future, done}
use mt_asyncio.Sync.Semaphore.{is_empty}

-- The fields of CPython's StreamReader that the module reads.
pub record Super : Type 0 where
  pub buffer : List ℕ
  pub eof : Bool
  pub exception : Option Exc
  pub waiter : Option ℕ
  pub paused : Bool
  pub limit : ℕ

-- `super().feed_data`, `super().feed_eof` and `super().set_exception`.
pub record Feeding : Type 0 where
  pub feed_data : List ℕ → Super → World Bool → Super × World Bool
  pub feed_eof : Super → World Bool → Super × World Bool
  pub set_exception : Exc → Super → World Bool → Super × World Bool

pub record StreamReader : Type 0 where
  pub super : Super
  pub feed_gen : ℕ
  pub seen_gen : ℕ

-- `StreamReader(limit=limit)`
abbrev pub new : ℕ → StreamReader
new limit = record {
  super = record {
    buffer = [];
    eof = false;
    exception = none;
    waiter = none;
    paused = false;
    limit = limit;
  };
  feed_gen = 0;
  seen_gen = 0;
}

abbrev pub is_none {ℓ} : {A : Type ℓ} → Option A → Bool
is_none none = true
is_none (some a) = false

abbrev fed : StreamReader → Super × World Bool → StreamReader × World Bool
fed r (s, w) = (record r { super = s; feed_gen = r.feed_gen + 1 }, w)

module _ (base : Feeding) where
  unfoldable pub feed_data : List ℕ → StreamReader → World Bool → StreamReader × World Bool
  feed_data d r w = fed r (base.feed_data d r.super w)

  unfoldable pub feed_eof : StreamReader → World Bool → StreamReader × World Bool
  feed_eof r w = fed r (base.feed_eof r.super w)

  unfoldable pub set_exception : Exc → StreamReader → World Bool → StreamReader × World Bool
  set_exception e r w = fed r (base.set_exception e r.super w)

abbrev unpaused : StreamReader → StreamReader
unpaused r = record r { super = record (r.super) { paused = false } }

-- `_maybe_resume_transport`, and whether it calls `resume_reading()`.
unfoldable pub maybe_resume_transport : StreamReader → Bool × StreamReader
maybe_resume_transport r =
    if r.super.paused && leb (length r.super.buffer) r.super.limit
    then (true, unpaused r)
    else (false, r)

-- The head of `_wait_for_data`: whether it calls `resume_reading()`.
unfoldable pub wait_unpause : StreamReader → Bool × StreamReader
wait_unpause r = if r.super.paused then (true, unpaused r) else (false, r)

-- There is something to see.
abbrev pub is_visible : Super → Bool
is_visible s = not (is_empty s.buffer) || (s.eof || not (is_none s.exception))

-- The critical section of `_wait_for_data`: it returns, or there is a future to await.
pub data Waited : Type 0 where
  returns : StreamReader → Waited
  parks : ℕ → World Bool → StreamReader → Waited

abbrev park : StreamReader → World Bool → Waited
park r w =
    let (f, w') = create_future w in
    parks f w' (record r { super = record (r.super) { waiter = some f } })

abbrev unless_over : StreamReader → World Bool → Waited
unless_over r w = if r.super.eof || not (is_none r.super.exception) then returns r else park r w

unfoldable pub wait_locked : StreamReader → World Bool → Waited
unfolding create_future
wait_locked r w =
    let r' : StreamReader = record r { seen_gen = r.feed_gen } in
    if not (r.feed_gen == r.seen_gen)
    then (if is_visible r.super then returns r' else unless_over r' w)
    else unless_over r w

-- `_wait_for_data` up to its await.
unfoldable pub wait_for_data : StreamReader → World Bool → Result Waited
unfolding wait_unpause wait_locked
wait_for_data r w =
    if not (is_none r.super.waiter)
    then err runtime_error
    else ok (wait_locked (wait_unpause r).1 w)

-- The `finally` of `_wait_for_data`.
unfoldable pub wait_over : StreamReader → StreamReader
wait_over r = record r { super = record (r.super) { waiter = none }; seen_gen = r.feed_gen }

-- The fields of CPython's FlowControlMixin.
pub record Flow : Type 0 where
  pub paused : Bool
  pub connection_lost : Bool
  pub drain_waiters : List ℕ

-- `super().pause_writing`, `super().resume_writing` and `super().connection_lost` as far as they concern
-- the flow control.
pub record FlowBase : Type 0 where
  pub pause_writing : Flow → World Bool → Flow × World Bool
  pub resume_writing : Flow → World Bool → Flow × World Bool
  pub connection_lost : Flow → World Bool → Flow × World Bool

-- The ConnectionResetError of `_drain_helper`.
abbrev pub connection_reset : Exc
connection_reset = user 104

pub data Drain : Type 0 where
  refused : Exc → Drain
  drained : Drain
  blocked : ℕ → World Bool → Flow → Drain

-- `_drain_helper` up to its await.
unfoldable pub drain_helper : Flow → World Bool → Drain
unfolding create_future
drain_helper s w =
    let (f, w') = create_future w in
    if s.connection_lost
    then refused connection_reset
    else if not s.paused
    then drained
    else blocked f w' (record s { drain_waiters = s.drain_waiters ++ f ∷ [] })

-- The `finally` of `_drain_helper`.
unfoldable pub drain_over : ℕ → Flow → Flow
drain_over f s = record s { drain_waiters = remove f s.drain_waiters }

-- `StreamWriter.drain` up to `_drain_helper`: it raises the reader's exception, or goes on, with a
-- `sleep(0)` before if the transport is closing.
pub data Writer : Type 0 where
  raises : Exc → Writer
  goes_on : Bool → Writer

abbrev drain_after : Option Exc → Bool → Writer
drain_after none closing = goes_on closing
drain_after (some e) closing = raises e

unfoldable pub drain : Option StreamReader → Bool → Writer
drain none closing = goes_on closing
drain (some r) closing = drain_after r.super.exception closing
