-- ===== src/Examples/LifeCycle.antt =====
-- Loops: the theorems of `Loop.LifeCycle`, `Loop.Sockets`, and of `run`, at concrete histories.
use mt_asyncio.Prelude.{ℕ, ◌≡◌, Option, refl, Bool, true, false, none, some, List, [], ◌∷◌, arith}
use mt_asyncio.Errors.{Result, err, cancelled_error}
use mt_asyncio.Reactor.{Reactor, Surroundings}
use mt_asyncio.Reactor
use mt_asyncio.Loop.Registrations.{Registry, Event, adds, uses, empty}
use mt_asyncio.Loop.Registrations
use mt_asyncio.Loop.LifeCycle.{EventLoop, new}
use mt_asyncio.Loop.LifeCycle.Sharing.{completes, runs, ends, closes, start_system}
use mt_asyncio.Loop.LifeCycle.Sharing
use mt_asyncio.Loop.Sockets.{Answer, parks, blocks, gives, sock_sendall}
use mt_asyncio.Loop.Sockets.Sending.{has_returned, sendall_complete}
use mt_asyncio.Control.{Outcome, value, failed, was_cancelled}
use mt_asyncio.Control.Threadsafe.{ConcurrentFuture, IsConcurrentFuture}
use mt_asyncio.Control.Running.{coroutine, all_shut, run_leaves_nothing}
use mt_asyncio.Control.Running

-- A reader and a writer on descriptor 4, a socket helper on descriptor 6.
abbrev watched : List Event
watched = adds 4 false ∷ adds 4 true ∷ uses 6 1 ∷ []

abbrev watching : EventLoop
watching = record new { reactor_acquired = true; sios = Registrations.run empty watched }

abbrev surroundings : Surroundings
surroundings = record { existing = none; fresh = 3; driven = false; comes_up = true }

abbrev two_loops : List Sharing.Event
two_loops = completes 0 surroundings ∷ runs 1 surroundings ∷ ends 0 ∷ closes 0 [] ∷ closes 0 [] ∷ []

abbrev after_two : Sharing.System
after_two = Sharing.run start_system two_loops

-- The socket takes two bytes, is full, and takes the rest.
abbrev answers : List (Answer ℕ)
answers = parks ∷ gives 2 ∷ blocks ∷ parks ∷ gives 5 ∷ []

sendall_complete_example :
    (has_returned (sock_sendall (7 ∷ 8 ∷ 9 ∷ []) answers) ≡ true)
    × ((sock_sendall (7 ∷ 8 ∷ 9 ∷ []) answers).1 ≡ 7 ∷ 8 ∷ 9 ∷ [])
sendall_complete_example = sendall_complete (7 ∷ 8 ∷ 9 ∷ []) answers (omega arith)

abbrev after_run : Result ℕ × Option EventLoop × Reactor
after_run =
    Running.run false coroutine surroundings surroundings surroundings (err (cancelled_error none))
      (5 ∷ []) [] Reactor.new

run_leaves_nothing_example : (all_shut after_run.1 ≡ true) × (after_run.2.count ≡ 0)
run_leaves_nothing_example =
    run_leaves_nothing false coroutine surroundings surroundings surroundings
      (err (cancelled_error none)) (5 ∷ []) [] Reactor.new

-- A future of concurrent.futures, by its states.
data CfState : Type 0 where
  cf_pending cf_running cf_cancelled : CfState
  cf_ended : Outcome → CfState

abbrev cf_starts : CfState → Bool × CfState
cf_starts cf_pending = (true, cf_running)
cf_starts cf_running = (false, cf_running)
cf_starts cf_cancelled = (false, cf_cancelled)
cf_starts (cf_ended o) = (false, cf_ended o)

abbrev cf_cancels : CfState → Bool × CfState
cf_cancels cf_pending = (true, cf_cancelled)
cf_cancels cf_running = (false, cf_running)
cf_cancels cf_cancelled = (true, cf_cancelled)
cf_cancels (cf_ended o) = (false, cf_ended o)

abbrev cf_outcome : CfState → Option Outcome
cf_outcome cf_pending = none
cf_outcome cf_running = none
cf_outcome cf_cancelled = some was_cancelled
cf_outcome (cf_ended o) = some o

abbrev is_cf_cancelled : CfState → Bool
is_cf_cancelled cf_pending = false
is_cf_cancelled cf_running = false
is_cf_cancelled cf_cancelled = true
is_cf_cancelled (cf_ended o) = false

abbrev is_cf_pending : CfState → Bool
is_cf_pending cf_pending = true
is_cf_pending cf_running = false
is_cf_pending cf_cancelled = false
is_cf_pending (cf_ended o) = false

abbrev is_cf_running : CfState → Bool
is_cf_running cf_pending = false
is_cf_running cf_running = true
is_cf_running cf_cancelled = false
is_cf_running (cf_ended o) = false

abbrev std_future : ConcurrentFuture CfState
std_future = record {
  is_cancelled = is_cf_cancelled;
  set_running_or_notify_cancel = cf_starts;
  cancel = cf_cancels;
  set_exception = λ e f. cf_ended (failed e);
  set_result = λ v f. cf_ended (value v);
  is_pending = is_cf_pending;
  is_running = is_cf_running;
  outcome = cf_outcome;
}

std_future-IsConcurrentFuture : IsConcurrentFuture std_future
std_future-IsConcurrentFuture = record {
  starts = λ f p. ground (arith, p);
  pending_alive = λ f p. ground (arith, p);
  running_open = λ f r. ground (arith, r);
  running_stays = λ f r. ground (arith, r);
  keeps_result = λ v f r. refl;
  keeps_exception = λ e f r. refl;
}
