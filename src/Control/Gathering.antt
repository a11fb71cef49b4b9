-- ===== src/Control/Gathering.antt =====
-- `gather` of mt_asyncio/asyncio/_ctl.py as a whole: children that end, callbacks that run on any
-- worker in any order, a cancellation of the caller, and what the caller does at the end.
pub mod Callbacks
pub mod Spreading
use mt_asyncio.Prelude.{
  ℕ, zero, suc, Bool, true, false, not, ◌&&◌, ◌||◌, Option, none, some, List, [], ◌∷◌,
  if◌then◌else◌, length, update,
}
use mt_asyncio.Errors.{Exc, cancelled_error, Result, ok, err}
use mt_asyncio.Futures.{World, done, is_stop_iteration, result, cancel}
use mt_asyncio.Control.{Outcome, Entry, Gather, new_gather, get_elem?, exc_of, child_done}

-- `except CancelledError`
abbrev pub catches_cancel : Exc → Bool
catches_cancel (cancelled_error m) = true
catches_cancel _ = false

abbrev pub raises_cancel {ℓ} : {A : Type ℓ} → Result A → Bool
raises_cancel (ok a) = false
raises_cancel (err e) = catches_cancel e

-- The children that `gather` cancels at its end, of which `r` is the result of its outer future.
unfoldable pub end_gather : Result (Option (List Entry)) → List ℕ → List ℕ
end_gather r children = if raises_cancel r then children else []

-- `children` are futures, `ended` says how each has ended, `called` whether the callback of a child,
-- by its index, has run. `outcome` is how `gather` ended, `cancelled` what it cancelled then,
-- `raised` whether a callback raised. `cause` says that the caller was cancelled while the outer
-- future was pending, or that a cancellation was the first exception of a child, where those are
-- not returned.
pub record System : Type 0 where
  pub world : World (List Entry)
  pub gather : Gather
  pub children : List ℕ
  pub ended : ℕ → Option Outcome
  pub called : ℕ → Bool
  pub outcome : Option (Result (Option (List Entry)))
  pub cancelled : List ℕ
  pub raised : Bool
  pub cause : Bool

-- `runs i` runs the callback of the child at the index `i`, `cancels` is a cancellation of the
-- caller, which reaches the outer future, `resumes` the caller's wake.
pub data Event : Type 0 where
  ends : ℕ → Outcome → Event
  runs : ℕ → Event
  cancels : Option ℕ → Event
  resumes : Event

abbrev pub start : World (List Entry) → ℕ → List ℕ → Bool → System
start w outer children return_exceptions = record {
  world = w;
  gather = new_gather outer (length children) return_exceptions;
  children = children;
  ended = λ _. none;
  called = λ _. false;
  outcome = none;
  cancelled = [];
  raised = false;
  cause = false;
}

-- No future ends in a StopIteration: `set_exception` refuses it.
abbrev pub refused : Option Exc → Bool
refused none = false
refused (some e) = is_stop_iteration e

abbrev pub first_end : Option Outcome → Outcome → Outcome
first_end none o = o
first_end (some p) o = p

abbrev pub how_ended : System → Option ℕ → Option Outcome
how_ended s none = none
how_ended s (some f) = s.ended f

abbrev pub is_cancel_exc : Option Exc → Bool
is_cancel_exc none = false
is_cancel_exc (some e) = catches_cancel e

abbrev pub decides : System → Outcome → Bool
decides s o =
    not s.gather.settled
    && not (done s.world s.gather.outer)
    && not s.gather.return_exceptions
    && is_cancel_exc (exc_of o)

abbrev pub after_call : System → Result (World (List Entry) × Gather) → System
after_call s (ok (w, g)) = record s { world = w; gather = g }
after_call s (err e) = record s { raised = true }

abbrev pub run_callback : System → ℕ → Option Outcome → System
run_callback s i none = s
run_callback s i (some o) =
    if s.called i
    then s
    else after_call (record s { called = update s.called i true; cause = s.cause || decides s o })
        (child_done i o s.world s.gather)

abbrev pub cancel_caller : System → Bool × World (List Entry) → System
cancel_caller s (b, w) = record s { world = w; cause = s.cause || b }

-- The caller resumes with the result of the outer future.
abbrev pub caller_resumed : System → Result (Option (List Entry)) → System
caller_resumed s r = record s { outcome = some r; cancelled = end_gather r s.children }

abbrev pub while_waiting : Option (Result (Option (List Entry))) → System → System → System
while_waiting none s s' = s'
while_waiting (some r) s s' = s

unfoldable pub step : System → Event → System
unfolding child_done end_gather cancel
step s (ends f o) =
    if refused (exc_of o)
    then s
    else record s { ended = update s.ended f (some (first_end (s.ended f) o)) }
step s (runs i) = run_callback s i (how_ended s (get_elem? s.children i))
step s (cancels m) = while_waiting s.outcome s (cancel_caller s (cancel s.gather.outer m s.world))
step s resumes =
    while_waiting s.outcome s
      (if done s.world s.gather.outer then caller_resumed s (result s.world s.gather.outer) else s)

unfoldable pub run : System → List Event → System
run s [] = s
run s (e ∷ es) = run (step s e) es
