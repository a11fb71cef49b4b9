-- ===== src/Futures.antt =====
-- mt_asyncio/asyncio/_futures.py and mt_asyncio/asyncio/_wakes.py: the thread-safe `Future`, its
-- callbacks, and the deferral of wakes. A future is a number, and `World` holds the object behind
-- it. Each method that holds `Future._lock` is one step here. `World.ready` lists what was passed
-- to `loop.call_soon`, oldest first. `World.tls` is the thread-local state of the thread that runs.
pub mod History
pub mod Complete
pub mod Callbacks
pub mod Wakes
use mt_asyncio.Prelude.{
  ℕ, ◌+◌, ◌-◌, Bool, true, false, not, Option, none, some, List, [], ◌∷◌, ◌++◌, length, ◌==◌,
  if◌then◌else◌, update,
}
use mt_asyncio.Errors.{
  Exc, cancelled_error, invalid_state_error, type_error, stop_iteration, Result, ok, err,
}

pub data State : Type 0 where
  pending finished cancelled : State

-- A function and the context that it runs in.
pub record Callback : Type 0 where
  pub fn : ℕ
  pub context : ℕ

pub record Future {ℓ} (A : Type ℓ) : Type ℓ where
  pub state : State
  pub result : Option A
  pub exception : Option Exc
  pub cancel_message : Option ℕ
  pub callbacks : List Callback
  pub event : Bool

-- `threading.local` of `_wakes`: the depth of `defer_wakes`, and the wakes held back, each the
-- `set` of one future's event.
pub record Tls : Type 0 where
  pub depth : ℕ
  pub pending_wakes : Option (List ℕ)

-- One `call_soon(fn, fut, context)`.
pub record Call : Type 0 where
  pub callback : Callback
  pub future : ℕ

pub record World {ℓ} (A : Type ℓ) : Type ℓ where
  pub fut : ℕ → Future A
  pub next : ℕ
  pub ready : List Call
  pub tls : Tls

abbrev pub is_pending : State → Bool
is_pending pending = true
is_pending finished = false
is_pending cancelled = false

abbrev pub is_cancelled : State → Bool
is_cancelled pending = false
is_cancelled finished = false
is_cancelled cancelled = true

abbrev pub is_finished : State → Bool
is_finished pending = false
is_finished finished = true
is_finished cancelled = false

-- `_run_callbacks`
abbrev pub calls : ℕ → List Callback → List Call
calls i [] = []
calls i (c ∷ cs) = record { callback = c; future = i } ∷ calls i cs

-- `exception()` on a class, and on an instance.
pub data Raisable : Type 0 where
  exception_class : Exc → Raisable
  instance_of : Exc → Raisable

abbrev pub instantiate : Raisable → Exc
instantiate (exception_class e) = e
instantiate (instance_of e) = e

abbrev pub is_stop_iteration : Exc → Bool
is_stop_iteration stop_iteration = true
is_stop_iteration _ = false

module _ {ℓ} {A : Type ℓ} where
  abbrev pub new_future : Future A
  new_future = record {
    state = pending;
    result = none;
    exception = none;
    cancel_message = none;
    callbacks = [];
    event = false;
  }

  unfoldable pub create_future : World A → ℕ × World A
  create_future w = (w.next, record w { fut = update w.fut w.next new_future; next = w.next + 1 })

  abbrev pub done : World A → ℕ → Bool
  done w i = not (is_pending (w.fut i).state)

  abbrev pub was_cancelled : World A → ℕ → Bool
  was_cancelled w i = is_cancelled (w.fut i).state

  -- The event of future `i` is set: its awaiters resume.
  abbrev pub set_event : World A → ℕ → World A
  set_event w i = record w { fut = update w.fut i (record (w.fut i) { event = true }) }

  abbrev pub wake_by : Option (List ℕ) → World A → ℕ → World A
  wake_by none w i = set_event w i
  wake_by (some l) w i = record w {
    tls = record { depth = w.tls.depth; pending_wakes = some (l ++ i ∷ []) };
  }

  unfoldable pub wake : World A → ℕ → World A
  wake w i = wake_by w.tls.pending_wakes w i

  unfoldable pub run_callbacks : World A → ℕ → List Callback → World A
  run_callbacks w i cs = record w { ready = w.ready ++ calls i cs }

  -- What follows the lock in `set_result`, `set_exception` and `cancel`: `f` is the new object.
  unfoldable pub complete : World A → ℕ → Future A → World A
  unfolding wake run_callbacks
  complete w i f =
      run_callbacks (wake (record w { fut = update w.fut i (record f { callbacks = [] }) }) i) i
        (w.fut i).callbacks

  unfoldable pub set_result : ℕ → A → World A → Result (World A)
  unfolding complete
  set_result i v w =
      if is_pending (w.fut i).state
      then ok (complete w i (record (w.fut i) { result = some v; state = finished }))
      else err invalid_state_error

  unfoldable pub set_exception : ℕ → Raisable → World A → Result (World A)
  unfolding complete
  set_exception i r w =
      if is_stop_iteration (instantiate r)
      then err type_error
      else if is_pending (w.fut i).state
      then ok
          (complete w i (record (w.fut i) { exception = some (instantiate r); state = finished }))
      else err invalid_state_error

  unfoldable pub cancel : ℕ → Option ℕ → World A → Bool × World A
  unfolding complete
  cancel i msg w =
      if is_pending (w.fut i).state
      then (true, complete w i (record (w.fut i) { state = cancelled; cancel_message = msg }))
      else (false, w)

  -- `current` is `contextvars.copy_context()` of the caller.
  unfoldable pub add_done_callback : ℕ → ℕ → Option ℕ → ℕ → World A → World A
  unfolding run_callbacks
  add_done_callback i fn context current w =
      let c : Callback = record {
        fn = fn;
        context = elim context [ none ↦ current | some given ↦ given ];
      } in
      if is_pending (w.fut i).state
      then record w {
        fut = update w.fut i (record (w.fut i) { callbacks = (w.fut i).callbacks ++ c ∷ [] });
      }
      else run_callbacks w i (c ∷ [])

abbrev pub kept : ℕ → List Callback → List Callback
kept fn [] = []
kept fn (c ∷ cs) = if c.fn == fn then kept fn cs else c ∷ kept fn cs

module _ {ℓ} {A : Type ℓ} where
  unfoldable pub remove_done_callback : ℕ → ℕ → World A → ℕ × World A
  remove_done_callback i fn w =
      let left = kept fn (w.fut i).callbacks in
      let removed = length (w.fut i).callbacks - length left in
      if removed == 0
      then (removed, w)
      else (removed, record w { fut = update w.fut i (record (w.fut i) { callbacks = left }) })

  abbrev raise_or : Option Exc → Result (Option A) → Result (Option A)
  raise_or none r = r
  raise_or (some e) r = err e

  abbrev result_of : State → Future A → Result (Option A)
  result_of cancelled f = err (cancelled_error f.cancel_message)
  result_of pending f = err invalid_state_error
  result_of finished f = raise_or f.exception (ok f.result)

  -- `Future.result`, and `_read` at the end of `__await__`, which makes the same tests.
  unfoldable pub result : World A → ℕ → Result (Option A)
  result w i = result_of (w.fut i).state (w.fut i)

  abbrev exception_of : State → Future A → Result (Option Exc)
  exception_of cancelled f = err (cancelled_error f.cancel_message)
  exception_of pending f = err invalid_state_error
  exception_of finished f = ok f.exception

  unfoldable pub exception : World A → ℕ → Result (Option Exc)
  exception w i = exception_of (w.fut i).state (w.fut i)

  -- `_DeferWakes.__enter__`
  unfoldable pub enter_defer : World A → World A
  enter_defer w = record w {
    tls = record {
      depth = w.tls.depth + 1;
      pending_wakes = if w.tls.depth == 0 then some [] else w.tls.pending_wakes;
    };
  }

  abbrev pub flush : List ℕ → World A → World A
  flush [] w = w
  flush (i ∷ l) w = flush l (set_event w i)

  abbrev pub flush_pending : Option (List ℕ) → World A → World A
  flush_pending none w = w
  flush_pending (some l) w = flush l w

  -- `_DeferWakes.__exit__`: only the outermost exit flushes.
  unfoldable pub exit_defer : World A → World A
  exit_defer w =
      let depth = w.tls.depth - 1 in
      if depth == 0
      then flush_pending w.tls.pending_wakes
          (record w { tls = record { depth = depth; pending_wakes = none } })
      else record w { tls = record { depth = depth; pending_wakes = w.tls.pending_wakes } }
