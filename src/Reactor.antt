-- ===== src/Reactor.antt =====
-- mt_asyncio/asyncio/_reactor.py: the reference-counted life cycle of the runtime that the loops
-- share.
pub mod Balance
use mt_asyncio.Prelude.{
  ℕ, ◌+◌, ◌-◌, Bool, true, false, not, ◌&&◌, Option, none, some, ◌==◌, if◌then◌else◌,
}
use mt_asyncio.Errors.{Result, ok, err, runtime_error}

-- `_Reactor`; a runtime is a number, `thread` says that one was started for it.
pub record Reactor : Type 0 where
  pub count : ℕ
  pub runtime : Option ℕ
  pub thread : Bool
  pub owns_run : Bool

abbrev pub new : Reactor
new = record { count = 0; runtime = none; thread = false; owns_run = false }

-- What a start meets: the runtime that exists and whether it was made with `context=True`, the one
-- that would be made, whether the runtime is driven already, and whether its thread comes up in
-- time.
pub record Surroundings : Type 0 where
  pub existing : Option (ℕ × Bool)
  pub fresh : ℕ
  pub driven : Bool
  pub comes_up : Bool

-- `_start` from the choice of the runtime on: whether a thread was started, how it ends, the state.
abbrev drive : ℕ → Surroundings → Reactor → Bool × Result ℕ × Reactor
drive rt e r =
    if e.driven then (false, ok rt, record r { runtime = some rt; owns_run = false }) else (
      true,
      if e.comes_up then ok rt else err runtime_error,
      record r { runtime = some rt; thread = true; owns_run = true },
    )

abbrev choose : Option (ℕ × Bool) → Bool → Surroundings → Reactor → Bool × Result ℕ × Reactor
choose none context e r = drive e.fresh e r
choose (some (rt, has_context)) context e r =
    if context && not has_context then (false, err runtime_error, r) else drive rt e r

unfoldable pub start : Bool → Surroundings → Reactor → Bool × Result ℕ × Reactor
start context e r = choose e.existing context e r

abbrev counted : Bool × Result ℕ × Reactor → Bool × Result (Option ℕ) × Reactor
counted (b, ok rt, r) = (b, ok r.runtime, record r { count = r.count + 1 })
counted (b, err x, r) = (b, err x, r)

-- `acquire`, and whether it started a thread.
unfoldable pub acquire : Bool → Surroundings → Reactor → Bool × Result (Option ℕ) × Reactor
unfolding start
acquire context e r =
    if r.count == 0
    then counted (start context e r)
    else (false, ok r.runtime, record r { count = r.count + 1 })

-- `_stop`: the runtime to stop.
unfoldable pub stop : Reactor → Option ℕ × Reactor
stop r = (r.runtime, record r { thread = false; owns_run = false })

-- `release`, and the runtime that it stops.
unfoldable pub release : Reactor → Option ℕ × Reactor
unfolding stop
release r =
    let fewer = record r { count = r.count - 1 } in
    if r.count == 0
    then (none, r)
    else if (r.count - 1) == 0 && r.owns_run
    then stop fewer
    else (none, fewer)
