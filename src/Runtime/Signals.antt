-- ===== src/Runtime/Signals.antt =====
-- mt_asyncio/_signals.py: what the runtime does to the process's signal handling. A signal and a file
-- descriptor are numbers; no wakeup descriptor (-1) is `none`.
use mt_asyncio.Prelude.{ℕ, Bool, not, Option, if◌then◌else◌, ◌==◌, update}
use mt_asyncio.Errors.{Result, ok, err, value_error, runtime_error}

-- `sig_dfl` is SIG_DFL, `default_int` is `signal.default_int_handler`, `noop` is `_noop`.
pub data Handler : Type 0 where
  sig_dfl default_int noop : Handler
  own : ℕ → Handler

pub record Process : Type 0 where
  pub wakeup_fd : Option ℕ
  pub handler : ℕ → Handler

-- Whether the caller is the main thread, which signals are valid, and which the system lets one catch.
pub record Caller : Type 0 where
  pub is_main : Bool
  pub is_valid : ℕ → Bool
  pub is_catchable : ℕ → Bool

abbrev pub sigint : ℕ
sigint = 2

-- `_check_sig`, of an int.
unfoldable pub check_sig : Caller → ℕ → Result (Unit {0})
check_sig c sig = if c.is_valid sig then ok tt else err value_error

-- `_set_sig_wfd`: the descriptor that was set before.
unfoldable pub set_sig_wfd : Caller → Option ℕ → Process → Result (Option ℕ × Process)
set_sig_wfd c fd p =
    if c.is_main then ok (p.wakeup_fd, record p { wakeup_fd = fd }) else err value_error

-- `signal.signal(sig, handler)`, its EINVAL as `_sig_add` and `_sig_rem` turn it.
abbrev set_handler : Caller → ℕ → Handler → Process → Result Process
set_handler c sig h p =
    if c.is_catchable sig
    then ok (record p { handler = update p.handler sig h })
    else err runtime_error

abbrev after_check : Result (Unit {0}) → Result Process → Result Process
after_check (ok u) r = r
after_check (err e) r = err e

unfoldable pub sig_add : Caller → ℕ → Process → Result Process
unfolding check_sig
sig_add c sig p =
    if not c.is_main
    then err value_error
    else after_check (check_sig c sig) (set_handler c sig noop p)

-- What `_sig_rem` installs.
abbrev pub standard : ℕ → Handler
standard sig = if sig == sigint then default_int else sig_dfl

unfoldable pub sig_rem : Caller → ℕ → Process → Result Process
sig_rem c sig p = if not c.is_main then err value_error else set_handler c sig (standard sig) p
