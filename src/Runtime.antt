-- ===== src/Runtime.antt =====
-- mt_asyncio/_runtime.py: `Runtime.run_forever` with its self-socket and its signals. `_run` is native: what it
-- raises is an argument.
pub mod Signals
pub mod Restores
use mt_asyncio.Prelude.{ℕ, Bool, true, false, not, Option, none, some, List, [], ◌∷◌, if◌then◌else◌}
use mt_asyncio.Errors.{Exc, runtime_error, Result, ok, err}
use mt_asyncio.Sync.Semaphore.{is_empty}
use mt_asyncio.Runtime.Signals.{Process, Caller, set_sig_wfd, sig_add, sig_rem}

-- The fields of the native class that the module keeps; a socket is its file descriptor.
pub record Runtime : Type 0 where
  pub ssock_r : Option ℕ
  pub ssock_w : Option ℕ
  pub sig_wfd : Option ℕ
  pub sigset : List ℕ
  pub sig_listening : Bool
  pub stopping : Bool

-- What `socketpair` gives, and what setting it non-blocking raises.
pub record Pair : Type 0 where
  pub reader : ℕ
  pub writer : ℕ
  pub refuses : Option Exc

-- A method that may raise: the state comes back in either case.
abbrev pub Step : Type 0
Step = Result (Unit {0}) × Runtime × Process

abbrev pub and_then : Step → (Runtime → Process → Step) → Step
and_then (ok u, r, p) k = k r p
and_then (err e, r, p) k = (err e, r, p)

-- An exception of the `finally` takes the place of the one before.
abbrev pub finally : Step → (Runtime → Process → Step) → Step
finally (ok u, r, p) k = k r p
finally (err e, r, p) k =
    let (res, r', p') = k r p in (elim res [ ok u ↦ err e | err e' ↦ err e' ], r', p')

abbrev paired : Option Exc → Pair → Runtime → Result (Unit {0}) × Runtime
paired none s r = (ok tt, record r { ssock_r = some s.reader; ssock_w = some s.writer })
paired (some e) s r = (err e, record r { ssock_r = none; ssock_w = none })

abbrev start_over : Option ℕ → Pair → Runtime → Result (Unit {0}) × Runtime
start_over (some fd) s r = (err runtime_error, r)
start_over none s r = paired s.refuses s r

unfoldable pub ssock_start : Pair → Runtime → Result (Unit {0}) × Runtime
ssock_start s r = start_over r.ssock_w s r

abbrev stop_over : Option ℕ → Runtime → Result (Unit {0}) × Runtime
stop_over none r = (err runtime_error, r)
stop_over (some fd) r = (ok tt, record r { ssock_r = none; ssock_w = none })

unfoldable pub ssock_stop : Runtime → Result (Unit {0}) × Runtime
ssock_stop r = stop_over r.ssock_w r

-- A step of the loop that may end it, with what it did before.
abbrev next_add :
    Result Process → Process → (Process → Result (Unit {0}) × Process) → Result (Unit {0}) × Process
next_add (ok p') p k = k p'
next_add (err e) p k = (err e, p)

-- The loop of `_sig_reg`.
unfoldable pub add_all : Caller → List ℕ → Process → Result (Unit {0}) × Process
unfolding sig_add
add_all c [] p = (ok tt, p)
add_all c (sig ∷ sigs) p = next_add (sig_add c sig p) p (λ p'. add_all c sigs p')

-- The end of `_sig_reg`, by how its `try` went.
abbrev registered : Bool → Runtime → Result (Unit {0}) × Process → Step
registered no_signals r (ok u, p) = (ok tt, record r { sig_listening = true }, p)
registered no_signals r (err e, p) = (if no_signals then ok tt else err e, r, p)

abbrev with_wfd : Caller → Runtime → Process → Result (Option ℕ × Process) → Step
with_wfd c r p (err e) = registered (is_empty r.sigset) r (err e, p)
with_wfd c r p (ok (old, p')) =
    registered (is_empty r.sigset) (record r { sig_wfd = old }) (add_all c r.sigset p')

unfoldable pub sig_reg : Caller → Runtime → Process → Step
unfolding set_sig_wfd add_all
sig_reg c r p = with_wfd c r p (set_sig_wfd c r.ssock_w p)

-- `except Exception: pass`
abbrev passed : Result Process → Process → Process
passed (ok p') p = p'
passed (err e) p = p

unfoldable pub remove_all : Caller → List ℕ → Process → Process
unfolding sig_rem
remove_all c [] p = p
remove_all c (sig ∷ sigs) p = remove_all c sigs (passed (sig_rem c sig p) p)

abbrev restored : Runtime → Process → Result (Option ℕ × Process) → Step
restored r p (ok (old, p')) = (ok tt, r, p')
restored r p (err e) = (err e, r, p)

unfoldable pub sig_dereg : Caller → Runtime → Process → Step
unfolding remove_all set_sig_wfd
sig_dereg c r p =
    let p' = remove_all c r.sigset p in
    if not r.sig_listening
    then (ok tt, r, p)
    else restored (record r { sig_listening = false }) p' (set_sig_wfd c r.sig_wfd p')

-- A method that does not touch the process.
abbrev alone : Process → Result (Unit {0}) × Runtime → Step
alone p (res, r) = (res, r, p)

unfoldable pub run_forever_pre : Caller → Pair → Runtime → Process → Step
unfolding ssock_start sig_reg
run_forever_pre c s r p = and_then (alone p (ssock_start s r)) (sig_reg c)

abbrev not_stopping : Runtime → Process → Step
not_stopping r p = (ok tt, record r { stopping = false }, p)

unfoldable pub run_forever_post : Caller → Runtime → Process → Step
unfolding ssock_stop sig_dereg
run_forever_post c r p =
    and_then (and_then (sig_dereg c r p) (λ r' p'. alone p' (ssock_stop r'))) not_stopping

unfoldable pub run_forever : Caller → Pair → Result (Unit {0}) → Runtime → Process → Step
unfolding run_forever_pre run_forever_post
run_forever c s outcome r p =
    finally (and_then (run_forever_pre c s r p) (λ r' p'. (outcome, r', p'))) (run_forever_post c)

unfoldable pub stop : Runtime → Runtime
stop r = record r { stopping = true }
