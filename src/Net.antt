-- ===== src/Net.antt =====
-- mt_asyncio/asyncio/_net.py: `create_server` up to its return, and `Server.wait_closed`. A socket is its file
-- descriptor; the kernel's answers are arguments.
pub mod Sockets
pub mod Clients
use mt_asyncio.Prelude.{
  ℕ, Bool, true, false, not, ◌&&◌, ◌||◌, Option, none, some, List, [], ◌∷◌, ◌++◌, if◌then◌else◌,
}
use mt_asyncio.Errors.{Exc, user, value_error, type_error, Result, ok, err, ◌>>=◌}
use mt_asyncio.Futures.{World, create_future}

pub record Socket : Type 0 where
  pub fd : ℕ
  pub is_stream : Bool

-- The arguments of `create_server` that it tests.
pub record Arguments : Type 0 where
  pub ssl_is_bool : Bool
  pub has_ssl : Bool
  pub has_handshake_timeout : Bool
  pub has_shutdown_timeout : Bool
  pub has_address : Bool
  pub sock : Option Socket
  pub start_serving : Bool

-- What an address that a host resolves to meets: the kernel has no socket of its family, or gives one,
-- whose options may be refused, and whose binding may fail with an errno.
pub data Opening : Type 0 where
  denied : Opening
  opens : ℕ → Option Exc → Option ℕ → Opening

-- The tests before anything is opened.
unfoldable pub check_arguments : Arguments → Result (Unit {0})
check_arguments a =
    if a.ssl_is_bool
    then err type_error
    else if a.has_handshake_timeout && not a.has_ssl
    then err value_error
    else if a.has_shutdown_timeout && not a.has_ssl
    then err value_error
    else ok tt

-- The loop over the addresses; `sockets` are those opened so far, which come back after a raise, too.
unfoldable pub open_sockets : List Opening → List ℕ → Result (Unit {0}) × List ℕ
open_sockets [] sockets = (ok tt, sockets)
open_sockets (denied ∷ infos) sockets = open_sockets infos sockets
open_sockets (opens fd (some e) bound ∷ infos) sockets = (err e, sockets ++ fd ∷ [])
open_sockets (opens fd none (some errno) ∷ infos) sockets = (err (user errno), sockets ++ fd ∷ [])
open_sockets (opens fd none none ∷ infos) sockets = open_sockets infos (sockets ++ fd ∷ [])

-- What came out: the server's sockets or an exception, what was opened, what was closed.
pub record Created : Type 0 where
  pub result : Result (List ℕ)
  pub opened : List ℕ
  pub closed : List ℕ

abbrev raises : Exc → Created
raises e = record { result = err e; opened = []; closed = [] }

-- The `finally` of the loop, and then `_start_serving`, which may raise.
abbrev serve : Bool → Result (Unit {0}) → Result (Unit {0}) × List ℕ → Created
serve serving starts (err e, sockets) = record {
  result = err e;
  opened = sockets;
  closed = sockets;
}
serve serving starts (ok u, sockets) = record {
  result = if serving then (starts >>= λ v. ok sockets) else ok sockets;
  opened = sockets;
  closed = [];
}

abbrev from_addresses : Arguments → Result (List Opening) → Result (Unit {0}) → Created
from_addresses a (err e) starts = raises e
from_addresses a (ok infos) starts = serve a.start_serving starts (open_sockets infos [])

abbrev given_socket : Arguments → Result (Unit {0}) → Option Socket → Created
given_socket a starts none = raises value_error
given_socket a starts (some s) = if not s.is_stream then raises value_error else record {
  result = if a.start_serving then (starts >>= λ v. ok (s.fd ∷ [])) else ok (s.fd ∷ []);
  opened = [];
  closed = [];
}

abbrev pub is_given : Option Socket → Bool
is_given none = false
is_given (some s) = true

abbrev checked : Result (Unit {0}) → Created → Created
checked (ok u) c = c
checked (err e) c = raises e

-- `create_server`, where resolving the hosts gives `infos`, in the order in which the set is iterated.
unfoldable pub create_server : Arguments → Result (List Opening) → Result (Unit {0}) → Created
unfolding check_arguments open_sockets
create_server a infos starts = checked (check_arguments a) (
    if a.has_address
    then (if is_given a.sock then raises value_error else from_addresses a infos starts)
    else given_socket a starts a.sock)

-- The fields of CPython's `Server` that count here; `waiters` is none once they were woken.
pub record Server : Type 0 where
  pub waiters : Option (List ℕ)
  pub clients : List ℕ
  pub is_closed : Bool

-- `super()._attach`, `_detach`, `_wakeup` and `close`.
pub record ServerBase : Type 0 where
  pub attach : ℕ → Server → World Bool → Server × World Bool
  pub detach : ℕ → Server → World Bool → Server × World Bool
  pub wakeup : Server → World Bool → Server × World Bool
  pub close : Server → World Bool → Server × World Bool

-- `wait_closed` up to its await.
pub data Waiting : Type 0 where
  returns : Waiting
  parks : ℕ → World Bool → Server → Waiting

abbrev wait_among : Option (List ℕ) → World Bool → Server → Waiting
wait_among none w s = returns
wait_among (some fs) w s =
    let (f, w') = create_future w in parks f w' (record s { waiters = some (fs ++ f ∷ []) })

unfoldable pub wait_closed : World Bool → Server → Waiting
unfolding create_future
wait_closed w s = wait_among s.waiters w s
