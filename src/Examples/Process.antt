-- ===== src/Examples/Process.antt =====
-- The process around the loops: the theorems of `Runtime`, `Net`, and of the newer parts of `Sync` and
-- `Control`, at concrete inputs.
use mt_asyncio.Prelude.{
  ℕ, ◌≡◌, inl, inr, refl, Bool, true, false, not, ◌||◌, Option, none, some, List, [], ◌∷◌, arith,
  contains, ltb, ◌==◌, if◌then◌else◌,
}
use mt_asyncio.Errors.{user, Result, ok, err}
use mt_asyncio.Futures.{World, done, cancel, create_future, set_result}
use mt_asyncio.Runtime.Signals.{sig_dfl, default_int, own, Process, Caller}
use mt_asyncio.Runtime.{Runtime, Pair, run_forever}
use mt_asyncio.Runtime.Restores.{run_forever_restores}
use mt_asyncio.Sync.Condition.{Condition}
use mt_asyncio.Net.{
  Arguments, Opening, denied, opens, check_arguments, open_sockets, Created, create_server,
  ServerBase, Server,
}
use mt_asyncio.Net.Clients.{
  IsServer, is_among, System, attaches, detaches, closes, waits, run, step, start,
  no_stranded_waiting,
}
use mt_asyncio.Net.Clients
use mt_asyncio.Tasks
use mt_asyncio.Examples.{fresh_world}

-- A main thread, where signal 9 cannot be caught.
abbrev main_thread : Caller
main_thread = record { is_main = true; is_valid = λ s. ltb s 65; is_catchable = λ s. not (s == 9) }

abbrev sockets : Pair
sockets = record { reader = 11; writer = 12; refuses = none }

abbrev idle_runtime : List ℕ → Runtime
idle_runtime signals = record {
  ssock_r = none;
  ssock_w = none;
  sig_wfd = none;
  sigset = signals;
  sig_listening = false;
  stopping = false;
}

abbrev process : Process
process = record { wakeup_fd = some 3; handler = λ s. if s == 15 then own 1 else sig_dfl }

abbrev after_run : Result (Unit {0}) × Runtime × Process
after_run = run_forever main_thread sockets (err (user 1)) (idle_runtime (2 ∷ 15 ∷ [])) process

run_forever_restores_example :
    (after_run.0 ≡ err (user 1))
    × (after_run.1.ssock_w ≡ none)
    × (after_run.1.sig_listening ≡ false)
    × (after_run.2.wakeup_fd ≡ some 3)
    × (after_run.2.handler 2 ≡ default_int)
run_forever_restores_example =
    run_forever_restores main_thread sockets (err (user 1)) (idle_runtime (2 ∷ 15 ∷ [])) process 2
      refl refl refl refl

abbrev after_failure : Result (Unit {0}) × Runtime × Process
after_failure = run_forever main_thread sockets (ok tt) (idle_runtime (15 ∷ 9 ∷ [])) process

-- Another task has the lock; waiter 0 acquires it again, and task 1 stands behind it.
abbrev contended : Condition
contended = record { lock = record { is_locked = true; waiters = 0 ∷ 1 ∷ [] }; waiters = [] }

abbrev twice_cancelled : World Bool
twice_cancelled = (cancel 0 none fresh_world).1

abbrev two_waiters : Condition
two_waiters = record { lock = record { is_locked = true; waiters = [] }; waiters = 0 ∷ 1 ∷ [] }

abbrev on_port : Arguments
on_port = record {
  ssl_is_bool = false;
  has_ssl = false;
  has_handshake_timeout = false;
  has_shutdown_timeout = false;
  has_address = true;
  sock = none;
  start_serving = true;
}

-- The second address has no socket, the third is in use.
abbrev addresses : List Opening
addresses = opens 5 none none ∷ denied ∷ opens 6 none (some 98) ∷ opens 7 none none ∷ []

abbrev refused : Created
refused = create_server on_port (ok addresses) (ok tt)

closed_again : refused.closed ≡ 5 ∷ 6 ∷ []
unfolding create_server check_arguments open_sockets
closed_again = refl

-- A server whose base class does nothing to the waiters but in `wakeup`.
abbrev woken_server : Server → Server
woken_server s = record s { waiters = none }

abbrev settled : World Bool → Result (World Bool) → World Bool
settled w (ok w') = w'
settled w (err e) = w

unfoldable release_all : List ℕ → World Bool → World Bool
unfolding set_result
release_all [] w = w
release_all (f ∷ fs) w = release_all fs (settled w (set_result f true w))

done-release_all :
    (fs : List ℕ) (g : ℕ) (w : World Bool) → done (release_all fs w) g ≡ (contains g fs || done w g)
unfolding release_all
done-release_all [] g w = refl
done-release_all (f ∷ fs) g w =
    ground (arith, done-release_all fs g (settled w (set_result f true w)))

abbrev listed : Option (List ℕ) → List ℕ
listed none = []
listed (some fs) = fs

abbrev std_server : ServerBase
std_server = record {
  attach = λ t s w. (record s { clients = t ∷ s.clients }, w);
  detach = λ t s w. (record s { clients = [] }, w);
  wakeup = λ s w. (woken_server s, release_all (listed s.waiters) w);
  close = λ s w. (record s { is_closed = true }, w);
}

done-woken :
    (s : Server) (w : World Bool) (g : ℕ)
    → done (release_all (listed s.waiters) w) g ≡ (is_among g s.waiters || done w g)
done-woken s w g = ground (arith, done-release_all (listed s.waiters) g w)

std_server-IsServer : IsServer std_server
std_server-IsServer = record {
  attaches_lem = λ t s w. inl (refl, λ g. refl);
  detaches_lem = λ t s w. inl (refl, λ g. refl);
  wakeup_lem = λ s w. inr (refl, done-woken s w);
  close_lem = λ s w. inl (refl, λ g. refl);
}

abbrev serving : List Clients.Event
serving = attaches 4 ∷ waits ∷ closes ∷ waits ∷ detaches 4 ∷ []

-- One pending future, number 0.
abbrev one_future : Tasks.Runtime ℕ
one_future = record { world = (create_future fresh_world).1; task = λ _. none }
