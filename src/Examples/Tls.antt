-- ===== src/Examples/Tls.antt =====
-- The theorems on mt_asyncio/asyncio/_tls.py at concrete histories.
use mt_asyncio.Prelude.{◌≤◌, ◌≡◌, refl, true, false, none, some, List, [], ◌∷◌}
use mt_asyncio.Errors.{ok, cancelled_error}
use mt_asyncio.Tls.{
  produces, process_outgoing, invokes, parent, Upstream, app, protocol, AppMethod, do_read,
  deferring_locked, act, guard_of, work_of,
}
use mt_asyncio.Tls.Threads.{Frame, enters, runs, raises, start, step, run, exit_guard}
use mt_asyncio.Tls.Threads
use mt_asyncio.Tls.Upgrade.{
  AppTransport, Transport, begins, ends, asks, loses, prepared, start_tls, waiting, init,
}
use mt_asyncio.Tls.Upgrade
use mt_asyncio.Tls.Upgrade.Keeping.{is_queued, failed}
use mt_asyncio.Tls.Upgrade.Contained.{start_tls_contained}

-- A write makes a record, reads and writes out; a read makes one, and one more on the way out.
abbrev methods : Upstream
methods (parent (app AppMethod.write)) st =
    produces 1 ∷ invokes (protocol do_read) ∷ process_outgoing ∷ []
methods (parent (protocol do_read)) st = produces 2 ∷ process_outgoing ∷ produces 3 ∷ []
methods m st = []

-- The thread 0 is in a write, the thread 1 waits for the lock twice, and then reads.
abbrev interleaved : List Threads.Event
interleaved =
    enters 0 (app AppMethod.write)
    ∷ runs 0
    ∷ runs 0
    ∷ enters 1 (protocol do_read)
    ∷ runs 0
    ∷ runs 0
    ∷ runs 0
    ∷ runs 0
    ∷ enters 1 (protocol do_read)
    ∷ runs 0
    ∷ []

interleaved_on_wire : (run methods start interleaved).wire ≡ 1 ∷ 2 ∷ []
unfolding run step Threads.call Threads.perform Threads.enter_guard guard_of work_of
interleaved_on_wire = refl

-- A read inside a write.
abbrev nested_read : List Threads.Event
nested_read = enters 0 (app AppMethod.write) ∷ runs 0 ∷ runs 0 ∷ runs 0 ∷ []

abbrev reading_frame : Frame
reading_frame = record { guard = deferring_locked; ops = work_of (protocol do_read) }

abbrev writing_frame : Frame
writing_frame = record { guard = guard_of (app AppMethod.write); ops = act process_outgoing ∷ [] }

-- An open transport with a lock, that reads.
abbrev open_transport : Transport
open_transport = record {
  start_tls_compatible = true;
  lock = some 4;
  upgraded = false;
  reading = true;
  closing = false;
}

-- The task is cancelled, and the handle runs too late.
abbrev cancelled_wait : List Upgrade.Event
cancelled_wait = ends (some (cancelled_error none)) ∷ begins false ∷ loses ∷ []

start_tls_contained_example :
    (u : Upgrade.Upgrade) × (start_tls 9 open_transport ≡ ok u)
    × (let s = Upgrade.run (waiting u) cancelled_wait in
        (failed s.upgrade.outcome ≡ true
          → (s.upgrade.transport.closing ≡ true) × (is_queued s.upgrade.begin ≡ false))
        × ((a : AppTransport) → s.upgrade.outcome ≡ some (ok a) → (a.lock ≡ 4) × (a.serial ≡ 0))
        × (s.upgrade.made ≤ 1))
start_tls_contained_example = start_tls_contained 9 open_transport cancelled_wait refl

handshake_returns :
    (Upgrade.run
      (waiting (prepared 9 open_transport))
      (begins false ∷ ends none ∷ [])).upgrade.outcome
    ≡ some (ok (record { lock = 4; serial = 0 }))
unfolding Upgrade.run Upgrade.step init
handshake_returns = refl
