-- ===== src/Tls/Records.antt =====
-- What the connection lock gives the SSL protocol of mt_asyncio/asyncio/_tls.py: records reach the
-- wire in the order in which they were made, and only the owner of the lock is inside.
use mt_asyncio.Prelude.{ℕ, ◌≡◌, List, [], ◌∷◌, not, arith}
use mt_asyncio.Tls.{deferring_locked, Upstream, release}
use mt_asyncio.Sync.Semaphore.{is_empty}
use mt_asyncio.Tls.Threads.{Frame, System, start, exit_guard, Event, run}
use mt_asyncio.Tls.Locking.{Inv, start-Inv, inside, owner_of, holds}
use mt_asyncio.Tls.Interleaving.{run-Inv}

exit-holds :
    (s : System) (t : ℕ) (f : Frame) (rest : List Frame)
    → s.frames t ≡ f ∷ rest
    → Inv s
    → holds (exit_guard t f.guard s) t ≡ not (is_empty rest)
unfolding exit_guard release
exit-holds s t f [] e inv =
    let o = owner_of t s.lock.owner (inside s t f [] e inv) in
    ground (arith, o, e, inv.balanced t, inv.guarded t)
exit-holds s t f (g ∷ rest) e inv =
    let o = owner_of t s.lock.owner (inside s t f (g ∷ rest) e inv) in
    ground (arith, o, e, inv.balanced t, inv.guarded t)

-- When the last `defer_wakes` region of a thread ends, and with it the wakes go out, the thread
-- still has the connection lock exactly if the method whose region ends was called from another.
pub flush_under_lock_iff :
    (up : Upstream) (es : List Event) (t : ℕ) (f : Frame) (rest : List Frame)
    → let s = run up start es in
      s.frames t ≡ f ∷ rest
      → f.guard ≡ deferring_locked
      → s.regions t ≡ 1
      → ((exit_guard t f.guard s).regions t ≡ 0)
        × (holds (exit_guard t f.guard s) t ≡ not (is_empty rest))
unfolding exit_guard release
flush_under_lock_iff up es t f rest e g r =
    let s = run up start es in
    let inv = run-Inv up es start start-Inv in (ground (arith, g, r), exit-holds s t f rest e inv)
