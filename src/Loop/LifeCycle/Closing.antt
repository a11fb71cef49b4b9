-- ===== src/Loop/LifeCycle/Closing.antt =====
-- What `EventLoop.close` of mt_asyncio/asyncio/_loop.py leaves of the file descriptors.
use mt_asyncio.Prelude.{ℕ, ◌≡◌, refl, List, [], ◌∷◌, ◌++◌}
use mt_asyncio.Reactor.{Reactor}
use mt_asyncio.Reactor
use mt_asyncio.Loop.Registrations.{Registry, Event, releases, step, run}

release_events : List ℕ → List Event
release_events [] = []
release_events (fd ∷ fds) = releases fd ∷ release_events fds

pub run-append : (es es' : List Event) (r : Registry) → run r (es ++ es') ≡ run (run r es) es'
unfolding run
run-append [] es' r = refl
run-append (e ∷ es) es' r = run-append es es' (step r e)
