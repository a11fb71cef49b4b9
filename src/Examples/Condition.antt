-- ===== src/Examples/Condition.antt =====
-- A `Condition`: the theorem of `Sync.Condition.Waiting` at a concrete history.
use mt_asyncio.Prelude.{◌≡◌, refl, none, List, [], ◌∷◌}
use mt_asyncio.Sync.{hand_over}
use mt_asyncio.Sync.Lock
use mt_asyncio.Sync.Condition.History.{System, Event, waits, acquires, cancels, run, step, start}
use mt_asyncio.Examples.{fresh_world}

-- Three tasks wait; the second is cancelled, and has not run its handler.
abbrev three_wait : List Event
three_wait = acquires ∷ waits ∷ acquires ∷ waits ∷ acquires ∷ waits ∷ cancels 1 none ∷ []

abbrev waiting : System
waiting = run (start fresh_world) three_wait

three_queued : waiting.cond.waiters ≡ 0 ∷ 1 ∷ 2 ∷ []
unfolding run step Lock.release hand_over
three_queued = refl
