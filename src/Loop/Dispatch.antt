-- ===== src/Loop/Dispatch.antt =====
-- The dispatches of one `_FdHandle` of mt_asyncio/asyncio/_loop.py, on any workers.
use mt_asyncio.Prelude.{
  ℕ, suc, ◌+◌, ◌-◌, ◌≤◌, ◌≡◌, Bool, true, not, ◌&&◌, ◌||◌, List, [], ◌∷◌, ltb, ◌==◌, if◌then◌else◌,
}
use mt_asyncio.Loop.{
  Handle, new, cancel, Round, left, parked, dispatched, again, arm_round, wake, dispatch,
  arm_retries,
}

-- How many rounds of `_arm` are under way, with their attempts; how often the handle waits for an
-- edge; how many dispatches are queued and how many run the callback; how many ended by SystemExit
-- or KeyboardInterrupt, which leave `_dispatch` before it arms again.
pub record System : Type 0 where
  pub handle : Handle
  pub arming : List ℕ
  pub waiting : ℕ
  pub queued : ℕ
  pub running : ℕ
  pub broken : ℕ

pub data Event : Type 0 where
  rounds : Bool → Bool → Event
  edges begins returns breaks cancels : Event

abbrev pub size : List ℕ → ℕ
size [] = 0
size (n ∷ l) = suc (size l)

abbrev settle_round : System → List ℕ → Round → System
settle_round s rest left = record s { arming = rest }
settle_round s rest parked = record s { arming = rest; waiting = s.waiting + 1 }
settle_round s rest dispatched = record s { arming = rest; queued = s.queued + 1 }
settle_round s rest (again n) = record s { arming = n ∷ rest }

abbrev round : Bool → Bool → System → List ℕ → System
round cached ready s [] = s
round cached ready s (n ∷ rest) = settle_round s rest (arm_round cached ready n s.handle)

-- An edge takes the handle from the reactor's slot; `begins` takes a queued dispatch.
unfoldable pub step : System → Event → System
unfolding cancel arm_round wake dispatch
step s (rounds cached ready) = round cached ready s s.arming
step s edges =
    if ltb 0 s.waiting
    then record s {
      waiting = s.waiting - 1;
      queued = if wake s.handle then s.queued + 1 else s.queued;
    }
    else s
step s begins =
    if ltb 0 s.queued
    then record s {
      queued = s.queued - 1;
      running = if dispatch s.handle then s.running + 1 else s.running;
    }
    else s
step s returns =
    if ltb 0 s.running then record s { running = s.running - 1; arming = 0 ∷ s.arming } else s
step s breaks =
    if ltb 0 s.running then record s { running = s.running - 1; broken = s.broken + 1 } else s
step s cancels = record s { handle = cancel s.handle }

unfoldable pub run : System → List Event → System
run s [] = s
run s (e ∷ es) = run (step s e) es

-- `_add_fd_callback` has made the handle and calls `_arm`.
abbrev pub start : ℕ → System
start cb = record {
  handle = new cb;
  arming = 0 ∷ [];
  waiting = 0;
  queued = 0;
  running = 0;
  broken = 0;
}

-- Every loop under way has made fewer attempts than it may.
abbrev pub within : List ℕ → Bool
within [] = true
within (n ∷ l) = ltb n arm_retries && within l

-- The places where the handle is.
abbrev pub places : System → ℕ
places s = size s.arming + s.waiting + s.queued + s.running + s.broken

record Inv (s : System) : Type 0 where
  one : places s ≤ 1
  alive : (not s.handle.active || (places s == 1)) ≡ true
  bounded : within s.arming ≡ true
