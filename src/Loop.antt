-- ===== src/Loop.antt =====
-- mt_asyncio/asyncio/_loop.py: `Handle`, and the persistent callback of `add_reader` and
-- `add_writer` (`_FdHandle`). The reactor and the kernel answer as they like.
pub mod Dispatch
pub mod Registrations
pub mod LifeCycle
pub mod Sockets
pub mod Serving
pub mod Scheduling
use mt_asyncio.Prelude.{
  ℕ, ◌+◌, ◌-◌, Bool, true, false, ◌&&◌, ◌||◌, Option, none, some, List, [], ◌∷◌, leb, if◌then◌else◌,
}

-- How often an armed handle is reconciled with the kernel before it gives up.
abbrev pub arm_retries : ℕ
arm_retries = 8

-- `_cancelled`, `_cb` and `_args` of a `Handle`, the callback with its arguments as one; and
-- `_active` of an `_FdHandle`.
pub record Handle : Type 0 where
  pub cancelled : Bool
  pub callback : Option ℕ
  pub active : Bool

abbrev pub new : ℕ → Handle
new cb = record { cancelled = false; callback = some cb; active = true }

-- `_FdHandle.cancel`, with `Handle.cancel`.
unfoldable pub cancel : Handle → Handle
cancel h = record { cancelled = true; callback = none; active = false }

-- What `Handle._run` calls.
unfoldable pub run_handle : Handle → Option ℕ
run_handle h = if h.cancelled then none else h.callback

-- How one round of the loop of `_arm` ends: the loop is left, the handle waits for an edge, a
-- dispatch is queued, or there is another round.
pub data Round : Type 0 where
  left parked dispatched : Round
  again : ℕ → Round

-- One round, after `attempts` were made: `cached` says that the reactor holds the handle for ready
-- (it was not armed), `ready` is the kernel's answer.
unfoldable pub arm_round : Bool → Bool → ℕ → Handle → Round
arm_round cached ready attempts h =
    if h.active
    then if cached
      then if ready
        then dispatched
        else if leb arm_retries (attempts + 1)
        then dispatched
        else again (attempts + 1)
      else parked
    else left

-- `_wake`: whether a dispatch is queued.
unfoldable pub wake : Handle → Bool
wake h = h.active

-- The head of `_dispatch`: whether the callback runs.
unfoldable pub dispatch : Handle → Bool
dispatch h = h.active
