-- ===== src/Transports.antt =====
-- mt_asyncio/asyncio/_transports.py: the claims of tasks on connections, with
-- `Task._mt_release_claims` of mt_asyncio/asyncio/_tasks.py. Times are in milliseconds.
pub mod Reads
pub mod Life
use mt_asyncio.Prelude.{
  ℕ, ◌+◌, ◌-◌, Bool, true, false, not, ◌&&◌, ◌||◌, Option, none, some, List, [], ◌∷◌, ◌++◌, ltb,
  ◌==◌, if◌then◌else◌, contains,
}
use mt_asyncio.Sync.Semaphore.{is_empty}

abbrev pub max_read_defer : ℕ
max_read_defer = 50

-- The claim state of a `SocketTransport`; `attached` says that it has a loop. `claims` is a set.
pub record Connection : Type 0 where
  pub claims : List ℕ
  pub read_deferred : Bool
  pub read_defer_since : Option ℕ
  pub closing : Bool
  pub attached : Bool

abbrev pub new : Connection
new = record {
  claims = [];
  read_deferred = false;
  read_defer_since = none;
  closing = false;
  attached = true;
}

-- `set.add` and `set.discard`.
abbrev pub add : ℕ → List ℕ → List ℕ
add a xs = if contains a xs then xs else a ∷ xs

abbrev pub discard : ℕ → List ℕ → List ℕ
discard a [] = []
discard a (x ∷ xs) = if x == a then discard a xs else x ∷ discard a xs

abbrev since_of : Option ℕ → ℕ → ℕ
since_of none now = now
since_of (some t) now = t

-- The critical section of `_read_ready`: whether it goes on to the callback.
unfoldable pub read_ready : ℕ → Connection → Bool × Connection
read_ready now k =
    let since = since_of k.read_defer_since now in
    if not (is_empty k.claims) && ltb (now - since) max_read_defer
    then (false, record k { read_deferred = true; read_defer_since = some since })
    else (true, record k { read_deferred = false; read_defer_since = none })

-- `_mt_claim` up to its critical section, of the current task with the claims `held`: `deferring`
-- says that the thread is in a `defer_wakes` region, `over` that the task is done, `parked` that it
-- waits. The answer is none where it returns early.
unfoldable pub enrol : Bool → Bool → Bool → ℕ → List ℕ → Option (List ℕ)
enrol deferring over parked c held =
    if deferring
    then none
    else if over || parked
    then none
    else if contains c held
    then none
    else some (held ++ c ∷ [])

-- The critical section of `_mt_claim`.
unfoldable pub add_claim : ℕ → Connection → Connection
add_claim t k = record k { claims = add t k.claims }

-- What `_mt_release_claim` does about a read that stood aside: nothing, queue it, or drop it.
pub data Requeue : Type 0 where
  unaffected queued dropped : Requeue

unfoldable pub release_claim : ℕ → Connection → Requeue × Connection
release_claim t k =
    let left = discard t k.claims in
    if not (is_empty left) || not k.read_deferred
    then (unaffected, record k { claims = left })
    else (
      if k.attached && not k.closing then queued else dropped,
      record k { claims = left; read_deferred = false },
    )
