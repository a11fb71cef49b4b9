-- ===== src/Transports/Reads.antt =====
-- Reads that stand aside for claims in mt_asyncio/asyncio/_transports.py: many connections, many
-- tasks.
use mt_asyncio.Prelude.{
  ℕ, ◌+◌, ◌≤◌, ◌≡◌, refl, Bool, true, false, not, ◌&&◌, ◌||◌, Option, none, some, List, [], ◌∷◌,
  ◌++◌, arith, ◌==◌, if◌then◌else◌, contains, update,
}
use mt_asyncio.Sync.Semaphore.{is_empty}
use mt_asyncio.Transports.{
  Connection, new, discard, read_ready, enrol, add_claim, Requeue, unaffected, queued, dropped,
  release_claim,
}

-- `held` is `_mt_claims` of a task, `handing` what `_mt_release_claims` has taken from it and not
-- handed back yet. `aside` says that a read of the connection stood aside, and was since then
-- neither queued again, nor dropped on a closed connection, nor overtaken by a read that went on.
pub record System : Type 0 where
  pub conn : ℕ → Connection
  pub held : ℕ → List ℕ
  pub handing : ℕ → List ℕ
  pub aside : ℕ → Bool

-- `enrols` and `claims` are the two parts of `_mt_claim`, `suspends` and `hands_back` those of
-- `_mt_release_claims`.
pub data Event : Type 0 where
  enrols : Bool → Bool → Bool → ℕ → ℕ → Event
  claims reads : ℕ → ℕ → Event
  suspends hands_back closes : ℕ → Event

abbrev settle_enrolled : System → ℕ → Option (List ℕ) → System
settle_enrolled s t none = s
settle_enrolled s t (some l) = record s { held = update s.held t l }

abbrev settle_read : System → ℕ → Bool × Connection → System
settle_read s c (on, k) = record s { conn = update s.conn c k; aside = update s.aside c (not on) }

abbrev waits : Requeue → Bool → Bool
waits unaffected b = b
waits queued b = false
waits dropped b = false

abbrev settle_released : System → ℕ → Requeue × Connection → System
settle_released s c (r, k) = record s {
  conn = update s.conn c k;
  aside = update s.aside c (waits r (s.aside c));
}

abbrev hand_back : System → ℕ → List ℕ → System
hand_back s t [] = s
hand_back s t (c ∷ rest) =
    settle_released (record s { handing = update s.handing t rest }) c (release_claim t (s.conn c))

-- A task claims what it has put on its list.
unfoldable pub step : System → Event → System
unfolding enrol add_claim read_ready release_claim
step s (enrols deferring over parked t c) =
    settle_enrolled s t (enrol deferring over parked c (s.held t))
step s (claims t c) =
    if contains c (s.held t)
    then record s { conn = update s.conn c (add_claim t (s.conn c)) }
    else s
step s (suspends t) = record s {
  held = update s.held t [];
  handing = update s.handing t (s.handing t ++ s.held t);
}
step s (hands_back t) = hand_back s t (s.handing t)
step s (reads c now) = settle_read s c (read_ready now (s.conn c))
step s (closes c) = record s { conn = update s.conn c (record (s.conn c) { closing = true }) }

unfoldable pub run : System → List Event → System
run s [] = s
run s (e ∷ es) = run (step s e) es

abbrev pub start : System
start = record { conn = λ _. new; held = λ _. []; handing = λ _. []; aside = λ _. false }

record Inv (s : System) : Type 0 where
  owned :
      (t c : ℕ)
      → contains t (s.conn c).claims ≡ true
      → (contains c (s.held t) || contains c (s.handing t)) ≡ true
  marked : (c : ℕ) → s.aside c ≡ (s.conn c).read_deferred
  guarded : (c : ℕ) → (s.conn c).read_deferred ≡ true → is_empty (s.conn c).claims ≡ false

pub contains-discard :
    (b a : ℕ) (xs : List ℕ) → contains b (discard a xs) ≡ (contains b xs && not (a == b))
contains-discard b a [] = refl
contains-discard b a (x ∷ xs) = ground (arith, contains-discard b a xs)

-- The delay of 50 ms counts from the first read that stood aside, also when the claim that held it
-- was handed back since: the read that was queued then goes on at once, past a claim that is new.
pub fresh_claim_overtaken :
    (k : Connection) (t u first now : ℕ)
    → discard t k.claims ≡ []
    → k.read_deferred ≡ true
    → k.read_defer_since ≡ some first
    → first + 50 ≤ now
    → ((read_ready now (add_claim u (release_claim t k).1)).0 ≡ true)
      × (contains u (add_claim u (release_claim t k).1).claims ≡ true)
unfolding read_ready add_claim release_claim
fresh_claim_overtaken k t u first now e d z l = (ground (arith, e, d, z, l), ground (arith, e, d))
