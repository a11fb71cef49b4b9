-- ===== src/Control/Gathering/Spreading.antt =====
-- When `gather` of mt_asyncio/asyncio/_ctl.py cancels its children.
use mt_asyncio.Prelude.{ℕ, ◌≡◌, true, false, Option, none, some, List, []}
use mt_asyncio.Errors.{Result}
use mt_asyncio.Futures.{done, result}
use mt_asyncio.Control.{Outcome, Entry, exc_of}
use mt_asyncio.Control.Gathering.{System, refused, end_gather}
use mt_asyncio.Control.Gathering.Callbacks.{Agrees}

record Inv (s : System) : Type 0 where
  agrees : Agrees s.gather.outer s.world s.gather.settled s.cause
  sound : (f : ℕ) (o : Outcome) → s.ended f ≡ some o → refused (exc_of o) ≡ false
  quiet : s.raised ≡ false
  waiting : s.outcome ≡ none → s.cancelled ≡ []
  closed :
      (r : Result (Option (List Entry)))
      → s.outcome ≡ some r
      → (done s.world s.gather.outer ≡ true)
        × (result s.world s.gather.outer ≡ r)
        × (s.cancelled ≡ end_gather r s.children)
