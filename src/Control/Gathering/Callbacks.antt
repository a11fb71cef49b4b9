-- ===== src/Control/Gathering/Callbacks.antt =====
-- What the callbacks of `gather` of mt_asyncio/asyncio/_ctl.py do to its outer future.
use mt_asyncio.Prelude.{
  ℕ, ◌≡◌, ◌-◌, Bool, true, false, not, ◌&&◌, ◌||◌, Option, none, some, List, arith, if◌then◌else◌,
  ◌==◌,
}
use mt_asyncio.Errors.{Exc, ok, err, cancelled_error}
use mt_asyncio.Futures.{World, done, result, cancel, set_result, set_exception, complete, State}
use mt_asyncio.Sync.Handover.{given}
use mt_asyncio.Control.{
  Outcome, Entry, Gather, exc_of, entry_of, child_done, set, value, failed, was_cancelled,
}
use mt_asyncio.Control.Gathering.{raises_cancel, catches_cancel, refused, is_cancel_exc}

-- What the outer future says is what made it done.
pub record Agrees (f : ℕ) (w : World (List Entry)) (settled cause : Bool) : Type 0 where
  pub over : settled ≡ true → done w f ≡ true
  pub why : done w f ≡ true → raises_cancel (result w f) ≡ cause
  pub calm : done w f ≡ false → cause ≡ false
  pub blank : done w f ≡ false → (w.fut f).exception ≡ none

-- The outer future completed with an exception.
unfoldable pub failing : World (List Entry) → ℕ → Exc → World (List Entry)
failing w f e = complete w f (record (w.fut f) { exception = some e; state = State.finished })

abbrev pub fails : Bool → Option Exc → Bool
fails b none = false
fails b (some e) = not b

abbrev pub stored : ℕ → Outcome → Gather → Gather
stored i o g = record g {
  results = set g.results i (entry_of o);
  remaining = g.remaining - 1;
  settled = (g.remaining - 1) == 0;
}

abbrev pub next_gather : ℕ → Outcome → Gather → Gather
next_gather i o g =
    if g.settled
    then g
    else if fails g.return_exceptions (exc_of o)
    then record g { settled = true }
    else stored i o g

abbrev pub failing_with : Option Exc → World (List Entry) → ℕ → World (List Entry)
failing_with none w f = w
failing_with (some e) w f = failing w f e

abbrev pub next_world : ℕ → Outcome → World (List Entry) → Gather → World (List Entry)
next_world i o w g =
    if g.settled || done w g.outer
    then w
    else if fails g.return_exceptions (exc_of o)
    then failing_with (exc_of o) w g.outer
    else if (g.remaining - 1) == 0
    then given w g.outer (set g.results i (entry_of o))
    else w

pub child_done_all :
    (i : ℕ) (o : Outcome) (w : World (List Entry)) (g : Gather)
    → refused (exc_of o) ≡ false
    → child_done i o w g ≡ ok (next_world i o w g, next_gather i o g)
unfolding child_done failing given set_result set_exception
child_done_all i (value v) w g h = ground arith
child_done_all i (failed e) w g h = ground (arith, h)
child_done_all i was_cancelled w g h = ground arith

given_over :
    (w : World (List Entry)) (f : ℕ) (rs : List Entry)
    → (w.fut f).exception ≡ none
    → (done (given w f rs) f ≡ true) × (raises_cancel (result (given w f rs) f) ≡ false)
unfolding given complete result
given_over w f rs x = (ground arith, ground (arith, x))

failing_over :
    (w : World (List Entry)) (f : ℕ) (e : Exc)
    → (done (failing w f e) f ≡ true)
      × (raises_cancel (result (failing w f e) f) ≡ catches_cancel e)
unfolding failing complete result
failing_over w f e = (ground arith, ground arith)

failed-Agrees :
    (i : ℕ) (e : Exc) (w : World (List Entry)) (g : Gather) (cause : Bool)
    → Agrees g.outer w g.settled cause
    → Agrees g.outer (next_world i (failed e) w g) (next_gather i (failed e) g).settled (
        cause
        || (not g.settled && not (done w g.outer) && not g.return_exceptions && catches_cancel e))
failed-Agrees i e w g cause a =
    let rs = set g.results i (some (err e)) in
    record {
      over = ground (arith, a.over, a.blank, given_over w g.outer rs, failing_over w g.outer e);
      why = ground (
        arith,
        a.over,
        a.why,
        a.calm,
        a.blank,
        given_over w g.outer rs,
        failing_over w g.outer e,
      );
      calm = ground (arith, a.calm, a.blank, given_over w g.outer rs, failing_over w g.outer e);
      blank = ground (arith, a.blank, given_over w g.outer rs, failing_over w g.outer e);
    }

-- A callback leaves the outer future in accord.
pub call-Agrees :
    (i : ℕ) (o : Outcome) (w : World (List Entry)) (g : Gather) (cause : Bool)
    → Agrees g.outer w g.settled cause
    → Agrees g.outer (next_world i o w g) (next_gather i o g).settled (
        cause
        || (not g.settled
            && not (done w g.outer)
            && not g.return_exceptions
            && is_cancel_exc (exc_of o)))
call-Agrees i (value v) w g cause a =
    let rs = set g.results i (some (ok v)) in
    record {
      over = ground (arith, a.over, a.blank, given_over w g.outer rs);
      why = ground (arith, a.over, a.why, a.calm, a.blank, given_over w g.outer rs);
      calm = ground (arith, a.calm, a.blank, given_over w g.outer rs);
      blank = ground (arith, a.blank, given_over w g.outer rs);
    }
call-Agrees i (failed e) w g cause a = failed-Agrees i e w g cause a
call-Agrees i was_cancelled w g cause a = failed-Agrees i (cancelled_error none) w g cause a

pub cancel-Agrees :
    (m : Option ℕ) (w : World (List Entry)) (f : ℕ) (settled cause : Bool)
    → Agrees f w settled cause
    → Agrees f (cancel f m w).1 settled (cause || (cancel f m w).0)
unfolding cancel complete result
cancel-Agrees m w f settled cause a = record {
  over = ground (arith, a.over);
  why = ground (arith, a.why, a.calm);
  calm = ground (arith, a.calm);
  blank = ground (arith, a.blank);
}
