-- ===== src/Tls/Upgrade/Keeping.antt =====
-- The invariant of `start_tls` of mt_asyncio/asyncio/_tls.py beside its handle, kept by every step.
use mt_asyncio.Prelude.{
  ℕ, ◌≡◌, refl, Bool, true, false, Option, none, some, List, [], ◌∷◌, arith, if◌then◌else◌,
}
use mt_asyncio.Errors.{Exc, Result, ok, err}
use mt_asyncio.Tls.Upgrade.{
  AppTransport, made_before, get_app_transport, Begin, queued, began, cancelled, run_begin,
  returned, end_wait, System, Event, begins, ends, asks, reads, loses, is_none, answered, step, run,
}

abbrev pub is_queued : Begin → Bool
is_queued queued = true
is_queued b = false

abbrev pub failed : Option (Result AppTransport) → Bool
failed (some (err e)) = true
failed o = false

pub record Inv (lock : ℕ) (reading : Bool) (s : System) : Type 0 where
  pub locked : s.upgrade.ssl.lock ≡ lock
  pub counted : s.upgrade.made ≡ (if s.upgrade.ssl.app_transport_created then 1 else 0)
  pub own :
      (a : AppTransport)
      → s.upgrade.ssl.app_transport ≡ some a
      → (a.lock ≡ lock) × (a.serial ≡ 0) × (s.upgrade.ssl.app_transport_created ≡ true)
  pub given :
      (a : AppTransport) → s.upgrade.outcome ≡ some (ok a) → (a.lock ≡ lock) × (a.serial ≡ 0)
  pub begun : s.upgrade.connected ≡ true → is_queued s.upgrade.begin ≡ false
  pub asked :
      s.upgrade.outcome ≡ none
      → s.upgrade.ssl.app_transport_created ≡ true
      → s.upgrade.connected ≡ true
  pub cleared :
      s.upgrade.ssl.app_transport_created ≡ true
      → s.upgrade.ssl.app_transport ≡ none
      → s.upgrade.transport.closing ≡ true
  pub contained :
      failed s.upgrade.outcome ≡ true
      → (s.upgrade.transport.closing ≡ true) × (is_queued s.upgrade.begin ≡ false)
  pub paused : reading ≡ false → s.upgrade.connected ≡ false → s.upgrade.transport.reading ≡ false
  pub quiet : reading ≡ false → s.early ≡ false

is_none-eq {ℓ} : {A : Type ℓ} (o : Option A) → is_none o ≡ true → o ≡ none
is_none-eq none h = refl
is_none-eq (some a) h = cc

module _ (lock : ℕ) (reading : Bool) where
  asks-Inv :
      (s : System) (o : Option AppTransport)
      → s.upgrade.ssl.app_transport ≡ o
      → s.upgrade.connected ≡ true
      → Inv lock reading s
      → Inv lock reading
          (record s { upgrade = answered s.upgrade (made_before s.upgrade.made s.upgrade.ssl o) })
  asks-Inv s o e c inv = record {
    locked = ground (arith, inv.locked);
    counted = ground (arith, inv.counted);
    own = λ a h. ground (arith, e, h, inv.own a, inv.counted, inv.locked);
    given = λ a. ground (arith, inv.given a);
    begun = ground (arith, inv.begun);
    asked = ground (arith, c);
    cleared = ground (arith, e, inv.cleared);
    contained = ground (arith, inv.contained);
    paused = ground (arith, inv.paused);
    quiet = inv.quiet;
  }

  returns-Inv :
      (s : System) (o : Option AppTransport)
      → s.upgrade.ssl.app_transport ≡ o
      → s.upgrade.outcome ≡ none
      → Inv lock reading s
      → Inv lock reading
          (record s { upgrade = returned s.upgrade (made_before s.upgrade.made s.upgrade.ssl o) })
  returns-Inv s o e n inv = record {
    locked = ground (arith, inv.locked);
    counted = ground (arith, inv.counted);
    own = λ a h. ground (arith, e, h, inv.own a, inv.counted, inv.locked);
    given = λ a h. ground (arith, e, h, inv.own a, inv.counted, inv.locked);
    begun = ground (arith, inv.begun);
    asked = ground arith;
    cleared = ground (arith, e, inv.cleared);
    contained = ground (arith, e, n, inv.cleared, inv.asked, inv.begun);
    paused = ground (arith, inv.paused);
    quiet = inv.quiet;
  }

  ends-Inv :
      (s : System) (o : Option Exc)
      → s.upgrade.outcome ≡ none
      → Inv lock reading s
      → Inv lock reading (record s { upgrade = end_wait s.upgrade o })
  unfolding end_wait get_app_transport
  ends-Inv s none n inv = returns-Inv s s.upgrade.ssl.app_transport refl n inv
  ends-Inv s (some e) n inv = record {
    locked = inv.locked;
    counted = inv.counted;
    own = inv.own;
    given = λ a h. cc;
    begun = ground (arith, inv.begun);
    asked = λ h. cc;
    cleared = λ a b. refl;
    contained = ground arith;
    paused = inv.paused;
    quiet = inv.quiet;
  }

  begins-Inv :
      (s : System) (raises : Bool) (b : Begin)
      → s.upgrade.begin ≡ b
      → Inv lock reading s
      → Inv lock reading (record s { upgrade = run_begin raises s.upgrade b })
  unfolding run_begin
  begins-Inv s raises queued e inv = record {
    locked = inv.locked;
    counted = inv.counted;
    own = inv.own;
    given = inv.given;
    begun = ground arith;
    asked = ground (arith, inv.asked);
    cleared = ground (arith, inv.cleared);
    contained = ground (arith, e, inv.contained);
    paused = ground arith;
    quiet = inv.quiet;
  }
  begins-Inv s raises began e inv = inv
  begins-Inv s raises cancelled e inv = inv

  when-Inv :
      {s s' : System} (b : Bool)
      → (b ≡ true → Inv lock reading s')
      → Inv lock reading s
      → Inv lock reading (if b then s' else s)
  when-Inv true h inv = h refl
  when-Inv false h inv = inv

  step-Inv : (s : System) (e : Event) → Inv lock reading s → Inv lock reading (step s e)
  unfolding step get_app_transport
  step-Inv s (begins raises) inv = begins-Inv s raises s.upgrade.begin refl inv
  step-Inv s (ends o) inv =
      when-Inv (is_none s.upgrade.outcome) (λ h. ends-Inv s o (is_none-eq s.upgrade.outcome h) inv)
        inv
  step-Inv s asks inv =
      when-Inv s.upgrade.connected (λ c. asks-Inv s s.upgrade.ssl.app_transport refl c inv) inv
  step-Inv s reads inv = record {
    locked = ground (arith, inv.locked);
    counted = ground (arith, inv.counted);
    own = λ a. ground (arith, inv.own a);
    given = λ a. ground (arith, inv.given a);
    begun = ground (arith, inv.begun);
    asked = ground (arith, inv.asked);
    cleared = ground (arith, inv.cleared);
    contained = ground (arith, inv.contained);
    paused = ground (arith, inv.paused);
    quiet = ground (arith, inv.quiet, inv.paused);
  }
  step-Inv s loses inv = record {
    locked = inv.locked;
    counted = inv.counted;
    own = λ a e. cc;
    given = inv.given;
    begun = inv.begun;
    asked = inv.asked;
    cleared = λ a b. refl;
    contained = ground (arith, inv.contained);
    paused = inv.paused;
    quiet = inv.quiet;
  }

  pub run-Inv : (es : List Event) (s : System) → Inv lock reading s → Inv lock reading (run s es)
  unfolding run
  run-Inv [] s inv = inv
  run-Inv (e ∷ es) s inv = run-Inv es (step s e) (step-Inv s e inv)
