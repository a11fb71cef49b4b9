-- ===== src/Tls/Upgrade/Contained.antt =====
-- What `start_tls` of mt_asyncio/asyncio/_tls.py promises in every order of its handle and its wait.
use mt_asyncio.Prelude.{ℕ, ◌≤◌, ◌≡◌, refl, true, false, some, List, arith}
use mt_asyncio.Errors.{ok}
use mt_asyncio.Tls.Upgrade.{
  AppTransport, init, Transport, Upgrade, prepared, start_tls, Event, run, waiting, given_or,
}
use mt_asyncio.Tls.Upgrade.Keeping.{Inv, is_queued, failed, run-Inv}

start-Inv :
    (fresh : ℕ) (t : Transport) (u : Upgrade)
    → start_tls fresh t ≡ ok u
    → Inv (given_or t.lock fresh) t.reading (waiting u)
unfolding start_tls init
start-Inv fresh t u h = record {
  locked = ground (arith, h);
  counted = ground (arith, h);
  own = λ a e. ground (arith, h, e);
  given = λ a e. ground (arith, h, e);
  begun = λ c. ground (arith, h, c);
  asked = λ n c. ground (arith, h, c);
  cleared = λ c n. ground (arith, h, c);
  contained = λ f. ground (arith, h, f);
  paused = λ r c. ground (arith, h, r);
  quiet = λ r. refl;
}

starts :
    (fresh : ℕ) (t : Transport)
    → t.start_tls_compatible ≡ true
    → start_tls fresh t ≡ ok (prepared fresh t)
unfolding start_tls
starts fresh t c = ground (arith, c)

-- Of a transport that is compatible, `start_tls` comes to its wait, and however the handle, the
-- end of the wait, the SSL protocol and the loss of the connection interleave: if it raises, the
-- transport is closed and `_begin` will not run any more; what it returns is the first transport
-- that was made, of at most one, and has the lock of the transport below, if that has one.
pub start_tls_contained :
    (fresh : ℕ) (t : Transport) (es : List Event)
    → t.start_tls_compatible ≡ true
    → (u : Upgrade) × (start_tls fresh t ≡ ok u)
      × (let s = run (waiting u) es in
          (failed s.upgrade.outcome ≡ true
            → (s.upgrade.transport.closing ≡ true) × (is_queued s.upgrade.begin ≡ false))
          × ((a : AppTransport)
              → s.upgrade.outcome ≡ some (ok a)
              → (a.lock ≡ given_or t.lock fresh) × (a.serial ≡ 0))
          × (s.upgrade.made ≤ 1))
start_tls_contained fresh t es c =
    let made : start_tls fresh t ≡ ok (prepared fresh t) = starts fresh t c in
    let inv =
      run-Inv (given_or t.lock fresh) t.reading es (waiting (prepared fresh t))
        (start-Inv fresh t (prepared fresh t) made) in
    (prepared fresh t, made, (inv.contained, inv.given, ground (arith, inv.counted)))
