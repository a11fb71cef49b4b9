-- ===== src/Tls/Upgrade.antt =====
-- The protocol object and `start_tls` of mt_asyncio/asyncio/_tls.py: the application's transport,
-- the lock that is shared, and the first handle beside the end of the wait.
pub mod Keeping
pub mod Contained
use mt_asyncio.Prelude.{
  ℕ, ◌+◌, ◌≤◌, ◌≡◌, ◌⊎◌, inl, inr, refl, Bool, true, false, not, ◌&&◌, Option, none, some, List, [],
  ◌∷◌, arith, if◌then◌else◌,
}
use mt_asyncio.Errors.{Exc, Result, ok, err, runtime_error, type_error}

-- An `SSLProtocolTransport`: its lock, and which of the transports that were made it is.
pub record AppTransport : Type 0 where
  pub lock : ℕ
  pub serial : ℕ

pub record SslProtocol : Type 0 where
  pub lock : ℕ
  pub app_transport : Option AppTransport
  pub app_transport_created : Bool

abbrev pub given_or : Option ℕ → ℕ → ℕ
given_or none fresh = fresh
given_or (some l) fresh = l

-- `SSLProtocol.__init__`; `fresh` is the lock that it makes if it is given none.
unfoldable pub init : Option ℕ → ℕ → SslProtocol
init lock fresh = record {
  lock = given_or lock fresh;
  app_transport = none;
  app_transport_created = false;
}

abbrev pub made_before : ℕ → SslProtocol → Option AppTransport → Result AppTransport × SslProtocol
made_before serial p (some a) = (ok a, p)
made_before serial p none =
    if p.app_transport_created
    then (err runtime_error, p)
    else (let a : AppTransport = record { lock = p.lock; serial = serial } in
        (ok a, record p { app_transport = some a; app_transport_created = true }))

-- `_get_app_transport`
unfoldable pub get_app_transport : ℕ → SslProtocol → Result AppTransport × SslProtocol
get_app_transport serial p = made_before serial p p.app_transport

-- The transport below. `lock` is its `_lock`, if it has one, `protocol` whether it is the SSL
-- protocol's now.
pub record Transport : Type 0 where
  pub start_tls_compatible : Bool
  pub lock : Option ℕ
  pub upgraded : Bool
  pub reading : Bool
  pub closing : Bool

-- The handle of `_begin`.
pub data Begin : Type 0 where
  queued began cancelled : Begin

-- A call of `start_tls` that waits or has ended. `connected` says that `connection_made` of the SSL
-- protocol was called, `made` counts the application's transports that were made.
pub record Upgrade : Type 0 where
  pub transport : Transport
  pub ssl : SslProtocol
  pub begin : Begin
  pub connected : Bool
  pub made : ℕ
  pub outcome : Option (Result AppTransport)

-- What `start_tls` has made where it waits.
abbrev pub prepared : ℕ → Transport → Upgrade
prepared fresh t = record {
  transport = record t { upgraded = true };
  ssl = init (some (given_or t.lock fresh)) fresh;
  begin = queued;
  connected = false;
  made = 0;
  outcome = none;
}

-- `start_tls` up to its wait; `fresh` is the lock of its own.
unfoldable pub start_tls : ℕ → Transport → Result Upgrade
unfolding init
start_tls fresh t = if not t.start_tls_compatible then err type_error else ok (prepared fresh t)

-- `_begin`; `raises` says that `connection_made` does.
unfoldable pub run_begin : Bool → Upgrade → Begin → Upgrade
run_begin raises u queued = record u {
  begin = began;
  connected = true;
  transport = if raises then u.transport else record (u.transport) { reading = true };
}
run_begin raises u began = u
run_begin raises u cancelled = u

abbrev cancel_begin : Begin → Begin
cancel_begin queued = cancelled
cancel_begin b = b

abbrev count_made : Bool → Bool → ℕ
count_made false true = 1
count_made before after = 0

abbrev pub returned : Upgrade → Result AppTransport × SslProtocol → Upgrade
returned u (r, p) = record u {
  ssl = p;
  made = u.made + count_made u.ssl.app_transport_created p.app_transport_created;
  outcome = some r;
}

-- The end of `start_tls`: the wait for the handshake ends with an exception or without.
unfoldable pub end_wait : Upgrade → Option Exc → Upgrade
unfolding get_app_transport
end_wait u none = returned u (get_app_transport u.made u.ssl)
end_wait u (some e) = record u {
  transport = record (u.transport) { closing = true };
  begin = cancel_begin u.begin;
  outcome = some (err e);
}

-- `early` says that the SSL protocol got data before `connection_made`.
pub record System : Type 0 where
  pub upgrade : Upgrade
  pub early : Bool

-- `asks` is a call of `_get_app_transport` by the SSL protocol, which makes none before
-- `connection_made`; `reads` is data on a transport that reads; `loses` is the loss of the
-- connection, at which CPython's protocol forgets the application's transport.
pub data Event : Type 0 where
  begins : Bool → Event
  ends : Option Exc → Event
  asks reads loses : Event

abbrev pub is_none {ℓ} : {A : Type ℓ} → Option A → Bool
is_none none = true
is_none (some a) = false

abbrev pub answered : Upgrade → Result AppTransport × SslProtocol → Upgrade
answered u (r, p) = record u {
  ssl = p;
  made = u.made + count_made u.ssl.app_transport_created p.app_transport_created;
}

abbrev pub lost : Upgrade → Upgrade
lost u = record u {
  transport = record (u.transport) { closing = true };
  ssl = record (u.ssl) { app_transport = none };
}

unfoldable pub step : System → Event → System
unfolding run_begin end_wait get_app_transport
step s (begins raises) = record s { upgrade = run_begin raises s.upgrade s.upgrade.begin }
step s (ends o) =
    if is_none s.upgrade.outcome then record s { upgrade = end_wait s.upgrade o } else s
step s asks =
    if s.upgrade.connected
    then record s { upgrade = answered s.upgrade (get_app_transport s.upgrade.made s.upgrade.ssl) }
    else s
step s reads =
    let t = s.upgrade.transport in
    if t.reading && t.upgraded && not t.closing && not s.upgrade.connected
    then record s { early = true }
    else s
step s loses = record s { upgrade = lost s.upgrade }

unfoldable pub run : System → List Event → System
run s [] = s
run s (e ∷ es) = run (step s e) es

abbrev pub waiting : Upgrade → System
waiting u = record { upgrade = u; early = false }
