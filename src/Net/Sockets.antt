-- ===== src/Net/Sockets.antt =====
-- What becomes of the sockets that `create_server` of mt_asyncio/asyncio/_net.py opens.
use mt_asyncio.Prelude.{
  ℕ, ◌≡◌, refl, Bool, true, false, not, ◌&&◌, ◌||◌, none, some, List, [], ◌∷◌, ◌++◌, arith,
}
use mt_asyncio.Errors.{Result, ok, err}
use mt_asyncio.Net.{
  is_given, Arguments, Opening, denied, opens, check_arguments, open_sockets, create_server,
}

abbrev pub is_ok {ℓ} : {A : Type ℓ} → Result A → Bool
is_ok (ok a) = true
is_ok (err e) = false

-- The sockets of the server, if there is one.
abbrev pub held : Result (List ℕ) → List ℕ
held (ok sockets) = sockets
held (err e) = []

-- Nothing is refused; an address whose family is denied is passed over.
abbrev pub none_fails : List Opening → Bool
none_fails [] = true
none_fails (denied ∷ infos) = none_fails infos
none_fails (opens fd none none ∷ infos) = none_fails infos
none_fails (opens fd none (some n) ∷ infos) = false
none_fails (opens fd (some e) bound ∷ infos) = false

abbrev pub resolves : Result (List Opening) → Bool
resolves (ok infos) = none_fails infos
resolves (err e) = false

-- The loop ends without an exception exactly if nothing is refused.
open_sockets_lem :
    (infos : List Opening) (sockets : List ℕ)
    → is_ok (open_sockets infos sockets).0 ≡ none_fails infos
unfolding open_sockets
open_sockets_lem [] sockets = refl
open_sockets_lem (denied ∷ infos) sockets = open_sockets_lem infos sockets
open_sockets_lem (opens fd none none ∷ infos) sockets = open_sockets_lem infos (sockets ++ fd ∷ [])
open_sockets_lem (opens fd none (some n) ∷ infos) sockets = refl
open_sockets_lem (opens fd (some e) bound ∷ infos) sockets = refl

-- `create_server` returns a server exactly if its arguments fit, the hosts resolve, no address that the
-- kernel has a socket for is refused, and serving starts where it is to start. That the kernel has a
-- socket for any address is not among these.
pub create_server_returns_iff :
    (a : Arguments) (infos : Result (List Opening)) (starts : Result (Unit {0}))
    → a.has_address ≡ true
    → is_ok (create_server a infos starts).result ≡ (
        is_ok (check_arguments a)
        && (not (is_given a.sock) && (resolves infos && (not a.start_serving || is_ok starts))))
unfolding create_server check_arguments
create_server_returns_iff a (err e) starts h = ground (arith, h)
create_server_returns_iff a (ok infos) starts h = ground (arith, h, open_sockets_lem infos [])
