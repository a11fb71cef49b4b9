-- ===== src/Loop/Sockets.antt =====
-- The `sock_*` helpers of `EventLoop` in mt_asyncio/asyncio/_loop.py, with `_wait_readable` and
-- `_wait_writable`. The reactor and the socket answer from a list: where it ends, the task still waits.
pub mod Sending
use mt_asyncio.Prelude.{
  ℕ, ◌+◌, ◌-◌, Bool, true, false, Option, none, some, List, [], ◌∷◌, ◌++◌, ltb, if◌then◌else◌,
  length, take, drop,
}
use mt_asyncio.Errors.{Exc, user}

-- What a round meets: the reactor arms, and the task is woken by an edge (`_wait_readable` returns False);
-- or the direction is ready and the system call blocks, gives a value, or raises.
pub data Answer (A : Type 0) : Type 0 where
  parks blocks : Answer A
  gives : A → Answer A
  fails : Exc → Answer A

-- How far a helper came; `clears` counts its calls of `clear_r` or `clear_w`.
pub data Progress (A : Type 0) : Type 0 where
  waiting : ℕ → Progress A
  returned : A → ℕ → Progress A
  raised : Exc → ℕ → Progress A

-- The loop that `sock_recv`, `sock_recv_into` and `sock_accept` share.
unfoldable pub receive_loop : {A : Type 0} → List (Answer A) → ℕ → Progress A
receive_loop [] clears = waiting clears
receive_loop (parks ∷ as_) clears = receive_loop as_ clears
receive_loop (blocks ∷ as_) clears = receive_loop as_ (clears + 1)
receive_loop (gives a ∷ as_) clears = returned a clears
receive_loop (fails e ∷ as_) clears = raised e clears

-- `sock_recv`: the socket gives bytes.
unfoldable pub sock_recv : List (Answer (List ℕ)) → Progress (List ℕ)
unfolding receive_loop
sock_recv as_ = receive_loop as_ 0

-- `sock_recv_into`: the socket gives the number of bytes that it put into the buffer.
unfoldable pub sock_recv_into : List (Answer ℕ) → Progress ℕ
unfolding receive_loop
sock_recv_into as_ = receive_loop as_ 0

-- `sock_accept`: the socket gives a connection, which is set non-blocking, and its address.
unfoldable pub sock_accept : List (Answer (ℕ × ℕ)) → Progress (ℕ × ℕ)
unfolding receive_loop
sock_accept as_ = receive_loop as_ 0

-- `sock_sendall` after `sent` bytes; `wire` is what the socket took so far, oldest first. The socket takes
-- a number of the bytes that it is given.
unfoldable pub send_loop : ℕ → List ℕ → List ℕ → List (Answer ℕ) → ℕ → Progress (Unit {0}) × List ℕ
send_loop sent payload wire [] clears =
    (if ltb sent (length payload) then waiting clears else returned tt clears, wire)
send_loop sent payload wire (parks ∷ as_) clears =
    let rest = send_loop sent payload wire as_ clears in
    if ltb sent (length payload) then rest else (returned tt clears, wire)
send_loop sent payload wire (blocks ∷ as_) clears =
    let rest = send_loop sent payload wire as_ (clears + 1) in
    if ltb sent (length payload) then rest else (returned tt clears, wire)
send_loop sent payload wire (gives k ∷ as_) clears =
    let rest = send_loop (sent + k) payload (wire ++ take k (drop sent payload)) as_ clears in
    if ltb sent (length payload) then rest else (returned tt clears, wire)
send_loop sent payload wire (fails e ∷ as_) clears =
    (if ltb sent (length payload) then raised e clears else returned tt clears, wire)

unfoldable pub sock_sendall : List ℕ → List (Answer ℕ) → Progress (Unit {0}) × List ℕ
unfolding send_loop
sock_sendall payload as_ = send_loop 0 payload [] as_ 0

-- What `SO_ERROR` says of a connection attempt.
pub data SoError : Type 0 where
  connected in_progress : SoError
  failed : ℕ → SoError

-- The BlockingIOError of a `getsockopt`, which nothing catches.
abbrev pub blocking_io_error : Exc
blocking_io_error = user 11

-- The loop of `sock_connect`, once the attempt was made.
unfoldable pub connect_loop : List (Answer SoError) → ℕ → Progress (Unit {0})
connect_loop [] clears = waiting clears
connect_loop (parks ∷ as_) clears = connect_loop as_ clears
connect_loop (gives connected ∷ as_) clears = returned tt clears
connect_loop (gives in_progress ∷ as_) clears = connect_loop as_ (clears + 1)
connect_loop (gives (failed n) ∷ as_) clears = raised (user n) clears
connect_loop (blocks ∷ as_) clears = raised blocking_io_error clears
connect_loop (fails e ∷ as_) clears = raised e clears

-- The attempt itself: it succeeds or blocks (`none`), or raises.
abbrev attempt : Option Exc → List (Answer SoError) → Progress (Unit {0})
attempt none as_ = connect_loop as_ 0
attempt (some e) as_ = raised e 0

-- `sock_connect`: `infos` are the addresses that an internet address resolves to, `no_address` the
-- OSError for an empty list; `connect` is the answer of `sock.connect` at the address that is taken.
unfoldable pub sock_connect :
    Bool → List ℕ → ℕ → Exc → (ℕ → Option Exc) → List (Answer SoError) → Progress (Unit {0})
unfolding connect_loop
sock_connect false infos address no_address connect as_ = attempt (connect address) as_
sock_connect true [] address no_address connect as_ = raised no_address 0
sock_connect true (a ∷ infos) address no_address connect as_ = attempt (connect a) as_
