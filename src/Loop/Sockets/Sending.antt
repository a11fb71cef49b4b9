-- ===== src/Loop/Sockets/Sending.antt =====
-- What `sock_sendall` of mt_asyncio/asyncio/_loop.py puts on the wire.
use mt_asyncio.Prelude.{
  ℕ, ◌+◌, ◌≤◌, ◌≡◌, refl, sym, ◌∙◌, ap, inl, inr, Bool, true, false, List, [], ◌∷◌, ◌++◌, arith,
  ltb, if◌then◌else◌, length, take, drop, take_add, take_all, Bool-cases,
}
use mt_asyncio.Loop.Sockets.{
  Answer, parks, blocks, gives, fails, Progress, waiting, returned, raised, send_loop, sock_sendall,
}

-- How many bytes the socket offers to take before an error.
abbrev pub offered : List (Answer ℕ) → ℕ
offered [] = 0
offered (parks ∷ as_) = offered as_
offered (blocks ∷ as_) = offered as_
offered (gives k ∷ as_) = k + offered as_
offered (fails e ∷ as_) = 0

-- The wire holds the first `sent` bytes; a return means that this is all of them.
abbrev Sent : List ℕ → Progress (Unit {0}) × List ℕ → Type 0
Sent payload (waiting c, wire) = (n : ℕ) × (wire ≡ take n payload)
Sent payload (raised e c, wire) = (n : ℕ) × (wire ≡ take n payload)
Sent payload (returned u c, wire) = wire ≡ payload

-- The test of the loop.
if-Sent :
    (payload wire : List ℕ) (sent clears : ℕ) (rest : Progress (Unit {0}) × List ℕ)
    → wire ≡ take sent payload
    → Sent payload rest
    → Sent payload (if ltb sent (length payload) then rest else (returned tt clears, wire))
if-Sent payload wire sent clears rest w h = elim (Bool-cases (ltb sent (length payload))) [
  | inl more ↦ rw more h
  | inr done ↦ rw done (w ∙ take_all sent payload (ground (arith, done)))
]

send_loop-Sent :
    (payload : List ℕ) (as_ : List (Answer ℕ)) (sent : ℕ) (wire : List ℕ) (clears : ℕ)
    → wire ≡ take sent payload
    → Sent payload (send_loop sent payload wire as_ clears)
unfolding send_loop
send_loop-Sent payload [] sent wire clears w = elim (Bool-cases (ltb sent (length payload))) [
  | inl more ↦ rw more (sent, w)
  | inr done ↦ rw done (w ∙ take_all sent payload (ground (arith, done)))
]
send_loop-Sent payload (parks ∷ as_) sent wire clears w =
    if-Sent payload wire sent clears (send_loop sent payload wire as_ clears) w
      (send_loop-Sent payload as_ sent wire clears w)
send_loop-Sent payload (blocks ∷ as_) sent wire clears w =
    if-Sent payload wire sent clears (send_loop sent payload wire as_ (clears + 1)) w
      (send_loop-Sent payload as_ sent wire (clears + 1) w)
send_loop-Sent payload (gives k ∷ as_) sent wire clears w =
    let wire' = wire ++ take k (drop sent payload) in
    if-Sent payload wire sent clears (send_loop (sent + k) payload wire' as_ clears) w (
      send_loop-Sent payload as_ (sent + k) wire' clears
        (ap (λ (l : List ℕ). l ++ take k (drop sent payload)) w ∙ take_add sent k payload))
send_loop-Sent payload (fails e ∷ as_) sent wire clears w =
    elim (Bool-cases (ltb sent (length payload))) [
      | inl more ↦ rw more (sent, w)
      | inr done ↦ rw done (w ∙ take_all sent payload (ground (arith, done)))
    ]

-- The loop has returned.
abbrev pub has_returned : Progress (Unit {0}) × List ℕ → Bool
has_returned (returned u c, wire) = true
has_returned (waiting c, wire) = false
has_returned (raised e c, wire) = false

send_loop_ends :
    (payload : List ℕ) (as_ : List (Answer ℕ)) (sent : ℕ) (wire : List ℕ) (clears : ℕ)
    → length payload ≤ sent + offered as_
    → has_returned (send_loop sent payload wire as_ clears) ≡ true
unfolding send_loop
send_loop_ends payload [] sent wire clears h = ground arith
send_loop_ends payload (parks ∷ as_) sent wire clears h =
    ground (arith, send_loop_ends payload as_ sent wire clears)
send_loop_ends payload (blocks ∷ as_) sent wire clears h =
    ground (arith, send_loop_ends payload as_ sent wire (clears + 1))
send_loop_ends payload (gives k ∷ as_) sent wire clears h =
    ground
      (arith, send_loop_ends payload as_ (sent + k) (wire ++ take k (drop sent payload)) clears)
send_loop_ends payload (fails e ∷ as_) sent wire clears h = ground arith

returned-Sent :
    (payload : List ℕ) (r : Progress (Unit {0}) × List ℕ)
    → has_returned r ≡ true
    → Sent payload r
    → r.1 ≡ payload
returned-Sent payload (waiting c, wire) h s = cc
returned-Sent payload (returned u c, wire) h s = s
returned-Sent payload (raised e c, wire) h s = cc

prefix-Sent :
    (payload : List ℕ) (r : Progress (Unit {0}) × List ℕ)
    → Sent payload r
    → (n : ℕ) × (r.1 ≡ take n payload)
prefix-Sent payload (waiting c, wire) s = s
prefix-Sent payload (returned u c, wire) s =
    (length payload, s ∙ sym (take_all (length payload) payload (omega arith)))
prefix-Sent payload (raised e c, wire) s = s

-- However the reactor and the socket answer (parking, blocking, partial writes, an error), the wire holds a
-- prefix of the payload, in order: `sock_sendall` repeats and skips no byte.
pub sendall_prefix :
    (payload : List ℕ) (as_ : List (Answer ℕ))
    → (n : ℕ) × ((sock_sendall payload as_).1 ≡ take n payload)
unfolding sock_sendall
sendall_prefix payload as_ =
    prefix-Sent payload (send_loop 0 payload [] as_ 0) (send_loop-Sent payload as_ 0 [] 0 refl)

-- Once the socket has offered to take as many bytes as there are, before any error, `sock_sendall` has
-- returned, and the wire holds exactly the payload.
pub sendall_complete :
    (payload : List ℕ) (as_ : List (Answer ℕ))
    → length payload ≤ offered as_
    → (has_returned (sock_sendall payload as_) ≡ true) × ((sock_sendall payload as_).1 ≡ payload)
unfolding sock_sendall
sendall_complete payload as_ h =
    let ends = send_loop_ends payload as_ 0 [] 0 (omega (arith, h)) in
    (
      ends,
      returned-Sent payload (send_loop 0 payload [] as_ 0) ends
          (send_loop-Sent payload as_ 0 [] 0 refl),
    )
