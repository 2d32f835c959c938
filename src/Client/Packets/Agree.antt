-- ===== src/Client/Packets/Agree.antt =====
-- When `recvPacket` over the loops gives what the link alone determines, and when it does not
-- (src/client.cpp).
use zway_lib.Base.{
  ℕ, ◌+◌, ◌≡◌, ◌≤◌, ◌<◌, inl, inr, refl, Bool, true, none, some, List, length, take, drop, ◌==◌,
  arith, length-take, length-drop, replicate, overwrite, lt→ltb, le→not-ltb, overwrite_all,
  length-replicate, ltb_irrefl, drop-drop, Bool-cases, ==_iff,
}
use native.Mathlib.Nat.{mod-eq_of_lt}
use zway_lib.Buffer.Laws.{create_null}
use zway_lib.Packet.{Packet, u32, max_packet_body, set_body}
use zway_lib.Wire
use zway_lib.Wire.{decode_head, head_size}
use zway_lib.Client.{Turn, Progress, returned, recv, minus_one}
use zway_lib.Client.Loops.{IsSteady, productive, LeavesTurns, recv_lem}
use zway_lib.Client.Packets.{Fetched, fetched, recv_waits, headed, recv_packet, accepted}

-- If the head comes in whole and announces a body, for which there is memory, and the connection
-- fails in the body, `recvPacket` returns 23, and `Receiver::run` queues the packet: its body is what
-- came before the failure, and zeros.
pub recv_packet-broken :
    (malloc : ℕ → Bool) (ts : List Turn) (link : List ℕ) (p q : Progress)
    → recv ts 24 link ≡ returned 24 p
    → let n = (headed p.moved).m_head.body_size in
      0 < n
      → n ≤ max_packet_body
      → malloc n ≡ true
      → recv p.turns n p.link ≡ returned minus_one q
      → (recv_packet malloc ts link
          ≡ fetched 23
              (set_body
                (headed p.moved)
                (some (record {
                  m_data = some (overwrite (replicate n 0) 0 q.moved);
                  m_size = length (replicate {A = ℕ} n 0);
                }))
                0)
              q.link
              q.turns)
        × (accepted 23 ≡ true)
unfolding recv_packet accepted
recv_packet-broken malloc ts link p q e full small m f = (
  rw (
    e,
    lt→ltb 0 (headed p.moved).m_head.body_size full,
    le→not-ltb max_packet_body (headed p.moved).m_head.body_size small,
    create_null malloc (headed p.moved).m_head.body_size m,
    f,
    le→not-ltb minus_one (headed p.moved).m_head.body_size (omega arith),
  ),
  refl,
)

-- The packet that the first bytes of the link make.
abbrev pub on_link : List ℕ → Packet
on_link link = record { m_head = decode_head (take 24 link); m_body = none }

abbrev pub with_body : List ℕ → Packet
with_body link =
    let n = (on_link link).m_head.body_size in
    set_body (on_link link)
      (some
        (record { m_data = some (take n (drop 24 link)); m_size = length (replicate {A = ℕ} n 0) }))
      0

module _ (malloc : ℕ → Bool) (ts : List Turn) (link : List ℕ) (steady : IsSteady ts)
    (there : 24 + (on_link link).m_head.body_size ≤ length link)
    (enough : 24 + (on_link link).m_head.body_size ≤ productive ts) where
  abbrev n : ℕ
  n = (on_link link).m_head.body_size

  whole_head : overwrite (replicate 24 0) 0 (take 24 link) ≡ take 24 link
  whole_head =
      overwrite_all (replicate 24 0) (take 24 link)
        (omega (arith, length-take 24 link, length-replicate {A = ℕ} 24 0))

  whole_body : overwrite (replicate n 0) 0 (take n (drop 24 link)) ≡ take n (drop 24 link)
  whole_body = overwrite_all (replicate n 0) (take n (drop 24 link)) (
      omega
        (arith, length-take n (drop 24 link), length-drop 24 link, length-replicate {A = ℕ} n 0))

  head_in :
      (us : List Turn) × (recv ts 24 link
        ≡ returned 24 (record { moved = take 24 link; link = drop 24 link; turns = us }))
      × LeavesTurns ts us 24
  head_in = recv_lem ts 24 link steady (omega arith) (omega arith)

  body_in :
      (us : List Turn) × (recv head_in.0 n (drop 24 link)
        ≡ returned n
            (record { moved = take n (drop 24 link); link = drop n (drop 24 link); turns = us }))
      × LeavesTurns head_in.0 us n
  body_in =
      recv_lem head_in.0 n (drop 24 link) head_in.2.0 (omega (arith, length-drop 24 link))
        (omega (arith, head_in.2.1))

  total : n ≤ max_packet_body → 24 + n < u32
  total small = omega arith

  recv_packet-with_body :
      0 < n
      → n ≤ max_packet_body
      → malloc n ≡ true
      → recv_packet malloc ts link
        ≡ fetched (24 + n) (with_body link) (drop (24 + n) link) body_in.0
  unfolding recv_packet
  recv_packet-with_body full small m = rw (
    head_in.1,
    whole_head,
    lt→ltb 0 n full,
    le→not-ltb max_packet_body n small,
    create_null malloc n m,
    body_in.1,
    ltb_irrefl n,
    whole_body,
    mod-eq_of_lt (total small),
    drop-drop n 24 link,
  )

  head_length : length (take 24 link) ≡ 24
  head_length = omega (arith, length-take 24 link)

  body_length : length (take n (drop 24 link)) ≡ n
  body_length = omega (arith, length-take n (drop 24 link), length-drop 24 link)

  wire_with_body :
      0 < n
      → n ≤ max_packet_body
      → malloc n ≡ true
      → Wire.recv_packet malloc link ≡ (Wire.received (with_body link) (24 + n), drop (24 + n) link)
  unfolding Wire.recv_packet
  wire_with_body full small m = rw (
    Wire.client_recv_lem link 24 (omega arith),
    head_length,
    lt→ltb 0 n full,
    le→not-ltb max_packet_body n small,
    create_null malloc n m,
    Wire.client_recv_lem (drop 24 link) n (omega (arith, length-drop 24 link)),
    body_length,
    ltb_irrefl n,
    mod-eq_of_lt (total small),
    drop-drop n 24 link,
  )

  recv_packet_alone :
      n ≡ 0
      → (recv_packet malloc ts link ≡ fetched 24 (on_link link) (drop 24 link) head_in.0)
        × (Wire.recv_packet malloc link ≡ (Wire.received (on_link link) 24, drop 24 link))
  unfolding recv_packet Wire.recv_packet
  recv_packet_alone z = (
    rw (head_in.1, whole_head, z),
    rw (Wire.client_recv_lem link 24 (omega arith), head_length, z),
  )

-- Two views of what came in: the packet, the number of bytes and what is left on the link are the same.
abbrev pub SameAs : Wire.Received × List ℕ → Fetched → Type 0
SameAs (Wire.received p k, rest) (fetched r q link us) = (r ≡ k) × (q ≡ p) × (link ≡ rest)
SameAs (Wire.received p k, rest) recv_waits = ⊥
SameAs (Wire.closed, rest) f = ⊥
SameAs (Wire.recv_failed, rest) f = ⊥
SameAs (Wire.waiting, rest) f = ⊥

-- If the head and all of the body that it announces are on the link, a body has 65536 bytes at most
-- and there is memory for it, then in turns without a cancel and without a fatal error, of which as
-- many as there are bytes can move something, `recvPacket` over the loops returns, and gives the
-- packet, the value and the rest of the link that the link alone determines.
pub recv_packet-SameAs :
    (malloc : ℕ → Bool) (ts : List Turn) (link : List ℕ)
    → IsSteady ts
    → 24 + (on_link link).m_head.body_size ≤ length link
    → 24 + (on_link link).m_head.body_size ≤ productive ts
    → (on_link link).m_head.body_size ≤ max_packet_body
    → malloc (on_link link).m_head.body_size ≡ true
    → SameAs (Wire.recv_packet malloc link) (recv_packet malloc ts link)
recv_packet-SameAs malloc ts link steady there enough small m =
    elim (Bool-cases ((on_link link).m_head.body_size == 0)) [
      | inl z ↦
          let both =
            recv_packet_alone malloc ts link steady there enough
              ((==_iff (on_link link).m_head.body_size 0).0 z) in
          rw (both.0, both.1) (refl, refl, refl)
      | inr f ↦
          rw
            (
              recv_packet-with_body malloc ts link steady there enough (ground arith) small m,
              wire_with_body malloc ts link steady there enough (ground arith) small m,
            )
            (refl, refl, refl)
    ]
