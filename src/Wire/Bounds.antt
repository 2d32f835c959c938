-- ===== src/Wire/Bounds.antt =====
-- `Receiver::recvPacket` on whatever bytes a peer sends (src/client.cpp).
use zway_lib.Base.{
  drop-drop, ℕ, ◌+◌, ◌≡◌, ◌≤◌, ◌<◌, ◌⊎◌, inl, inr, refl, Bool, true, false, none, some, List, [],
  arith, length, take, drop, length-take, length-drop, ltb, length-replicate, replicate, ltb_irrefl,
}
use native.Mathlib.Nat.{mod-eq_of_lt}
use zway_lib.Buffer.{create, of_bytes}
use zway_lib.Buffer.Laws.{create_null}
use zway_lib.Packet.{Packet, u32, max_packet_body}
use zway_lib.Wire.{
  Received, closed, recv_failed, received, waiting, recv_packet, recv_behind, recv_into,
  decode_head, client_recv, client_recv_lem,
}

-- The size of the body that the first 24 bytes announce.
abbrev pub body_announced : List ℕ → ℕ
body_announced link = (decode_head (take 24 link)).body_size

-- What the link held for each result, and what is left of it.
abbrev pub Consumed : (ℕ → Bool) → List ℕ → Received → List ℕ → Type 0
Consumed malloc link closed rest = ⊥
Consumed malloc link recv_failed rest =
    (24 ≤ length link)
    × ((max_packet_body < body_announced link) ⊎ (malloc (body_announced link) ≡ false))
    × (rest ≡ drop 24 link)
Consumed malloc link waiting rest =
    ((length link < 24) ⊎ (length link < 24 + body_announced link)) × (rest ≡ [])
Consumed malloc link (received p n) rest =
    (p.m_head ≡ decode_head (take 24 link))
    × (n ≡ 24 + body_announced link)
    × (body_announced link ≤ max_packet_body)
    × (n ≤ length link)
    × (rest ≡ drop n link)

-- A call that waits for bytes that are not there.
client_recv_short : (link : List ℕ) (n : ℕ) → length link < n → client_recv link n ≡ none
unfolding client_recv
client_recv_short link n h = ground (arith, h)

≤_cases : (m n : ℕ) → (m ≤ n) ⊎ (n < m)
≤_cases m n = ground arith

module _ (malloc : ℕ → Bool) (link : List ℕ) (head : 24 ≤ length link) where
  abbrev n : ℕ
  n = body_announced link

  abbrev headed : Packet
  headed = record { m_head = decode_head (take 24 link); m_body = none }

  body-Consumed :
      n ≤ max_packet_body
      → let got = recv_into headed 24 (drop 24 link) (some (of_bytes (replicate n 0))) in
        Consumed malloc link got.0 got.1
  body-Consumed small = elim (≤_cases n (length (drop 24 link))) [
    | inl there ↦
        let all : length (take n (drop 24 link)) ≡ n =
          omega (arith, length-take n (drop 24 link)) in
        rw
          (
            client_recv_lem (drop 24 link) n there,
            all,
            ltb_irrefl n,
            length-replicate {A = ℕ} n 0,
            mod-eq_of_lt (total small),
          )
          (refl, refl, small, omega (arith, length-drop 24 link), drop-drop n 24 link)
    | inr short ↦
        rw (client_recv_short (drop 24 link) n short)
          (inr (omega (arith, length-drop 24 link)), refl)
  ]
    where
      total : n ≤ max_packet_body → 24 + n < u32
      total h = omega arith

  into-Consumed :
      (c : Bool)
      → n ≤ max_packet_body
      → malloc n ≡ c
      → let got = recv_into headed 24 (drop 24 link) (create malloc none n) in
        Consumed malloc link got.0 got.1
  into-Consumed true small m = rw (create_null malloc n m) (body-Consumed small)
  into-Consumed false small m = unfold create in rw m (head, inr m, refl)

  behind-Consumed :
      (c d : Bool)
      → ltb 0 n ≡ c
      → ltb max_packet_body n ≡ d
      → let got = recv_behind malloc headed 24 (drop 24 link) in Consumed malloc link got.0 got.1
  behind-Consumed false d e f = rw e (refl, ground arith, ground arith, head, refl)
  behind-Consumed true true e f = rw (e, f) (head, inl (ground arith), refl)
  behind-Consumed true false e f = rw (e, f) (into-Consumed _ (ground arith) refl)

-- From whatever bytes there are on the link of a connection that does not fail: a packet has the head
-- that the first 24 bytes make and a body of at most 65536 bytes, the number returned counts both,
-- that many bytes were there, and the link goes on behind them. The call fails only behind a
-- whole head, for a body of more than 65536 bytes or without memory for it. It waits only if the
-- head, or the body that it announces, is not all there. It never says that the peer has closed.
pub recv_packet-Consumed :
    (malloc : ℕ → Bool) (link : List ℕ)
    → Consumed malloc link (recv_packet malloc link).0 (recv_packet malloc link).1
unfolding recv_packet
recv_packet-Consumed malloc link = elim (≤_cases 24 (length link)) [
  | inl there ↦
      let all : length (take 24 link) ≡ 24 = omega (arith, length-take 24 link) in
      rw (client_recv_lem link 24 there, all) (behind-Consumed malloc link there _ _ refl refl)
  | inr short ↦ rw (client_recv_short link 24 short) (inl short, refl)
]
