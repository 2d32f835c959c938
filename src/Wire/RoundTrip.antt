-- ===== src/Wire/RoundTrip.antt =====
-- What `recvPacket` reads is what `sendPacket` wrote (src/client.cpp).
use zway_lib.Base.{
  ℕ, ◌+◌, ◌/◌, ◌%◌, ◌≡◌, ◌≤◌, ◌<◌, refl, Bool, true, Option, none, some, List, ◌++◌, arith, length,
  take, drop, length-take, append_assoc, lt→ltb, le→not-ltb, take_exact, drop_exact, ltb_irrefl,
  length-replicate, length-append,
}
use native.Mathlib.Nat.{mod-eq_of_lt}
use zway_lib.Buffer.{MemoryBuffer, of_bytes}
use zway_lib.Buffer.Laws.{create_null}
use zway_lib.Packet.{Head, Packet, u32, max_packet_body}
use zway_lib.Wire.{
  encode_head, decode_head, u32_of_bytes, send_packet, recv_packet, sent, received, client_recv_lem,
}

-- Every number of the head is a `uint32_t`.
pub record FitsHead (h : Head) : Type 0 where
  pub id_fits : h.id < u32
  pub stream_id_fits : h.stream_id < u32
  pub stream_type_fits : h.stream_type < u32
  pub part_fits : h.part < u32
  pub parts_fits : h.parts < u32
  pub body_size_fits : h.body_size < u32

four_bytes :
    (n : ℕ)
    → n < u32
    → u32_of_bytes (n % 256) ((n / 256) % 256) ((n / 65536) % 256) ((n / 16777216) % 256) ≡ n
four_bytes n h = omega arith

-- A head of six numbers below 2^32 comes back from its 24 bytes.
decode-encode : (h : Head) → FitsHead h → decode_head (encode_head h) ≡ h
unfolding decode_head encode_head
decode-encode h f = λ i. record {
  id = four_bytes h.id f.id_fits i;
  stream_id = four_bytes h.stream_id f.stream_id_fits i;
  stream_type = four_bytes h.stream_type f.stream_type_fits i;
  part = four_bytes h.part f.part_fits i;
  parts = four_bytes h.parts f.parts_fits i;
  body_size = four_bytes h.body_size f.body_size_fits i;
}

pub length-encode_head : (h : Head) → length (encode_head h) ≡ 24
unfolding encode_head
length-encode_head h = refl

head_there : (h : Head) (l : List ℕ) → 24 ≤ length (encode_head h ++ l)
head_there h l = omega (arith, length-append (encode_head h) l, length-encode_head h)

take-encode_head : (h : Head) (l : List ℕ) → take 24 (encode_head h ++ l) ≡ encode_head h
unfolding encode_head
take-encode_head h l = refl

drop-encode_head : (h : Head) (l : List ℕ) → drop 24 (encode_head h ++ l) ≡ l
unfolding encode_head
drop-encode_head h l = refl

take-encode_head_alone : (h : Head) → take 24 (encode_head h) ≡ encode_head h
unfolding encode_head
take-encode_head_alone h = refl

-- The packet that comes out: the same head, and a body of just the bytes that the head announces.
abbrev pub delivered : Head → List ℕ → Packet
delivered h body = record { m_head = h; m_body = some (of_bytes (take h.body_size body)) }

-- The bytes on the wire.
abbrev pub wire : Head → List ℕ → List ℕ
wire h body = encode_head h ++ take h.body_size body

module _ (h : Head) (body : List ℕ) (b : MemoryBuffer) (f : FitsHead h)
    (some_body : 0 < h.body_size) (small : h.body_size ≤ max_packet_body)
    (enough : h.body_size ≤ length body) where
  copied : length (take h.body_size body) ≡ h.body_size
  copied = omega (arith, length-take h.body_size body)

  total : 24 + h.body_size < u32
  total = omega arith

  pub send_packet_lem :
      (link : List ℕ)
      → b.m_data ≡ some body
      → send_packet link (record { m_head = h; m_body = some b })
        ≡ some (link ++ wire h body, sent (24 + h.body_size))
  unfolding send_packet encode_head
  send_packet_lem link e = rw (
    take-encode_head_alone h,
    length-encode_head h,
    e,
    lt→ltb 0 h.body_size some_body,
    copied,
    ltb_irrefl h.body_size,
    mod-eq_of_lt total,
    append_assoc link (encode_head h) (take h.body_size body),
  )

  pub recv_packet_lem :
      (malloc : ℕ → Bool) (rest : List ℕ)
      → malloc h.body_size ≡ true
      → recv_packet malloc (wire h body ++ rest)
        ≡ (received (delivered h body) (24 + h.body_size), rest)
  unfolding recv_packet
  recv_packet_lem malloc rest m = rw (
    append_assoc (encode_head h) (take h.body_size body) rest,
    client_recv_lem (encode_head h ++ (take h.body_size body ++ rest)) 24
        (head_there h (take h.body_size body ++ rest)),
    take-encode_head h (take h.body_size body ++ rest),
    drop-encode_head h (take h.body_size body ++ rest),
    length-encode_head h,
    decode-encode h f,
    lt→ltb 0 h.body_size some_body,
    le→not-ltb max_packet_body h.body_size small,
    create_null malloc h.body_size m,
    client_recv_lem (take h.body_size body ++ rest) h.body_size
        (omega (arith, length-append (take h.body_size body) rest, copied)),
    take_exact (take h.body_size body) rest h.body_size copied,
    drop_exact (take h.body_size body) rest h.body_size copied,
    copied,
    ltb_irrefl h.body_size,
    length-replicate {A = ℕ} h.body_size 0,
    mod-eq_of_lt total,
  )

-- A packet whose head has numbers below 2^32, with a body of 1 to 65536 bytes, which the sender's
-- block holds and for which the receiver has memory, goes out behind what is on the link, and
-- comes in as it went out, with a body of just the bytes that the head announces; what follows it
-- stays on the link. Both ends return the number of bytes.
pub recv_packet-send_packet :
    (malloc : ℕ → Bool) (h : Head) (body : List ℕ) (b : MemoryBuffer) (link rest : List ℕ)
    → FitsHead h
    → 0 < h.body_size
    → h.body_size ≤ max_packet_body
    → h.body_size ≤ length body
    → b.m_data ≡ some body
    → malloc h.body_size ≡ true
    → (send_packet link (record { m_head = h; m_body = some b })
        ≡ some (link ++ wire h body, sent (24 + h.body_size)))
      × (recv_packet malloc (wire h body ++ rest)
          ≡ (received (delivered h body) (24 + h.body_size), rest))
recv_packet-send_packet malloc h body b link rest f some_body small enough e m = (
  send_packet_lem h body b f some_body small enough link e,
  recv_packet_lem h body b f some_body small enough malloc rest m,
)

-- A packet whose head has numbers below 2^32 and announces no body is its head alone, whatever
-- body it has, and comes in without one; what follows it stays on the link.
pub recv_packet-no_body :
    (malloc : ℕ → Bool) (h : Head) (body : Option MemoryBuffer) (link rest : List ℕ)
    → FitsHead h
    → h.body_size ≡ 0
    → (send_packet link (record { m_head = h; m_body = body })
        ≡ some (link ++ encode_head h, sent 24))
      × (recv_packet malloc (encode_head h ++ rest)
          ≡ (received (record { m_head = h; m_body = none }) 24, rest))
unfolding send_packet recv_packet
recv_packet-no_body malloc h body link rest f z = (
  rw (take-encode_head_alone h, length-encode_head h, z),
  rw (
    client_recv_lem (encode_head h ++ rest) 24 (head_there h rest),
    take-encode_head h rest,
    drop-encode_head h rest,
    length-encode_head h,
    decode-encode h f,
    z,
  ),
)
