-- ===== src/Wire.antt =====
-- `Sender::sendPacket` and `Receiver::recvPacket` of src/client.cpp: a packet as bytes on the link.
-- The link is the list of the bytes on their way. `Client::send` and `Client::recv` stand here as they
-- are on a connection that neither fails nor is canceled: all bytes go out in order, and as many
-- come in as are asked for, or the call waits for more, also when the peer has closed. The head goes out as it lies in
-- memory: six `uint32_t`, low byte first.
pub mod RoundTrip
pub mod Bounds
mod Tests
use zway_lib.Base.{
  ℕ, ◌≡◌, ◌≤◌, arith, ◌+◌, ◌*◌, ◌/◌, ◌%◌, Bool, Option, none, some, List, [], ◌∷◌, ◌++◌, length,
  take, drop, ltb, ◌==◌, if◌then◌else◌,
}
use zway_lib.Buffer.{MemoryBuffer, create}
use zway_lib.Packet.{Head, Packet, max_packet_body, u32, set_body, body_data}

abbrev pub bytes_of_u32 : ℕ → List ℕ
bytes_of_u32 n = n % 256 ∷ (n / 256) % 256 ∷ (n / 65536) % 256 ∷ (n / 16777216) % 256 ∷ []

abbrev pub u32_of_bytes : ℕ → ℕ → ℕ → ℕ → ℕ
u32_of_bytes a b c d = a + 256 * b + 65536 * c + 16777216 * d

unfoldable pub encode_head : Head → List ℕ
encode_head h =
    bytes_of_u32 h.id
    ++ (bytes_of_u32 h.stream_id
        ++ (bytes_of_u32 h.stream_type
            ++ (bytes_of_u32 h.part ++ (bytes_of_u32 h.parts ++ bytes_of_u32 h.body_size))))

-- One number and the bytes behind it.
abbrev pub next_u32 : List ℕ → ℕ × List ℕ
next_u32 (a ∷ b ∷ c ∷ d ∷ l) = (u32_of_bytes a b c d, l)
next_u32 l = (0, l)

unfoldable pub decode_head : List ℕ → Head
decode_head l =
    let (id, l1) = next_u32 l in
    let (stream_id, l2) = next_u32 l1 in
    let (stream_type, l3) = next_u32 l2 in
    let (part, l4) = next_u32 l3 in
    let (parts, l5) = next_u32 l4 in
    let (body_size, l6) = next_u32 l5 in
    record {
      id = id;
      stream_id = stream_id;
      stream_type = stream_type;
      part = part;
      parts = parts;
      body_size = body_size;
    }

-- `sizeof(Packet::Head)`
abbrev pub head_size : ℕ
head_size = 24

-- `Client::send` of the first `n` bytes at a pointer: the link behind, and the number sent.
abbrev pub client_send : List ℕ → List ℕ → ℕ → List ℕ × ℕ
client_send link l n = (link ++ take n l, length (take n l))

-- `Client::recv`: the bytes that came, and the link behind.
-- `none`: it waits for bytes that are not there.
unfoldable pub client_recv : List ℕ → ℕ → Option (List ℕ × List ℕ)
client_recv link n = if ltb (length link) n then none else some (take n link, drop n link)

-- On a link that holds what is asked for.
pub client_recv_lem :
    (link : List ℕ) (n : ℕ) → n ≤ length link → client_recv link n ≡ some (take n link, drop n link)
unfolding client_recv
client_recv_lem link n h = ground (arith, h)

pub data Sent : Type 0 where
  sent : ℕ → Sent
  send_failed : Sent

-- `sendPacket`. The outer `none` is a packet that says it has a body and has none, where the source
-- follows a null pointer; with a null block in the body there is nothing to send.
unfoldable pub send_packet : List ℕ → Packet → Option (List ℕ × Sent)
send_packet link p =
    let (link1, r1) = client_send link (encode_head p.m_head) head_size in
    if ltb r1 head_size
    then some (link1, send_failed)
    else if ltb 0 p.m_head.body_size
    then elim (body_data p) [
      | none ↦ none
      | some none ↦ none
      | some (some body) ↦
          let (link2, r2) = client_send link1 body p.m_head.body_size in
          some (link2, if ltb r2 p.m_head.body_size then send_failed else sent ((r1 + r2) % u32))
    ]
    else some (link1, sent r1)

-- What `recvPacket` returns: 0, -1, or the number of bytes, with the packet filled in. Or it waits, with
-- nothing left on the link.
pub data Received : Type 0 where
  closed recv_failed waiting : Received
  received : Packet → ℕ → Received

abbrev pub behind_recv :
    Option (List ℕ × List ℕ) → (List ℕ → List ℕ → Received × List ℕ) → Received × List ℕ
behind_recv none next = (waiting, [])
behind_recv (some (bytes, link)) next = next bytes link

abbrev pub recv_body : Packet → ℕ → List ℕ → MemoryBuffer → Received
recv_body p r1 body b =
    if ltb (length body) p.m_head.body_size
    then recv_failed
    else received (set_body p (some (record b { m_data = some body })) 0) ((r1 + length body) % u32)

-- The body comes into a new buffer as long as what is asked for, and replaces its bytes.
abbrev pub recv_into : Packet → ℕ → List ℕ → Option MemoryBuffer → Received × List ℕ
recv_into p r1 link none = (recv_failed, link)
recv_into p r1 link (some b) =
    behind_recv (client_recv link p.m_head.body_size) (λ body link2. (recv_body p r1 body b, link2))

abbrev pub recv_behind : (ℕ → Bool) → Packet → ℕ → List ℕ → Received × List ℕ
recv_behind malloc p r1 link =
    if ltb 0 p.m_head.body_size
    then (if ltb max_packet_body p.m_head.body_size
        then (recv_failed, link)
        else recv_into p r1 link (create malloc none p.m_head.body_size))
    else (received p r1, link)

-- `pkt` is a fresh packet of which only the head is overwritten.
abbrev pub recv_head : (ℕ → Bool) → List ℕ → List ℕ → Received × List ℕ
recv_head malloc head link1 =
    let r1 = length head in
    if r1 == 0
    then (closed, link1)
    else if ltb r1 head_size
    then (recv_failed, link1)
    else recv_behind malloc (record { m_head = decode_head head; m_body = none }) r1 link1

unfoldable pub recv_packet : (ℕ → Bool) → List ℕ → Received × List ℕ
recv_packet malloc link =
    behind_recv (client_recv link head_size) (λ head link1. recv_head malloc head link1)
