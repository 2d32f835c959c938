-- ===== src/Client/Packets.antt =====
-- `Sender::sendPacket`, `Receiver::recvPacket` and what `Receiver::run` makes of its value
-- (src/client.cpp), over the loops of `Client::send` and `Client::recv`.
pub mod Agree
use zway_lib.Base.{
  ℕ, ◌+◌, ◌%◌, Bool, not, ◌&&◌, Option, none, some, List, ltb, ◌==◌, if◌then◌else◌, overwrite,
  replicate,
}
use zway_lib.Buffer.{MemoryBuffer, create, Pointer}
use zway_lib.Packet.{Packet, u32, max_packet_body, set_body, body_data}
use zway_lib.Wire.{encode_head, decode_head, head_size}
use zway_lib.Client.{Turn, Progress, Outcome, returned, waiting, send, recv, minus_one}

-- A call that has returned a value, one that still waits, and one that follows a null pointer.
pub data Sent : Type 0 where
  sent : ℕ → List ℕ → List Turn → Sent
  send_waits : Sent
  no_body : Sent

abbrev sent_body : ℕ → ℕ → Outcome → Sent
sent_body r1 size waiting = send_waits
sent_body r1 size (returned r2 p) =
    sent (if ltb r2 size then minus_one else (r1 + r2) % u32) p.link p.turns

-- A null block in the body is given to `gnutls_record_send`, which no caller does.
abbrev sent_behind : Packet → ℕ → Progress → Option Pointer → Sent
sent_behind pkt r1 p none = no_body
sent_behind pkt r1 p (some none) = no_body
sent_behind pkt r1 p (some (some body)) =
    sent_body r1 pkt.m_head.body_size (send p.turns body pkt.m_head.body_size p.link)

abbrev sent_head : Packet → Outcome → Sent
sent_head pkt waiting = send_waits
sent_head pkt (returned r p) =
    if ltb r head_size
    then sent minus_one p.link p.turns
    else if ltb 0 pkt.m_head.body_size
    then sent_behind pkt r p (body_data pkt)
    else sent r p.link p.turns

unfoldable pub send_packet : List Turn → Packet → List ℕ → Sent
send_packet ts pkt link = sent_head pkt (send ts (encode_head pkt.m_head) head_size link)

-- The value, and the packet as it is then.
pub data Fetched : Type 0 where
  fetched : ℕ → Packet → List ℕ → List Turn → Fetched
  recv_waits : Fetched

abbrev fetched_body : Packet → ℕ → MemoryBuffer → Outcome → Fetched
fetched_body pkt r1 b waiting = recv_waits
fetched_body pkt r1 b (returned r2 p) =
    if ltb r2 pkt.m_head.body_size
    then fetched minus_one pkt p.link p.turns
    else fetched ((r1 + r2) % u32)
        (set_body pkt
          (some
            (record b { m_data = some (overwrite (replicate pkt.m_head.body_size 0) 0 p.moved) }))
          0)
        p.link p.turns

-- The body's buffer is zeroed, and what comes is written to its beginning.
abbrev pub fetched_into : Packet → ℕ → Progress → Option MemoryBuffer → Fetched
fetched_into pkt r1 p none = fetched minus_one pkt p.link p.turns
fetched_into pkt r1 p (some b) = fetched_body pkt r1 b (recv p.turns pkt.m_head.body_size p.link)

abbrev pub fetched_behind : (ℕ → Bool) → Packet → ℕ → Progress → Fetched
fetched_behind malloc pkt r1 p =
    if ltb 0 pkt.m_head.body_size
    then (if ltb max_packet_body pkt.m_head.body_size
        then fetched minus_one pkt p.link p.turns
        else fetched_into pkt r1 p (create malloc none pkt.m_head.body_size))
    else fetched r1 pkt p.link p.turns

-- The packet is fresh: its head is zeroed before what comes is written over it.
abbrev pub headed : List ℕ → Packet
headed moved = record { m_head = decode_head (overwrite (replicate 24 0) 0 moved); m_body = none }

abbrev pub fetched_head : (ℕ → Bool) → Outcome → Fetched
fetched_head malloc waiting = recv_waits
fetched_head malloc (returned r p) =
    if r == 0
    then fetched 0 (headed p.moved) p.link p.turns
    else if ltb r head_size
    then fetched minus_one (headed p.moved) p.link p.turns
    else fetched_behind malloc (headed p.moved) r p

unfoldable pub recv_packet : (ℕ → Bool) → List Turn → List ℕ → Fetched
recv_packet malloc ts link = fetched_head malloc (recv ts head_size link)

-- `Receiver::run` queues the packet if the value is positive as an `int32_t`, and disconnects
-- otherwise.
unfoldable pub accepted : ℕ → Bool
accepted r = not (r == 0) && ltb r 2147483648
