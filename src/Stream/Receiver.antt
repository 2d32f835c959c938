-- ===== src/Stream/Receiver.antt =====
-- src/streamreceiver.cpp and src/bufferreceiver.cpp (include/Zway/streamreceiver.h,
-- include/Zway/bufferreceiver.h). `calls` is what each call of the callback sees, newest first, if a
-- callback is set: the status and the bytes received.
use zway_lib.Base.{
  ℕ, ◌+◌, ◌-◌, ◌*◌, ◌%◌, Bool, true, false, not, ◌&&◌, Option, none, some, List, [], ◌∷◌, ltb, ◌==◌,
  if◌then◌else◌,
}
use zway_lib.Buffer.{MemoryBuffer, blank, write, create}
use zway_lib.Packet.{Packet, max_packet_body, u32, body_data}

pub data Status : Type 0 where
  idle incoming completed error : Status

pub record BufferReceiver : Type 0 where
  pub m_id : ℕ
  pub m_type : ℕ
  pub m_status : Status
  pub m_part : ℕ
  pub m_parts : ℕ
  pub m_callback : Bool
  pub m_buffer : MemoryBuffer
  pub m_bytes_received : ℕ
  pub calls : List (Status × ℕ)

-- The constructors of both classes. `m_buffer` is the null pointer until `init`: here a blank buffer.
abbrev pub buffer_receiver : Bool → BufferReceiver
buffer_receiver callback = record {
  m_id = 0;
  m_type = 0;
  m_status = idle;
  m_part = 0;
  m_parts = 0;
  m_callback = callback;
  m_buffer = blank;
  m_bytes_received = 0;
  calls = [];
}

-- `StreamReceiver::init`: what the first packet says of the stream is taken as it is.
abbrev pub init_stream : BufferReceiver → Packet → BufferReceiver
init_stream r p = record r {
  m_id = p.m_head.stream_id;
  m_type = p.m_head.stream_type;
  m_part = p.m_head.part;
  m_parts = p.m_head.parts;
}

abbrev pub init_buffer : BufferReceiver → Packet → Option MemoryBuffer → Option BufferReceiver
init_buffer r p none = none
init_buffer r p (some b) = some (record (init_stream r p) { m_buffer = b })

-- `BufferReceiver::init`: the given buffer, or one with room for all parts.
unfoldable pub init :
    (ℕ → Bool) → BufferReceiver → Packet → Option MemoryBuffer → Option BufferReceiver
init malloc r p (some b) = init_buffer r p (some b)
init malloc r p none =
    init_buffer r p (create malloc none ((p.m_head.parts * max_packet_body) % u32))

unfoldable pub create_receiver :
    (ℕ → Bool) → Packet → Option MemoryBuffer → Bool → Option BufferReceiver
unfolding init
create_receiver malloc p buffer callback = init malloc (buffer_receiver callback) p buffer

abbrev pub invoke_callback : BufferReceiver → BufferReceiver
invoke_callback r = record r {
  calls = if r.m_callback then (r.m_status, r.m_bytes_received) ∷ r.calls else r.calls;
}

-- `processPacket`. The outer `none` is a packet with no body, where the source follows a null
-- pointer; the inner one is `false`.
unfoldable pub process_packet : BufferReceiver → Packet → Option (Option BufferReceiver)
process_packet r p = elim (body_data p) [
  | none ↦ none
  | some body ↦
      some
        (elim (write r.m_buffer body p.m_head.body_size
          (((p.m_head.part + u32 - 1) % u32 * max_packet_body) % u32)) [
            | none ↦ none
            | some (b, _) ↦ some (record r {
              m_buffer = b;
              m_bytes_received = (r.m_bytes_received + p.m_head.body_size) % u32;
            })
          ])
]

abbrev pub completes : BufferReceiver → BufferReceiver
completes r =
    if r.m_part == r.m_parts then invoke_callback (record r { m_status = completed }) else r

abbrev pub processed : BufferReceiver → ℕ → Option BufferReceiver → Bool × BufferReceiver
processed r part none = (false, invoke_callback (record r { m_status = error }))
processed r part (some r') = (true, completes (record r' { m_part = part }))

-- A part other than the first must follow the last one received. `none`: the packet has no body.
unfoldable pub process : BufferReceiver → Packet → Option (Bool × BufferReceiver)
unfolding process_packet
process r p =
    if ltb 1 p.m_head.part && not (p.m_head.part == (r.m_part + 1) % u32)
    then some (false, r)
    else elim (process_packet r p) [
      | none ↦ none
      | some result ↦ some (processed r p.m_head.part result)
    ]
