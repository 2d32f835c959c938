-- ===== src/Stream/Sender.antt =====
-- src/streamsender.cpp and src/buffersender.cpp (include/Zway/streamsender.h,
-- include/Zway/buffersender.h).
-- The virtual methods are a record of hooks over the state `X` that a subclass adds. `calls` is the
-- status that each call of the callback sees, oldest last, if a callback is set; what the callback
-- does beyond that is the caller's.
use zway_lib.Base.{
  ℕ, ◌+◌, ◌-◌, ◌*◌, ◌/◌, ◌%◌, Bool, true, false, ◌&&◌, Option, none, some, List, [], ◌∷◌, ltb, leb,
  ◌==◌, if◌then◌else◌,
}
use zway_lib.Buffer.{MemoryBuffer, blank, read, create, clear, size}
use zway_lib.Packet.{
  Packet, max_packet_body, u32, set_stream_id, set_stream_type, set_part, set_parts, set_body,
}
use zway_lib.Packet

pub data Status : Type 0 where
  idle outgoing completed error : Status

pub record StreamSender : Type 0 where
  pub m_id : ℕ
  pub m_type : ℕ
  pub m_status : Status
  pub m_callback : Bool
  pub m_size : ℕ
  pub m_part : ℕ
  pub m_parts : ℕ
  pub m_body : MemoryBuffer
  pub calls : List Status

-- The constructor. `m_body` is the null pointer until `init`: here a blank buffer.
abbrev pub stream_sender : ℕ → ℕ → ℕ → Bool → StreamSender
stream_sender id type parts callback = record {
  m_id = id;
  m_type = type;
  m_status = idle;
  m_callback = callback;
  m_size = 0;
  m_part = 0;
  m_parts = parts;
  m_body = blank;
  calls = [];
}

-- The number of packets for a stream of so many bytes.
unfoldable pub parts_of : ℕ → ℕ
parts_of stream_size =
    if leb max_packet_body stream_size
    then stream_size / max_packet_body + (if stream_size % max_packet_body == 0 then 0 else 1)
    else 1

abbrev pub init_body : StreamSender → ℕ → Option MemoryBuffer → Option StreamSender
init_body s stream_size none = none
init_body s stream_size (some body) = some (
    if stream_size == 0
    then record s { m_body = body }
    else record s { m_body = body; m_size = stream_size; m_parts = parts_of stream_size })

unfoldable pub init : (ℕ → Bool) → StreamSender → ℕ → Option StreamSender
init malloc s stream_size = init_body s stream_size (create malloc none max_packet_body)

abbrev pub invoke_callback : StreamSender → StreamSender
invoke_callback s = record s { calls = if s.m_callback then s.m_status ∷ s.calls else s.calls }

abbrev pub fail : StreamSender → StreamSender
fail s = invoke_callback (record s { m_status = error })

-- What a subclass overrides. A hook returns its `bool`, and the state, the sender and the packet as
-- it leaves them; `none` is a packet that was reset.
pub record Hooks (X : Type 0) : Type 0 where
  pub prepare_packet : X → StreamSender → Packet → ℕ → ℕ → Bool × X × StreamSender × Option Packet
  pub process_packet : X → StreamSender → Packet → Bool × X × StreamSender × Packet

-- The base class's own.
abbrev pub prepare_packet : StreamSender → Packet → Packet
prepare_packet s p =
    set_parts (set_part (set_stream_type (set_stream_id p s.m_id) s.m_type) ((s.m_part + 1) % u32))
      s.m_parts

module _ {X : Type 0} (h : Hooks X) where
  -- The end of `process`.
  unfoldable pub completes : StreamSender → StreamSender
  completes s =
      if ltb 0 s.m_parts && s.m_part == s.m_parts
      then invoke_callback (record s { m_status = completed })
      else s

  unfoldable pub processed :
      Bool × X × StreamSender × Packet → Bool × Option Packet × X × StreamSender
  processed (false, x, s, p) = (false, some p, x, fail s)
  processed (true, x, s, p) =
      (true, some p, x, completes (record s { m_part = (s.m_part + 1) % u32 }))

  unfoldable pub prepared :
      Bool × X × StreamSender × Option Packet → Bool × Option Packet × X × StreamSender
  unfolding processed
  prepared (false, x, s, p) = (false, p, x, fail s)
  prepared (true, x, s, none) = (true, none, x, completes s)
  prepared (true, x, s, some p) = processed (h.process_packet x s p)

  -- The result, the packet, and the state afterwards.
  unfoldable pub process : X → StreamSender → Bool × Option Packet × X × StreamSender
  unfolding completes processed prepared
  process x s =
      let bytes_sent = (s.m_part * max_packet_body) % u32 in
      let bytes_left = (s.m_size + u32 - bytes_sent) % u32 in
      let bytes_to_send =
        if ltb 0 s.m_size && ltb bytes_left max_packet_body then bytes_left else max_packet_body in
      prepared (
        h.prepare_packet x (record s { m_body = clear s.m_body }) (Packet.create 0) bytes_to_send
          bytes_sent)

-- `BufferSender`: the state that it adds is the buffer to send. With what was read into the body
-- buffer, and without:
unfoldable pub filled :
    MemoryBuffer
    → StreamSender
    → Packet
    → Option (List ℕ × ℕ)
    → Bool × MemoryBuffer × StreamSender × Option Packet
filled b s p none = (false, b, s, some p)
filled b s p (some (d, bytes_read)) =
    let body = record (s.m_body) { m_data = some d } in
    (
      true,
      b,
      record s { m_body = body },
      if bytes_read == 0 then none else some (set_body p (some body) bytes_read),
    )

unfoldable pub prepare_buffer :
    MemoryBuffer
    → StreamSender
    → Packet
    → ℕ
    → ℕ
    → Bool × MemoryBuffer × StreamSender × Option Packet
unfolding filled
prepare_buffer b s p bytes_to_send bytes_sent =
    filled b s (prepare_packet s p) (read b s.m_body.m_data bytes_to_send bytes_sent)

-- `processPacket` is the base class's, which does nothing.
unfoldable pub buffer_hooks : Hooks MemoryBuffer
unfolding prepare_buffer
buffer_hooks = record { prepare_packet = prepare_buffer; process_packet = λ b s p. (true, b, s, p) }

abbrev pub beside {ℓ} : {A : Type ℓ} → MemoryBuffer → Option A → Option (MemoryBuffer × A)
beside b none = none
beside b (some s) = some (b, s)

unfoldable pub buffer_sender :
    (ℕ → Bool) → ℕ → ℕ → Option MemoryBuffer → Bool → Option (MemoryBuffer × StreamSender)
unfolding init
buffer_sender malloc id type none callback = none
buffer_sender malloc id type (some b) callback =
    beside b (init malloc (stream_sender id type 0 callback) (size b))

unfoldable pub process_buffer :
    MemoryBuffer → StreamSender → Bool × Option Packet × MemoryBuffer × StreamSender
unfolding process buffer_hooks
process_buffer b s = process buffer_hooks b s
