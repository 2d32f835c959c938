-- ===== src/Packet.antt =====
-- src/packet.cpp (include/Zway/packet.h): one part of a stream.
-- The body is a pointer to a buffer that the sender shares; the model holds the buffer's value at the
-- time. The numbers of the head are `uint32_t`.
use zway_lib.Base.{ℕ, Option, none, some, ◌==◌, if◌then◌else◌}
use zway_lib.Buffer.{MemoryBuffer, Pointer}

abbrev pub max_packet_body : ℕ
max_packet_body = 65536

abbrev pub u32 : ℕ
u32 = 4294967296

-- `enum StreamType`, as the head stores it.
abbrev pub type_undefined : ℕ
type_undefined = 0

abbrev pub type_request : ℕ
type_request = 1

abbrev pub type_resource : ℕ
type_resource = 2

pub record Head : Type 0 where
  pub id : ℕ
  pub stream_id : ℕ
  pub stream_type : ℕ
  pub part : ℕ
  pub parts : ℕ
  pub body_size : ℕ

pub record Packet : Type 0 where
  pub m_head : Head
  pub m_body : Option MemoryBuffer

-- The head is zeroed, and there is no body.
abbrev pub create : ℕ → Packet
create n = record {
  m_head = record { id = n; stream_id = 0; stream_type = 0; part = 0; parts = 0; body_size = 0 };
  m_body = none;
}

abbrev pub set_stream_id : Packet → ℕ → Packet
set_stream_id p n = record p { m_head = record (p.m_head) { stream_id = n } }

abbrev pub set_stream_type : Packet → ℕ → Packet
set_stream_type p n = record p { m_head = record (p.m_head) { stream_type = n } }

abbrev pub set_part : Packet → ℕ → Packet
set_part p n = record p { m_head = record (p.m_head) { part = n } }

abbrev pub set_parts : Packet → ℕ → Packet
set_parts p n = record p { m_head = record (p.m_head) { parts = n } }

-- A size of 0 stands for the whole body's.
abbrev pub set_body : Packet → Option MemoryBuffer → ℕ → Packet
set_body p none n = record p { m_body = none }
set_body p (some b) n = record {
  m_head = record (p.m_head) { body_size = if n == 0 then b.m_size else n };
  m_body = some b;
}

-- `m_body->data()`: `none` is a packet without a body, where the source follows a null pointer.
abbrev pub body_data : Packet → Option Pointer
body_data p = elim p.m_body [ none ↦ none | some b ↦ some b.m_data ]
