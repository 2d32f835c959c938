-- ===== src/Resources/Sender.antt =====
-- `ResourceSender` of src/message/resourcesender.cpp: a stream sender that reads its body from a resource and
-- encrypts it.
use zway_lib.Base.{ℕ, Bool, true, false, Option, none, some, ◌==◌, if◌then◌else◌}
use zway_lib.Buffer.{MemoryBuffer}
use zway_lib.Packet.{Packet, type_resource, set_body}
use zway_lib.Stream.Sender.{StreamSender, Hooks, stream_sender, prepare_packet, init, process}
use zway_lib.Crypto.Aes.{Nettle, set_key, set_ctr}
use zway_lib.Resources.{Resource, resource_size, read_resource, crypt_in_place}

-- What the class adds to `StreamSender`.
pub record ResourceState (N : Nettle) : Type 0 where
  pub m_res : Resource
  pub m_aes : N.Context

module _ (N : Nettle) (malloc : ℕ → Bool) where
  abbrev ready :
      N.Context
      → Resource
      → MemoryBuffer
      → MemoryBuffer
      → Option StreamSender
      → Option (ResourceState N × StreamSender)
  ready fresh res key salt none = none
  ready fresh res key salt (some s) = some (
    record { m_res = res; m_aes = set_ctr N (set_key N fresh (some key)) (some salt) },
    record s { m_id = res.resource_id },
  )

  -- `create` with the constructor and `init`; `fresh` is a new AES object.
  unfoldable pub resource_sender :
      N.Context
      → Option Resource
      → Option MemoryBuffer
      → Option MemoryBuffer
      → Bool
      → Option (ResourceState N × StreamSender)
  resource_sender fresh (some res) (some key) (some salt) callback =
      ready fresh res key salt
        (init malloc (stream_sender 0 type_resource 0 callback) (resource_size res))
  resource_sender fresh res key salt callback = none

  abbrev read_into :
      ResourceState N
      → StreamSender
      → Packet
      → ℕ
      → Option MemoryBuffer
      → Bool × ResourceState N × StreamSender × Option Packet
  read_into x s p n none = (false, x, s, some p)
  read_into x s p n (some body) =
      (true, x, record s { m_body = body }, some (set_body p (some body) n))

  -- `preparePacket`
  unfoldable pub prepare_resource :
      ResourceState N
      → StreamSender
      → Packet
      → ℕ
      → ℕ
      → Bool × ResourceState N × StreamSender × Option Packet
  prepare_resource x s p bytes_to_send bytes_sent =
      read_into x s (prepare_packet s p) bytes_to_send
        (read_resource x.m_res s.m_body bytes_to_send bytes_sent)

  abbrev crypted_body :
      ResourceState N
      → StreamSender
      → Packet
      → Bool × N.Context × MemoryBuffer
      → Bool × ResourceState N × StreamSender × Packet
  crypted_body x s p (ok, c, b) =
      (ok, record x { m_aes = c }, record s { m_body = b }, record p { m_body = some b })

  -- `processPacket`: the packet's body is the sender's body buffer, which is encrypted in place. A packet
  -- without a body does not come here, since `preparePacket` sets one.
  unfoldable pub encrypt_packet :
      ResourceState N → StreamSender → Packet → Bool × ResourceState N × StreamSender × Packet
  encrypt_packet x s p =
      if p.m_head.body_size == 0
      then (true, x, s, p)
      else crypted_body x s p (crypt_in_place N malloc x.m_aes s.m_body p.m_head.body_size)

  unfoldable pub resource_hooks : Hooks (ResourceState N)
  unfolding prepare_resource encrypt_packet
  resource_hooks = record { prepare_packet = prepare_resource; process_packet = encrypt_packet }

  unfoldable pub process_resource :
      ResourceState N → StreamSender → Bool × Option Packet × ResourceState N × StreamSender
  unfolding process resource_hooks
  process_resource x s = process resource_hooks x s
