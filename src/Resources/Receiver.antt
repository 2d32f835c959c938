-- ===== src/Resources/Receiver.antt =====
-- `ResourceReceiver` of src/message/resourcereceiver.cpp: a buffer receiver that decrypts each body before it
-- is written.
use zway_lib.Base.{
  ℕ, ◌+◌, ◌%◌, Bool, true, false, not, ◌&&◌, Option, none, some, ltb, ◌==◌, if◌then◌else◌,
}
use zway_lib.Buffer.{MemoryBuffer}
use zway_lib.Packet.{Packet, u32}
use zway_lib.Stream.Receiver.{BufferReceiver, create_receiver, process_packet, processed}
use zway_lib.Crypto.Aes.{Nettle, set_key, set_ctr}
use zway_lib.Resources.{crypt_in_place}

pub record ResourceReceiver (N : Nettle) : Type 0 where
  pub buffered : BufferReceiver
  pub m_aes : N.Context

module _ (N : Nettle) (malloc : ℕ → Bool) where
  abbrev keyed :
      N.Context → MemoryBuffer → MemoryBuffer → Option BufferReceiver → Option (ResourceReceiver N)
  keyed fresh key salt none = none
  keyed fresh key salt (some r) =
      some (record { buffered = r; m_aes = set_ctr N (set_key N fresh (some key)) (some salt) })

  -- `create` with the constructor and `init`; `fresh` is a new AES object.
  unfoldable pub resource_receiver :
      N.Context
      → Packet
      → Option MemoryBuffer
      → Option MemoryBuffer
      → Bool
      → Option (ResourceReceiver N)
  resource_receiver fresh p (some key) (some salt) callback =
      keyed fresh key salt (create_receiver malloc p none callback)
  resource_receiver fresh p key salt callback = none

  abbrev in_buffer :
      ResourceReceiver N → Option (Option BufferReceiver) → Option (Bool × ResourceReceiver N)
  in_buffer r none = none
  in_buffer r (some none) = some (false, r)
  in_buffer r (some (some b)) = some (true, record r { buffered = b })

  abbrev taken_in :
      ResourceReceiver N
      → Packet
      → Bool × N.Context × MemoryBuffer
      → Option (Bool × ResourceReceiver N)
  taken_in r p (false, c, b) = some (false, record r { m_aes = c })
  taken_in r p (true, c, b) =
      in_buffer (record r { m_aes = c }) (process_packet r.buffered (record p { m_body = some b }))

  -- `processPacket`: its result and the receiver as it is left. `none`: the packet has no body, where the
  -- source follows a null pointer.
  unfoldable pub decrypt_packet : ResourceReceiver N → Packet → Option (Bool × ResourceReceiver N)
  decrypt_packet r p =
      if p.m_head.body_size == 0 then in_buffer r (process_packet r.buffered p) else elim p.m_body [
        | none ↦ none
        | some b ↦ taken_in r p (crypt_in_place N malloc r.m_aes b p.m_head.body_size)
      ]

  abbrev settled : ResourceReceiver N → Bool × BufferReceiver → Bool × ResourceReceiver N
  settled r (ok, b) = (ok, record r { buffered = b })

  abbrev after_packet : ℕ → Bool × ResourceReceiver N → Bool × ResourceReceiver N
  after_packet part (ok, r) =
      settled r (processed r.buffered part (if ok then some r.buffered else none))

  -- `StreamReceiver::process` with this class's `processPacket`.
  unfoldable pub receive_resource : ResourceReceiver N → Packet → Option (Bool × ResourceReceiver N)
  unfolding decrypt_packet
  receive_resource r p =
      if ltb 1 p.m_head.part && not (p.m_head.part == (r.buffered.m_part + 1) % u32)
      then some (false, r)
      else elim (decrypt_packet r p) [
        | none ↦ none
        | some result ↦ some (after_packet p.m_head.part result)
      ]
