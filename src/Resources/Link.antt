-- ===== src/Resources/Link.antt =====
-- How a resource's sender and receiver come about: in `PushRequest::pushResources`
-- (src/request/pushrequest.cpp), and in `Client::createStreamReceiver` (src/client.cpp), which finds the key and
-- the salt in the request that the resource belongs to.
use zway_lib.Base.{ℕ, Bool, Option, none, some}
use zway_lib.Buffer.{MemoryBuffer}
use zway_lib.Packet.{Packet}
use zway_lib.Stream.Sender.{StreamSender}
use zway_lib.Crypto.Aes.{Nettle}
use zway_lib.Resources.{Resource}
use zway_lib.Resources.Salt.{resource_salt}
use zway_lib.Resources.Sender.{ResourceState, resource_sender}
use zway_lib.Resources.Receiver.{ResourceReceiver, resource_receiver, receive_resource}

module _ (N : Nettle) (malloc : ℕ → Bool) (fresh : N.Context) where
  -- In both the outer `none` is the salt that is too short.
  unfoldable pub sender_of :
      Resource
      → Option MemoryBuffer
      → Option MemoryBuffer
      → Bool
      → Option (Option (ResourceState N × StreamSender))
  sender_of res key salt callback = elim (resource_salt malloc salt res.resource_id) [
    | none ↦ none
    | some counter ↦ some (resource_sender N malloc fresh (some res) key counter callback)
  ]

  unfoldable pub receiver_of :
      Packet
      → Option MemoryBuffer
      → Option MemoryBuffer
      → Bool
      → Option (Option (ResourceReceiver N))
  receiver_of p key salt callback = elim (resource_salt malloc salt p.m_head.stream_id) [
    | none ↦ none
    | some counter ↦ some (resource_receiver N malloc fresh p key counter callback)
  ]

  abbrev first : Packet → Option (Option (ResourceReceiver N)) → Option (Bool × ResourceReceiver N)
  first p none = none
  first p (some none) = none
  first p (some (some r)) = receive_resource N malloc r p

  -- What the receiving end does with a packet of a resource: the first makes the receiver.
  unfoldable pub accept_resource :
      Option MemoryBuffer
      → Option MemoryBuffer
      → Bool
      → Option (ResourceReceiver N)
      → Packet
      → Option (Bool × ResourceReceiver N)
  accept_resource key salt callback none p = first p (receiver_of p key salt callback)
  accept_resource key salt callback (some r) p = receive_resource N malloc r p
