-- ===== src/Resources/Start.antt =====
-- The first round of a resource's way: `ResourceSender::create` (src/message/resourcesender.cpp) and
-- `ResourceReceiver::create` (src/message/resourcereceiver.cpp) start from the same counter.
use zway_lib.Base.{
  ℕ, ◌+◌, ◌*◌, ◌≡◌, ◌≤◌, ◌<◌, ◌∙◌, ap, Bool, true, false, none, some, List, ◌==◌, arith, min,
  length, take, replicate,
}
use zway_lib.Buffer.{MemoryBuffer, of_bytes, bytes, IsValid}
use zway_lib.Buffer.Laws.{create_null}
use zway_lib.Crypto.Aes.Keys.{set_ctr-set_key}
use zway_lib.Crypto.Aes.{Nettle, IsCounterMode, set_key, set_ctr}
use zway_lib.Packet.{u32, type_resource}
use zway_lib.Stream.Sender.{init}
use zway_lib.Stream.Parts.{chunk}
use zway_lib.Stream.Join.{part_at}
use zway_lib.Transfer.Step.{create_first, zeros}
use zway_lib.Resources.Salt.{counter_of, length-counter_of, resource_salt_lem}
use zway_lib.Resources.Sender.{resource_sender}
use zway_lib.Resources.Receiver.{receive_resource, resource_receiver}
use zway_lib.Resources.Link.{sender_of, receiver_of, accept_resource}
use zway_lib.Resources.Cipher.{context_at, length-whole}
use zway_lib.Resources.Steps.{secret, state_at, sending_at, taking_at}

module _ (N : Nettle) (law : IsCounterMode N) (malloc : ℕ → Bool)
    (memory : (n : ℕ) → malloc n ≡ true) (fresh other : N.Context) (id : ℕ) (id_fits : id < u32)
    (p : List ℕ) (full : 0 < length p) (fits : length p + 65536 ≤ u32) (callback : Bool)
    (key salt : MemoryBuffer) (d : List ℕ) (v : IsValid salt) (e : salt.m_data ≡ some d)
    (sixteen : length d ≡ 16) (whole : length (bytes key) ≡ 32) where
  abbrev counter : MemoryBuffer
  counter = of_bytes (counter_of malloc d sixteen id)

  abbrev pub keyed : N.Context
  keyed = set_ctr N (set_key N fresh (some key)) (some counter)

  context_zero : context_at N law keyed p full 0 ≡ keyed
  unfolding context_at
  context_zero =
      let none_sent : min (length p) (0 * 65536) ≡ 0 = omega arith in
      ap (λ m. (N.ctr_crypt keyed (take m p)).1) none_sent ∙ ap (λ z. z.1) (law.crypt-nil keyed)

  pub sender_of_lem :
      sender_of N malloc fresh
        (record { resource_id = id; m_data = some (of_bytes p) })
        (some key)
        (some salt)
        callback
      ≡ some (
          some (
            state_at N law malloc (memory _) keyed id p full fits callback 0,
            sending_at N law malloc (memory _) keyed id p full fits callback 0 (replicate 65536 0),
          ))
  unfolding sender_of resource_sender init
  sender_of_lem = rw (
    sender_of,
    resource_salt_lem malloc d sixteen salt id (memory 16) v e,
    create_null malloc 65536 (memory 65536),
    some_bytes,
    context_zero,
  )
    where
      some_bytes : (length p == 0) ≡ false
      some_bytes = ground arith

  pub accept_resource_first :
      accept_resource N malloc other
        (some key)
        (some salt)
        callback
        none
        (part_at (secret N law malloc (memory _) keyed id p full fits callback) id type_resource 0)
      ≡ receive_resource N malloc
          (taking_at N law malloc
            (memory _)
            keyed
            id
            p
            full
            fits
            callback
            0
            1
            (zeros malloc p id type_resource memory id_fits (omega arith) full fits))
          (part_at
            (secret N law malloc (memory _) keyed id p full fits callback)
            id
            type_resource
            0)
  unfolding accept_resource receiver_of resource_receiver
  accept_resource_first = rw (
    receiver_of,
    resource_salt_lem malloc d sixteen salt id (memory 16) v e,
    length-whole N law keyed p full,
    create_first malloc p id type_resource memory id_fits (omega arith) full fits callback
        (some (of_bytes (chunk (secret N law malloc (memory _) keyed id p full fits callback) 0))),
    context_zero,
    ← set_ctr-set_key N law other fresh key counter whole (length-counter_of malloc d sixteen id),
  )
