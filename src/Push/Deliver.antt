-- ===== src/Push/Deliver.antt =====
-- A resource of a push, from `PushRequest` (src/request/pushrequest.cpp) to the receiver that
-- `Client::createStreamReceiver` (src/client.cpp) makes with what `Client::processPush` kept of the push.
use zway_lib.Base.{ℕ, ◌≡◌, ◌≢◌, ◌≤◌, ◌<◌, ◌+◌, Bool, true, some, none, Option, List}
use zway_lib.Base.Text.{codes}
use zway_lib.Buffer.{MemoryBuffer, IsValid}
use zway_lib.Crypto.Aes.{Nettle, IsCounterMode}
use zway_lib.Packet.{u32}
use zway_lib.Push.{
  Rsa, IsRandom, IsPair, Message, Pushed, init_push, meta_with, with_ids, message_row, id_or_new,
}
use zway_lib.Push.Open.{Opened, open_push}
use zway_lib.Push.Opens.{IsForwarded, push-opens}
use zway_lib.Resources.Arrive.{Arrives, resource-Arrives}
use zway_lib.Resources.Link.{sender_of, accept_resource}
use zway_lib.Resources.Sender.{ResourceState, process_resource}
use zway_lib.Store.{Tables, messages}
use zway_lib.Stream.Sender.{StreamSender, parts_of}
use zway_lib.Transfer.{exchange}
use zway_lib.Ubj.Format.{Library}
use zway_lib.Ubj.Format.RoundTrip.{IsStorable, tree}
use zway_lib.Ubj.Format.RoundTrip.Whole.{Keeps}
use zway_lib.Ubj.Object.{has_field, at_key}
use zway_lib.Ubj.Value.{Runtime, Object, of_object, to_object}

-- The key and the salt that a push was opened with.
abbrev pub opened_key : Opened → Option MemoryBuffer
opened_key (Opened.opened key salt meta) = some key
opened_key _ = none

abbrev pub opened_salt : Opened → Option MemoryBuffer
opened_salt (Opened.opened key salt meta) = some salt
opened_salt _ = none

-- While memory and random bytes last, `init` makes a push of a message to a contact with a public key
-- that RSA encrypts for, if the message's row is inserted, and a resource of at least one byte, and
-- at most 2 ^ 32 - 65536 of them, whose number is below 2 ^ 32, arrives whole under it: the sender
-- has the key and the salt of the push, the receiver has those that `processPush` under the private
-- key finds in the request that a server makes of the push's head, with the salt and the meta data as
-- they are and the contact's own key, and there is at least a round for each part. Both ends
-- complete, and the receiver holds the bytes in order. The meta data are storable, and the library
-- gives back the tree that it was told to write of them. Nothing is known of what the cipher's contexts
-- hold when they are made.
pub push-Arrives :
    (rt : Runtime) (lib : Library) (N : Nettle) (law : IsCounterMode N)
    (fresh other sending receiving : N.Context) (R : Rsa) (drawn : IsRandom R)
    (contact : ℕ → Option Object) (private c : Object) (m : Message) (S : Tables)
    (server : Object → Object) (id : ℕ) (head : Object) (s : R.State) (t : S.State) (number : ℕ)
    (b : MemoryBuffer) (q : List ℕ) (callback : Bool) (fuel : ℕ)
    → ((n : ℕ) → rt.malloc n ≡ true)
    → contact m.dst ≡ some c
    → has_field (codes "publicKey") c ≡ true
    → IsPair R (to_object (at_key (codes "publicKey") c)) private
    → ((h : Object) → IsForwarded rt h m.dst (server h))
    → (S.insert t messages (message_row rt (id_or_new R id s).0 m)).0 ≢ 0
    → ((s' : R.State)
        → IsStorable (of_object (meta_with rt m.meta (with_ids R s' m.m_resources).0)))
    → ((s' : R.State)
        → Keeps lib (tree rt (of_object (meta_with rt m.meta (with_ids R s' m.m_resources).0))))
    → number < u32
    → IsValid b
    → b.m_data ≡ some q
    → 0 < b.m_size
    → b.m_size + 65536 ≤ u32
    → parts_of b.m_size ≤ fuel
    → (p : Pushed) × ((init_push rt lib N fresh R contact S id head m s t).0 ≡ some p)
      × (let request = open_push rt lib N other R private (server p.m_head) in
          (x : ResourceState N) × (z : StreamSender) × (sender_of N rt.malloc sending
              (record { resource_id = number; m_data = some b })
              (some p.m_key)
              (some p.m_salt)
              callback
            ≡ some (some (x, z)))
          × Arrives N q callback (
              exchange rt.malloc
                (λ x' z'. process_resource N rt.malloc x' z')
                (λ r' p'.
                  accept_resource N rt.malloc receiving
                    (opened_key request)
                    (opened_salt request)
                    callback
                    r'
                    p')
                fuel
                x
                z
                none))
push-Arrives rt lib N law fresh other sending receiving R drawn contact private c m S server id head
      s t number b q callback fuel memory known has_key pair passes stored one keeps fits v e full
      bound enough =
    let r =
      push-opens rt lib N law fresh other R drawn contact private c m S server id head s t memory
        known has_key pair passes stored one keeps in
    let key = r.2 in
    let salt = r.3 in
    (
      r.0,
      r.1,
      rw (r.4) (
          resource-Arrives N law rt.malloc sending receiving number b r.0.m_key r.0.m_salt q key.0
            salt.0 callback fuel memory fits v e full bound key.2 key.1 key.3 salt.2 salt.1 salt.3
            enough),
    )
