-- ===== src/Push/Opens.antt =====
-- A push from one client to another: `PushRequest::init` (src/request/pushrequest.cpp), a server that passes it on, and
-- `Client::processPush` (src/client.cpp); then a resource of it on its way.
use zway_lib.Base.{
  ℕ, ◌≡◌, ◌≢◌, ◌∙◌, refl, true, Option, some, List, length, overwrite, replicate, length-replicate,
  length-overwrite,
}
use zway_lib.Base.Text.{codes}
use zway_lib.Buffer.{MemoryBuffer, bytes, IsValid}
use zway_lib.Crypto.Aes.Keys.{set_ctr-set_key}
use zway_lib.Crypto.Aes.{Nettle, IsCounterMode}
use zway_lib.Push.{
  meta_with, Rsa, IsRandom, IsPair, Message, Pushed, key_entry, init_push, message_row, id_or_new,
  with_ids,
}
use zway_lib.Push.Open.{opened, open_push}
use zway_lib.Store.{Tables, messages}
use zway_lib.Ubj.Format.{Library}
use zway_lib.Ubj.Format.RoundTrip.{IsStorable, tree}
use zway_lib.Ubj.Format.RoundTrip.Whole.{Keeps}
use zway_lib.Ubj.Object.{find, has_field, at_key, set_field}
use zway_lib.Ubj.Object.Laws.{find-set_field}
use zway_lib.Ubj.Key.{cmp}
use zway_lib.Ubj.Value.{
  Runtime, Value, Object, nil, cons, of_array, of_object, of_buffer, to_object,
}
use zway_lib.Push.Sealed.{
  init_push_lem, length-filled, open_push_lem, pushed, sealed_key, new_key, salted_state,
}

-- The request that the server makes of a head for one destination: the salt and the meta data as they
-- are, and the key of the destination's entry.
pub record IsForwarded (rt : Runtime) (head : Object) (dst : ℕ) (request : Object) : Type 0 where
  pub same_salt : find (codes "salt") request ≡ find (codes "salt") head
  pub same_meta : find (codes "meta") request ≡ find (codes "meta") head
  pub own_key :
      (e : MemoryBuffer)
      → find (codes "keys") head ≡ some (of_array (cons (of_object (key_entry rt dst e)) nil))
      → find (codes "key") request ≡ some (of_buffer (some e))

-- The fields of the head.
module _ (keys salt meta : Value) (head : Object) where
  abbrev with_three : Object
  with_three =
      set_field (codes "keys") keys
        (set_field (codes "salt") salt (set_field (codes "meta") meta head))

  find_keys : find (codes "keys") with_three ≡ some keys
  unfolding cmp
  find_keys = rw (find-set_field (codes "keys") (codes "keys"))

  find_salt : find (codes "salt") with_three ≡ some salt
  unfolding cmp
  find_salt =
      rw
        (find-set_field (codes "keys") (codes "salt"), find-set_field (codes "salt") (codes "salt"))

  find_meta : find (codes "meta") with_three ≡ some meta
  unfolding cmp
  find_meta = rw (
    find-set_field (codes "keys") (codes "meta"),
    find-set_field (codes "salt") (codes "meta"),
    find-set_field (codes "meta") (codes "meta"),
  )

-- The key is a valid buffer of 32 bytes.
abbrev pub HasKey : Pushed → Type 0
HasKey p = (k : List ℕ) × (p.m_key.m_data ≡ some k) × IsValid p.m_key × (p.m_key.m_size ≡ 32)

-- The salt is a valid buffer of 16 bytes.
abbrev pub HasSalt : Pushed → Type 0
HasSalt p = (d : List ℕ) × (p.m_salt.m_data ≡ some d) × IsValid p.m_salt × (p.m_salt.m_size ≡ 16)

-- While memory and random bytes last, `init` makes a push of a message to a contact with a public key
-- that RSA encrypts for, if the message's row is inserted. From the request that a server makes of its
-- head for this contact, with the salt and the meta data as they are and the contact's own key,
-- `processPush` under the private key has the push's key of 32 bytes, its salt of 16, and its meta data,
-- whatever ids the resources were given. The meta data are storable, and the library gives back the tree that it
-- was told to write of them. Nothing is known of what the cipher's contexts hold when they are made.
pub push-opens :
    (rt : Runtime) (lib : Library) (N : Nettle) (law : IsCounterMode N) (fresh other : N.Context)
    (R : Rsa) (drawn : IsRandom R) (contact : ℕ → Option Object) (private c : Object) (m : Message)
    (S : Tables) (server : Object → Object) (id : ℕ) (head : Object) (s : R.State) (t : S.State)
    → ((n : ℕ) → rt.malloc n ≡ true)
    → contact m.dst ≡ some c
    → has_field (codes "publicKey") c ≡ true
    → IsPair R (to_object (at_key (codes "publicKey") c)) private
    → ((h : Object) → IsForwarded rt h m.dst (server h))
    → (S.insert t messages (message_row rt (id_or_new R id s).0 m)).0 ≢ 0
    → ((s' : R.State)
        → IsStorable (of_object (meta_with rt m.meta (with_ids R s' m.m_resources).0)))
    → ((s' : R.State)
        → Keeps lib (tree rt (of_object (meta_with rt m.meta (with_ids R s' m.m_resources).0))))
    → (p : Pushed) × ((init_push rt lib N fresh R contact S id head m s t).0 ≡ some p)
      × HasKey p
      × HasSalt p
      × (open_push rt lib N other R private (server p.m_head) ≡ opened p.m_key p.m_salt p.meta_data)
push-opens rt lib N law fresh other R drawn contact private c m S server id head s t memory known
      has_key pair passes stored one keeps =
    (
      p,
      init_push_lem rt lib N law fresh memory R drawn contact private c m known has_key pair S id
          head s t stored,
      (_, refl, refl, key_bytes),
      (salt, refl, refl, sixteen),
      open_push_lem rt lib N law fresh memory other R private (server p.m_head) p.m_key p.m_salt
          (sealed s1).0 p.meta_data ((passes p.m_head).own_key (sealed s1).0 (find_keys _ _ _ _))
          ((passes p.m_head).same_salt ∙ find_salt _ _ _ _)
          ((passes p.m_head).same_meta ∙ find_meta _ _ _ _) (sealed s1).2
          (set_ctr-set_key N law other fresh p.m_key p.m_salt key_bytes sixteen) (one _) (keeps _),
    )
  where
    s1 : R.State
    s1 = (id_or_new R id s).1

    p : Pushed
    p =
        pushed rt lib N law fresh memory R drawn contact private c m known has_key pair
          (id_or_new R id s).0 head s1

    salt : List ℕ
    salt = overwrite (replicate 16 0) 0 (drawn.draws (R.random s1 32).1 12).0

    key_bytes : length (bytes p.m_key) ≡ 32
    key_bytes = length-filled rt lib N law fresh memory R drawn contact s1 32 32

    sixteen : length salt ≡ 16
    sixteen =
        length-overwrite (replicate 16 0) 0 (drawn.draws (R.random s1 32).1 12).0
        ∙ length-replicate {A = ℕ} 16 0

    sealed :
        (s' : R.State)
        → (e : MemoryBuffer) × ((R.encrypt
              (salted_state rt lib N law fresh memory R drawn contact private c m known has_key pair
                s')
              (to_object (at_key (codes "publicKey") c))
              (new_key rt lib N law fresh memory R drawn contact private c m known has_key pair
                s')).0
            ≡ some e)
          × (R.decrypt private e
              ≡ some (
                  new_key rt lib N law fresh memory R drawn contact private c m known has_key pair
                    s'))
    sealed s' =
        sealed_key rt lib N law fresh memory R drawn contact private c m known has_key pair s'
