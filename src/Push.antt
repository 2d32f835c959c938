-- ===== src/Push.antt =====
-- `PushRequest::init` of src/request/pushrequest.cpp: a message's key and salt, the key for the contact it goes
-- to, and its meta data, encrypted.
-- RSA and the random numbers are the nettle library's: parameters, like the cipher.

pub mod Open
pub mod Sealed
pub mod Opens
pub mod Deliver
mod Tests
use zway_lib.Base.{
  ℕ, ◌≡◌, Bool, true, false, Option, none, some, List, [], ◌∷◌, ltb, ◌==◌, if◌then◌else◌, length,
  overwrite,
}
use zway_lib.Base.Text.{codes}
use zway_lib.Buffer.{MemoryBuffer, IsValid, create}
use zway_lib.Crypto.Aes.{Nettle, set_key, set_ctr}
use zway_lib.Resources.{Resource, resource_size, crypt_in_place}
use zway_lib.Store.{Tables, messages}
use zway_lib.Ubj.Format.{Library}
use zway_lib.Ubj.Format.Writer.{write}
use zway_lib.Ubj.Key.{Key}
use zway_lib.Ubj.Object.{set_field, has_field, at_key}
use zway_lib.Ubj.Value.{
  Runtime, Object, end, Array, nil, cons, of_object, of_array, of_buffer, to_object,
}
use zway_lib.Ubj.Value.Convert.{of_uint, of_string}
use zway_lib.Wire.{u32_of_bytes}

pub record Rsa : Type 1 where
  -- The random generator's.
  pub State : Type 0
  -- The bytes that `Random::random` makes, if it does not fail.
  pub random : State → ℕ → Option (List ℕ) × State
  -- What an `uint32_t` on the stack holds that nothing has set.
  pub leftover : State → ℕ
  pub encrypt : State → Object → MemoryBuffer → Option MemoryBuffer × State
  pub decrypt : Object → MemoryBuffer → Option MemoryBuffer

-- What the code relies on: there are random bytes, as many as were asked for.
pub record IsRandom (R : Rsa) : Type 0 where
  pub draws : (s : R.State) (n : ℕ) → (l : List ℕ) × ((R.random s n).0 ≡ some l) × (length l ≡ n)

-- A message key is encrypted for a public key, and the private key gives it back.
pub record IsPair (R : Rsa) (public private : Object) : Type 0 where
  pub encrypts :
      (s : R.State) (b : MemoryBuffer)
      → IsValid b
      → b.m_size ≡ 32
      → (e : MemoryBuffer) × ((R.encrypt s public b).0 ≡ some e) × (R.decrypt private e ≡ some b)

-- A resource of a message.
pub record Attachment : Type 0 where
  pub resource : Resource
  pub name : Key
  pub hash : Key
  pub m_parts : ℕ

pub record Message : Type 0 where
  pub src : ℕ
  pub dst : ℕ
  pub history : ℕ
  pub text : Key
  pub meta : Object
  pub m_resources : List Attachment

-- The `PushRequest` that `init` leaves, with the object whose bytes the meta buffer holds.
pub record Pushed : Type 0 where
  pub m_id : ℕ
  pub m_key : MemoryBuffer
  pub m_salt : MemoryBuffer
  pub m_head : Object
  pub attached : List Attachment
  pub meta_data : Object

abbrev pub outgoing : ℕ
outgoing = 2

module _ (R : Rsa) where
  abbrev drawn_id : Option (List ℕ) × R.State → ℕ × R.State
  drawn_id (some (a ∷ b ∷ c ∷ d ∷ []), s) = (u32_of_bytes a b c d, s)
  drawn_id (l, s) = (R.leftover s, s)

  -- `Crypto::mkId`, whose four bytes are low byte first. It does not look at what `random` returns.
  unfoldable pub mk_id : R.State → ℕ × R.State
  mk_id s = drawn_id (R.random s 4)

  abbrev pub id_or_new : ℕ → R.State → ℕ × R.State
  id_or_new id s = if id == 0 then mk_id s else (id, s)

  -- The resources with their ids.
  unfoldable pub with_ids : R.State → List Attachment → List Attachment × R.State
  unfolding mk_id
  with_ids s [] = ([], s)
  with_ids s (a ∷ l) =
      let (id, s1) = id_or_new a.resource.resource_id s in
      let (rest, s2) = with_ids s1 l in
      (record a { resource = record (a.resource) { resource_id = id } } ∷ rest, s2)

  abbrev fill_front :
      Option MemoryBuffer → Option (List ℕ) × R.State → Option MemoryBuffer × R.State
  fill_front none (l, s) = (none, s)
  fill_front (some b) (none, s) = (none, s)
  fill_front (some b) (some l, s) = (
    some (record b { m_data = elim b.m_data [ none ↦ none | some d ↦ some (overwrite d 0 l) ] }),
    s,
  )

  -- A buffer of `size` bytes, the first `n` of them random.
  unfoldable pub random_buffer : (ℕ → Bool) → ℕ → ℕ → R.State → Option MemoryBuffer × R.State
  random_buffer malloc size n s = elim (create malloc none size) [
    | none ↦ (none, s)
    | some b ↦ fill_front (some b) (R.random s n)
  ]

module _ (N : Nettle) (fresh : N.Context) where
  -- The context of a new AES object with the key and the salt.
  abbrev pub message_context : MemoryBuffer → MemoryBuffer → N.Context
  message_context key salt = set_ctr N (set_key N fresh (some key)) (some salt)

module _ (rt : Runtime) where
  -- The fields of a resource in the head of the request, and in its meta data. An empty one has none.
  unfoldable pub resource_entries : List Attachment → Array
  resource_entries [] = nil
  resource_entries (a ∷ l) =
      let rest = resource_entries l in
      let entry =
        set_field (codes "parts") (of_uint rt a.m_parts)
          (set_field (codes "id") (of_uint rt a.resource.resource_id) end) in
      if ltb 0 (resource_size a.resource) then cons (of_object entry) rest else rest

  unfoldable pub meta_entries : List Attachment → Array
  meta_entries [] = nil
  meta_entries (a ∷ l) =
      let rest = meta_entries l in
      let entry = set_field (codes "hash") (of_string rt a.hash) (
        set_field (codes "size") (of_uint rt (resource_size a.resource)) (
          set_field (codes "name") (of_string rt a.name)
            (set_field (codes "id") (of_uint rt a.resource.resource_id) end))) in
      if ltb 0 (resource_size a.resource) then cons (of_object entry) rest else rest

  -- The meta data: the message's, with its resources.
  abbrev pub meta_with : Object → List Attachment → Object
  meta_with meta l = set_field (codes "resources") (of_array (meta_entries l)) meta

  abbrev pub key_entry : ℕ → MemoryBuffer → Object
  key_entry dst e =
      set_field (codes "key") (of_buffer (some e)) (set_field (codes "dst") (of_uint rt dst) end)

  -- The row of the message.
  abbrev pub message_row : ℕ → Message → Object
  message_row id m = set_field (codes "text") (of_string rt m.text) (
      set_field (codes "status") (of_uint rt outgoing) (
        set_field (codes "history") (of_uint rt m.history) (
          set_field (codes "dst") (of_uint rt m.dst) (
            set_field (codes "src") (of_uint rt m.src)
              (set_field (codes "id") (of_uint rt id) end)))))

  -- `contact` is what the query of the table `contacts` finds under an id.
  module _ (lib : Library) (N : Nettle) (fresh : N.Context) (R : Rsa)
      (contact : ℕ → Option Object) where
    abbrev entry_for : ℕ → Option MemoryBuffer × R.State → Option Array × R.State
    entry_for dst (none, s) = (none, s)
    entry_for dst (some e, s) = (some (cons (of_object (key_entry dst e)) nil), s)

    -- The keys for the contacts. A destination that is not a contact has none.
    unfoldable pub key_entries : ℕ → MemoryBuffer → R.State → Option Array × R.State
    key_entries dst key s = elim (contact dst) [
      | none ↦ (some nil, s)
      | some c ↦
          if has_field (codes "publicKey") c
          then entry_for dst (R.encrypt s (to_object (at_key (codes "publicKey") c)) key)
          else (none, s)
    ]

    abbrev pub head_of : Object → MemoryBuffer → List Attachment → Array → MemoryBuffer → Object
    head_of head salt l keys meta = set_field (codes "keys") (of_array keys) (
        set_field (codes "salt") (of_buffer (some salt)) (
          set_field (codes "meta") (of_buffer (some meta))
            (set_field (codes "resources") (of_array (resource_entries l)) head)))

    abbrev encrypted :
        ℕ
        → Object
        → MemoryBuffer
        → MemoryBuffer
        → Array
        → List Attachment
        → Object
        → Bool × N.Context × MemoryBuffer
        → Option Pushed
    encrypted id head key salt keys l meta (false, c, b) = none
    encrypted id head key salt keys l meta (true, c, b) = some (record {
      m_id = id;
      m_key = key;
      m_salt = salt;
      m_head = head_of head salt l keys b;
      attached = l;
      meta_data = meta;
    })

    unfoldable pub seal :
        ℕ → Object → MemoryBuffer → MemoryBuffer → Array → List Attachment → Object → Option Pushed
    seal id head key salt keys l meta = elim (write rt lib (of_object meta)) [
      | none ↦ none
      | some b ↦
          encrypted id head key salt keys l meta
            (crypt_in_place N rt.malloc (message_context N fresh key salt) b b.m_size)
    ]

    abbrev sealed_with :
        ℕ
        → Object
        → Message
        → MemoryBuffer
        → MemoryBuffer
        → Array
        → List Attachment × R.State
        → Option Pushed × R.State
    sealed_with id head m key salt keys (l, s) =
        (seal id head key salt keys l (meta_with m.meta l), s)

    abbrev with_keys :
        ℕ
        → Object
        → Message
        → MemoryBuffer
        → MemoryBuffer
        → Option Array × R.State
        → Option Pushed × R.State
    with_keys id head m key salt (none, s) = (none, s)
    with_keys id head m key salt (some keys, s) =
        sealed_with id head m key salt keys (with_ids R s m.m_resources)

    abbrev with_salt :
        ℕ
        → Object
        → Message
        → MemoryBuffer
        → Option MemoryBuffer × R.State
        → Option Pushed × R.State
    with_salt id head m key (none, s) = (none, s)
    with_salt id head m key (some salt, s) = with_keys id head m key salt (key_entries m.dst key s)

    abbrev with_key : ℕ → Object → Message → Option MemoryBuffer × R.State → Option Pushed × R.State
    with_key id head m (none, s) = (none, s)
    with_key id head m (some key, s) = with_salt id head m key (random_buffer R rt.malloc 16 12 s)

    abbrev with_id : Object → Message → ℕ × R.State → Option Pushed × R.State
    with_id head m (id, s) = with_key id head m (random_buffer R rt.malloc 32 32 s)

    -- `init` up to the encrypted meta data; `none` is false.
    unfoldable pub prepare_push : ℕ → Object → Message → R.State → Option Pushed × R.State
    unfolding with_ids key_entries seal random_buffer
    prepare_push id head m s = with_id head m (id_or_new R id s)

    module _ (S : Tables) where
      abbrev if_inserted : Pushed → R.State → ℕ × S.State → Option Pushed × R.State × S.State
      if_inserted p s (n, t) = (if n == 0 then none else some p, s, t)

      abbrev insert_message :
          Message → S.State → Option Pushed × R.State → Option Pushed × R.State × S.State
      insert_message m t (none, s) = (none, s, t)
      insert_message m t (some p, s) = if_inserted p s (S.insert t messages (message_row p.m_id m))

      -- The whole of `init`, with the message's row.
      unfoldable pub init_push :
          ℕ → Object → Message → R.State → S.State → Option Pushed × R.State × S.State
      init_push id head m s t = insert_message m t (prepare_push id head m s)
