-- ===== src/Ubj/Store/Blob/Unlock.antt =====
-- The key of a store: `Store::init` and `Store::open` of src/ubj/store/store.cpp keep it in the blob of
-- the root, encrypted by a key derived from the password. The derivation is the nettle library's.
use zway_lib.Base.{
  ℕ, Bool, true, false, not, ◌||◌, Option, none, some, List, [], ◌∷◌, if◌then◌else◌, ◌==◌, take,
  overwrite,
}
use zway_lib.Base.Text.{codes}
use zway_lib.Buffer.{MemoryBuffer, bytes, of_bytes}
use zway_lib.Ubj.Key.{Key, same_key}
use zway_lib.Ubj.Value.{Runtime, Object, end, field, of_buffer, buffer, buffer_size}
use zway_lib.Ubj.Object.{has_field, at_key}
use zway_lib.Ubj.Format.{Library}
use zway_lib.Crypto.Aes.{Nettle, Crypted, set_key, set_ctr, encrypt}
use zway_lib.Ubj.Store.Blob.{Database}
use zway_lib.Ubj.Store.Blob.Objects.{create_object, get_object}

abbrev pub main_table : Key
main_table = codes "__main"

abbrev pub root_node_id : ℕ
root_node_id = 2

abbrev zero_counter : List ℕ
zero_counter = 0 ∷ 0 ∷ 0 ∷ 0 ∷ 0 ∷ 0 ∷ 0 ∷ 0 ∷ 0 ∷ 0 ∷ 0 ∷ 0 ∷ 0 ∷ 0 ∷ 0 ∷ 0 ∷ []

-- The object that `init` stores.
abbrev pub root_object : List ℕ → List ℕ → List ℕ → Object
root_object key pwd salt = field (codes "key") (of_buffer (some (of_bytes key))) (
    field (codes "pwd") (of_buffer (some (of_bytes pwd)))
      (field (codes "salt") (of_buffer (some (of_bytes salt))) end))

-- `memcmp` of 32 bytes.
abbrev pub checked : List ℕ → List ℕ → List ℕ → Option MemoryBuffer
checked derived key tmp =
    if same_key (take 32 tmp) (take 32 derived) then some (of_bytes key) else none

module _ (N : Nettle) (malloc : ℕ → Bool) (pbkdf2 : List ℕ → List ℕ → List ℕ)
    (fresh : N.Context) where
  abbrev pub password_context : List ℕ → N.Context
  password_context pwd =
      set_key N (set_ctr N fresh (some (of_bytes zero_counter))) (some (of_bytes pwd))

  -- `encrypt` or `decrypt` of 32 bytes in place: what they are afterwards, and the context. The result
  -- is not looked at.
  abbrev pub in_place : N.Context → List ℕ → Option (Crypted N Unit) → List ℕ × N.Context
  in_place c l none = (l, c)
  in_place c l (some (ok, c', out, _)) = (overwrite l 0 out, c')

  abbrev pub crypt_32 : N.Context → List ℕ → List ℕ × N.Context
  crypt_32 c l = in_place c l (encrypt N Unit malloc true none c (take 32 l) tt)

  -- What `init` stores of a random salt and a random key.
  unfoldable pub root_of : List ℕ → List ℕ → List ℕ → Object
  root_of password salt key =
      let pwd = pbkdf2 password salt in
      let k = crypt_32 (password_context pwd) key in
      let p = crypt_32 k.1 pwd in root_object k.0 p.0 salt

  -- With the buffers of the root.
  abbrev pub verified : List ℕ → List ℕ → List ℕ → List ℕ → Option MemoryBuffer
  verified password key pwd salt =
      let derived = pbkdf2 password salt in
      let k = crypt_32 (password_context derived) key in checked derived k.0 (crypt_32 k.1 pwd).0

  abbrev pub with_buffers :
      List ℕ → Option MemoryBuffer → Option MemoryBuffer → Option MemoryBuffer → Option MemoryBuffer
  with_buffers password (some key) (some pwd) (some salt) =
      verified password (bytes key) (bytes pwd) (bytes salt)
  with_buffers password key pwd salt = none

  abbrev pub lacks : Key → Object → Bool
  lacks k o = not (has_field k o) || (buffer_size (at_key k o) == 0)

  -- The key that `open` takes from the root: `none` where it returns false, and where the root has no
  -- salt, where the source uses a null pointer.
  unfoldable pub key_of : List ℕ → Object → Option MemoryBuffer
  key_of password root =
      if lacks (codes "key") root || lacks (codes "pwd") root
      then none
      else with_buffers password (buffer (at_key (codes "key") root))
          (buffer (at_key (codes "pwd") root)) (buffer (at_key (codes "salt") root))

module _ (rt : Runtime) (lib : Library) (N : Nettle) (D : Database)
    (pbkdf2 : List ℕ → List ℕ → List ℕ) (fresh : N.Context) where
  -- The part of `init` that stores the root, in the plain.
  unfoldable pub store_root : D.State → List ℕ → List ℕ → List ℕ → ℕ × D.State
  store_root s password salt key =
      create_object rt lib N D fresh none s main_table
        (root_of N rt.malloc pbkdf2 fresh password salt key) false

  abbrev pub key_in : List ℕ → Option Object → Option MemoryBuffer
  key_in password none = none
  key_in password (some root) = key_of N rt.malloc pbkdf2 fresh password root

  -- The part of `open` that takes the key from the root.
  unfoldable pub load_key : D.State → List ℕ → Option MemoryBuffer
  load_key s password = key_in password (get_object rt lib N D fresh none s main_table root_node_id)
