-- ===== src/Resources.antt =====
-- The resources of messages on their way: src/message/resource.cpp, src/message/resourcesender.cpp,
-- src/message/resourcereceiver.cpp, and `PushRequest::resourceSalt` of src/request/pushrequest.cpp, with
-- the cipher of `Crypto.Aes`.
pub mod Salt
pub mod Sender
pub mod Receiver
pub mod Cipher
pub mod Steps
pub mod Link
pub mod Start
pub mod Arrive
mod Tests
use zway_lib.Base.{
  ℕ, Bool, true, false, Option, none, some, List, take, overwrite, ltb, ◌==◌, if◌then◌else◌,
}
use zway_lib.Buffer.{MemoryBuffer, Pointer, bytes, read}
use zway_lib.Crypto.Aes.{Nettle, Crypted, encrypt}

-- `Resource`: the field `id`, and the bytes if there are any.
pub record Resource : Type 0 where
  pub resource_id : ℕ
  pub m_data : Option MemoryBuffer

abbrev pub resource_size : Resource → ℕ
resource_size r = elim r.m_data [ none ↦ 0 | some b ↦ b.m_size ]

abbrev filled_buffer : MemoryBuffer → Option (List ℕ × ℕ) → Option MemoryBuffer
filled_buffer buf none = none
filled_buffer buf (some (d, bytes_read)) = some (record buf { m_data = some d })

-- `Resource::read` into `buf`, with the buffer as it is left. A size of 0 stands for the buffer's.
unfoldable pub read_resource : Resource → MemoryBuffer → ℕ → ℕ → Option MemoryBuffer
read_resource r buf n offset = elim r.m_data [
  | none ↦ none
  | some block ↦
      if ltb buf.m_size n
      then none
      else filled_buffer buf (read block buf.m_data (if n == 0 then buf.m_size else n) offset)
]

module _ (N : Nettle) where
  abbrev overwritten : Pointer → List ℕ → Pointer
  overwritten none out = none
  overwritten (some d) out = some (overwrite d 0 out)

  abbrev crypted_in :
      N.Context → MemoryBuffer → Option (Crypted N Unit) → Bool × N.Context × MemoryBuffer
  crypted_in c b none = (false, c, b)
  crypted_in c b (some (ok, c', out, st)) = (ok, c', record b { m_data = overwritten b.m_data out })

  -- `encrypt` or `decrypt` of the first `n` bytes of a buffer in place: the result, the context behind,
  -- and the buffer.
  unfoldable pub crypt_in_place :
      (ℕ → Bool) → N.Context → MemoryBuffer → ℕ → Bool × N.Context × MemoryBuffer
  crypt_in_place malloc c b n =
      crypted_in c b (encrypt N Unit malloc true none c (take n (bytes b)) tt)
