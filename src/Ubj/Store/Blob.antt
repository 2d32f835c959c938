-- ===== src/Ubj/Store/Blob.antt =====
-- Blobs of the store: `Store::Blob` of src/ubj/store/blob.cpp, the actions ReadBlobAction and
-- WriteBlobAction, and the calls of src/ubj/store/store.cpp that make, change and read them.
-- SQLite's tables are an interface: a row has the columns of `createBlobTable`.
pub mod Calls
pub mod Bytes
pub mod Reads
pub mod Kept
pub mod Objects
pub mod Unlock
pub mod Unlocked
pub mod Memory
mod Tests
use mathlib.Core.Logic.{◌≢◌}
use zway_lib.Base.{
  ℕ, ◌+◌, ◌-◌, ◌≡◌, ◌<◌, Bool, true, false, not, Option, none, some, List, if◌then◌else◌, ltb,
  length, take, drop, overwrite,
}
use zway_lib.Buffer.{MemoryBuffer}
use zway_lib.Ubj.Key.{Key}
use zway_lib.Crypto.Aes.{Nettle, set_key, set_ctr, encrypt}

-- `content` is the column `data`, `none` where the column is null.
pub record Row : Type 0 where
  pub mode : Bool
  pub size : ℕ
  pub salt : Option MemoryBuffer
  pub content : Option (List ℕ)

-- `insert` gives the new rowid, or 0. `write` puts a block in the place of a row's data.
-- `random` is the bytes that `Crypto::Random::random` gives, if it does not fail.
pub record Database : Type 1 where
  pub State : Type 0
  pub row : State → Key → ℕ → Option Row
  pub insert : State → Key → Row → ℕ × State
  pub update : State → Key → ℕ → Row → State
  pub remove : State → Key → ℕ → State
  pub write : State → Key → ℕ → List ℕ → State
  pub random : State → ℕ → Option (List ℕ)

abbrev pub HasBytes : Option (List ℕ) → Type 0
HasBytes none = Unit {0}
HasBytes (some d) = 0 < length d

abbrev pub HasBuffer : Option MemoryBuffer → Type 0
HasBuffer none = Unit {0}
HasBuffer (some b) = 0 < b.m_size

-- `Action::bindUbjToStmt` of src/ubj/store/action.cpp leaves out an empty block, and the values behind it
-- move up by one: then another row is stored than the one that was given.
abbrev pub IsBound : Row → Type 0
IsBound r = HasBytes r.content × HasBuffer r.salt

-- What the code relies on: the row that was inserted, updated or written is there as it was given, if
-- no block of it is empty.
pub record IsKept (D : Database) : Type 0 where
  pub row-insert :
      (s : D.State) (t : Key) (r : Row)
      → IsBound r
      → (D.insert s t r).0 ≢ 0
      → D.row (D.insert s t r).1 t (D.insert s t r).0 ≡ some r
  pub row-update :
      (s : D.State) (t : Key) (id : ℕ) (old new : Row)
      → IsBound new
      → D.row s t id ≡ some old
      → D.row (D.update s t id new) t id ≡ some new
  pub row-write :
      (s : D.State) (t : Key) (id : ℕ) (old : Row) (d : List ℕ)
      → D.row s t id ≡ some old
      → D.row (D.write s t id d) t id ≡ some (record old { content = some d })

module _ (D : Database) where
  abbrev pub block_of : Option Row → Option (List ℕ)
  block_of none = none
  block_of (some r) = r.content

  -- `sqlite3_blob_open` fails without a row, or where the column is null.
  abbrev pub blob_data : D.State → Key → ℕ → Option (List ℕ)
  blob_data s t id = block_of (D.row s t id)

  -- `sqlite3_blob_read`, which fails if the bytes are not all there.
  abbrev pub read_block : ℕ → ℕ → Option (List ℕ) → Option (List ℕ)
  read_block n offset none = none
  read_block n offset (some block) =
      if ltb (length block) (offset + n) then none else some (take n (drop offset block))

  -- `sqlite3_blob_write`, which fails if there is no place for the bytes.
  abbrev pub write_block : D.State → Key → ℕ → List ℕ → ℕ → Option (List ℕ) → Bool × D.State
  write_block s t id d offset none = (false, s)
  write_block s t id d offset (some block) =
      if ltb (length block) (offset + length d)
      then (false, s)
      else (true, D.write s t id (overwrite block offset d))

  unfoldable pub blob_write_at : D.State → Key → ℕ → List ℕ → ℕ → Bool × D.State
  blob_write_at s t id d offset = write_block s t id d offset (blob_data s t id)

module _ (N : Nettle) where
  -- The handle is open on the row `m_id` of `m_table`, or closed.
  pub record Blob : Type 0 where
    pub m_table : Key
    pub m_id : ℕ
    pub m_mode : Bool
    pub m_size : ℕ
    pub m_salt : Option MemoryBuffer
    pub m_aes : N.Context
    pub m_blob : Bool

  module _ (D : Database) (malloc : ℕ → Bool) where
    module _ (fresh : N.Context) (m_key : Option MemoryBuffer) where
      abbrev pub started : Key → ℕ → Bool → ℕ → Option MemoryBuffer → Blob
      started t id mode size salt = record {
        m_table = t;
        m_id = id;
        m_mode = mode;
        m_size = size;
        m_salt = salt;
        m_aes = set_key N (set_ctr N fresh salt) m_key;
        m_blob = true;
      }

      abbrev with_block : Option (List ℕ) → Blob → Option Blob
      with_block none b = none
      with_block (some block) b = some b

      abbrev pub opened : Key → ℕ → Option Row → Option Blob
      opened t id none = none
      opened t id (some r) = with_block r.content (started t id r.mode r.size r.salt)

      -- `Blob::open` with `meta`, which takes mode, size and salt from the row; without it they are
      -- arguments.
      unfoldable pub open_meta : D.State → Key → ℕ → Option Blob
      open_meta s t id = opened t id (D.row s t id)

      unfoldable pub open_as : D.State → Key → ℕ → Bool → ℕ → Option MemoryBuffer → Option Blob
      open_as s t id mode size salt = with_block (blob_data D s t id) (started t id mode size salt)

      -- What `decrypt` in place leaves in the bytes that were read.
      abbrev pub decrypted :
          Blob → Option (Bool × N.Context × List ℕ × Unit {0}) → Option (List ℕ) × Blob
      decrypted b none = (none, b)
      decrypted b (some (true, c, out, _)) = (some out, record b { m_aes = c })
      decrypted b (some (false, c, out, _)) = (none, record b { m_aes = c })

      abbrev pub read_bytes : Blob → Option (List ℕ) → Option (List ℕ) × Blob
      read_bytes b none = (none, b)
      read_bytes b (some d) =
          if b.m_mode
          then decrypted b (encrypt N Unit malloc true none b.m_aes d tt)
          else (some d, b)

      -- `Blob::read` of `n` bytes: `none` is false.
      unfoldable pub blob_read : D.State → Blob → ℕ → ℕ → Option (List ℕ) × Blob
      blob_read s b n offset =
          if b.m_blob
          then read_bytes b (read_block D n offset (blob_data D s b.m_table b.m_id))
          else (none, b)

      abbrev pub encrypted :
          Blob → D.State → Option (Bool × N.Context × List ℕ × D.State) → Bool × D.State × Blob
      encrypted b s none = (false, s, b)
      encrypted b s (some (ok, c, out, t)) = (ok, t, record b { m_aes = c })

      abbrev pub plain : Blob → Bool × D.State → Bool × D.State × Blob
      plain b (ok, s) = (ok, s, b)

      -- `Blob::write`: encrypted, it goes to the block chunk by chunk.
      unfoldable pub blob_write : D.State → Blob → List ℕ → ℕ → Bool × D.State × Blob
      blob_write s b d offset =
          if not b.m_blob
          then (false, s, b)
          else if b.m_mode
          then encrypted b s (
              encrypt N D.State malloc false
                (some
                  (λ t e total. blob_write_at D t b.m_table b.m_id e (offset + total - length e)))
                b.m_aes d s)
          else plain b (blob_write_at D s b.m_table b.m_id d offset)

      unfoldable pub blob_close : Blob → Bool × Blob
      blob_close b = if b.m_blob then (true, record b { m_blob = false }) else (false, b)
