-- ===== src/Ubj/Store/Blob/Calls.antt =====
-- The calls of src/ubj/store/store.cpp on whole blobs.
use zway_lib.Base.{
  ℕ, ◌%◌, Bool, true, false, not, ◌&&◌, Option, none, some, List, if◌then◌else◌, ◌==◌, replicate,
  overwrite,
}
use zway_lib.Buffer.{MemoryBuffer, create, bytes, of_bytes}
use zway_lib.Ubj.Key.{Key}
use zway_lib.Ubj.Value.Convert.{two32}
use zway_lib.Crypto.Aes.{Nettle}
use zway_lib.Ubj.Store.Blob.{Row, Database, Blob, open_meta, blob_read, blob_write}

-- A salt: 16 bytes, of which the last 4 stay 0. Memory for them is taken to be there.
abbrev pub salt_of : List ℕ → MemoryBuffer
salt_of r = of_bytes (overwrite (replicate 16 0) 0 r)

abbrev pub stored : Option MemoryBuffer → Bool → Option (List ℕ)
stored none encrypt = none
stored (some d) true = none
stored (some d) false = some (bytes d)

abbrev pub size_of : Option MemoryBuffer → ℕ
size_of none = 0
size_of (some d) = d.m_size

abbrev pub is_null : Option MemoryBuffer → Bool
is_null none = true
is_null (some d) = false

-- The row that `createBlob` inserts. Where the data are an empty block, this is what it asks for, and not
-- what is stored.
abbrev pub first_row : Option MemoryBuffer → Bool → Row
first_row d encrypt = record {
  mode = encrypt;
  size = size_of d;
  salt = none;
  content = stored d encrypt;
}

abbrev pub plain_row : MemoryBuffer → Row
plain_row d = record { mode = false; size = d.m_size; salt = none; content = some (bytes d) }

-- The buffer keeps its zeros when the blob cannot be read.
abbrev pub read_into : MemoryBuffer → Option (List ℕ) → MemoryBuffer
read_into buf none = buf
read_into buf (some d) = record buf { m_data = some (overwrite (bytes buf) 0 d) }

module _ (N : Nettle) (D : Database) (malloc : ℕ → Bool) (fresh : N.Context)
    (m_key : Option MemoryBuffer) where
  -- The action of `writeBlob`, whose callback writes the whole of the data and ignores a failure.
  abbrev pub write_opened : D.State → List ℕ → Option (Blob N) → D.State
  write_opened s d none = s
  write_opened s d (some b) = (blob_write N D malloc fresh m_key s b d 0).1

  abbrev pub encrypt_into : D.State → Key → ℕ → MemoryBuffer → Option (List ℕ) → ℕ × D.State
  encrypt_into s t id d none = (0, s)
  encrypt_into s t id d (some r) =
      let zeros : Row = record {
        mode = true;
        size = d.m_size;
        salt = some (salt_of r);
        content = some (replicate d.m_size 0);
      } in
      let s' = D.update s t id zeros in
      (id % two32, write_opened s' (bytes d) (open_meta N D malloc fresh m_key s' t id))

  -- `updateBlobData`, whose result is the id cut to 32 bits.
  unfoldable pub update_blob_data : D.State → Key → ℕ → Option MemoryBuffer → Bool → ℕ × D.State
  update_blob_data s t id none encrypt = (0, s)
  update_blob_data s t id (some d) true = encrypt_into s t id d (D.random s 12)
  update_blob_data s t id (some d) false = (id % two32, D.update s t id (plain_row d))

  abbrev pub unless_failed : Key → ℕ → ℕ × D.State → ℕ × D.State
  unless_failed t id (n, s) = if n == 0 then (0, D.remove s t id) else (id, s)

  -- Behind the insertion of a row.
  abbrev pub fill_blob : Key → Option MemoryBuffer → Bool → ℕ × D.State → ℕ × D.State
  fill_blob t d encrypt (id, s) =
      if id == 0
      then (0, s)
      else if not (is_null d) && encrypt
      then unless_failed t id (update_blob_data s t id d encrypt)
      else (id, s)

  -- `createBlob` from a buffer.
  unfoldable pub create_blob : D.State → Key → Option MemoryBuffer → Bool → ℕ × D.State
  unfolding update_blob_data
  create_blob s t d encrypt = fill_blob t d encrypt (D.insert s t (first_row d encrypt))

  abbrev insert_zeros : D.State → Key → ℕ → Bool → Option MemoryBuffer → ℕ × D.State
  insert_zeros s t size encrypt salt =
      let row : Row = record {
        mode = encrypt;
        size = size;
        salt = salt;
        content = some (replicate size 0);
      } in
      D.insert s t row

  abbrev with_salt : D.State → Key → ℕ → Option (List ℕ) → ℕ × D.State
  with_salt s t size none = (0, s)
  with_salt s t size (some r) = insert_zeros s t size true (some (salt_of r))

  -- `createBlob` of a size.
  unfoldable pub create_zero_blob : D.State → Key → ℕ → Bool → ℕ × D.State
  create_zero_blob s t size true = with_salt s t size (D.random s 12)
  create_zero_blob s t size false = insert_zeros s t size false none

  abbrev pub filled : D.State → Blob N → Option MemoryBuffer → Option MemoryBuffer
  filled s b none = none
  filled s b (some buf) = some (read_into buf (blob_read N D malloc fresh m_key s b buf.m_size 0).0)

  abbrev pub read_opened : D.State → Option (Blob N) → Option MemoryBuffer
  read_opened s none = none
  read_opened s (some b) = filled s b (create malloc none b.m_size)

  -- `getBlobData`
  unfoldable pub get_blob_data : D.State → Key → ℕ → Option MemoryBuffer
  get_blob_data s t id = read_opened s (open_meta N D malloc fresh m_key s t id)
