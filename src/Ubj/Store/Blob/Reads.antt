-- ===== src/Ubj/Store/Blob/Reads.antt =====
-- What `getBlobData` of src/ubj/store/store.cpp makes of a row.
use zway_lib.Base.{
  ℕ, ◌+◌, ◌≡◌, refl, sym, ◌∙◌, ap, Bool, true, false, Option, none, some, List, length, take,
  replicate, overwrite_all, length-replicate, take-all, if◌then◌else◌, le→not-ltb, arith,
}
use zway_lib.Buffer.{MemoryBuffer, create, of_bytes}
use zway_lib.Ubj.Key.{Key}
use zway_lib.Crypto.Aes.{Nettle, IsCounterMode, set_key, set_ctr, chunk_size}
use zway_lib.Crypto.Aes.Chunks.{encrypt-whole}
use zway_lib.Ubj.Store.Blob.{
  Row, Database, IsKept, Blob, open_meta, blob_read, blob_data, block_of, read_block, read_bytes,
  opened, started, decrypted,
}
use zway_lib.Ubj.Store.Blob.Calls.{filled, read_into, read_opened, get_blob_data}
use zway_lib.Ubj.Store.Blob.Bytes.{Holds}

module _ (N : Nettle) (law : IsCounterMode N) (D : Database) (kept : IsKept D) (malloc : ℕ → Bool)
    (memory : (n : ℕ) → malloc n ≡ true) (fresh : N.Context) (m_key : Option MemoryBuffer) where
  -- The context that a blob with this salt begins with.
  abbrev pub context : Option MemoryBuffer → N.Context
  context salt = set_key N (set_ctr N fresh salt) m_key

  -- What a row says of the bytes `p`.
  abbrev pub says : List ℕ → Bool → Option MemoryBuffer → Row
  says p mode salt = record {
    mode = mode;
    size = length p;
    salt = salt;
    content = some (if mode then (N.ctr_crypt (context salt) p).0 else p);
  }

  -- The whole block of a row.
  read_all :
      (s : D.State) (t : Key) (id : ℕ) (r : Row) (q : List ℕ) (n : ℕ)
      → Holds D kept t id r q s
      → n ≡ length q
      → read_block D n 0 (blob_data D s t id) ≡ some q
  read_all s t id r q n e len =
      ap (λ z. read_block D n 0 (block_of D z)) e
      ∙ ap (λ b. if b then none else some (take n q)) (le→not-ltb (length q) (0 + n) (omega arith))
      ∙ ap some (take-all n q (omega arith))

  abbrev pub opening : Key → ℕ → Bool → Option MemoryBuffer → List ℕ → Blob N
  opening t id mode salt p = started N D malloc fresh m_key t id mode (length p) salt

  abbrev zeros : List ℕ → MemoryBuffer
  zeros p = record { m_data = some (replicate (length p) 0); m_size = length p }

  -- Reading the whole of an opened blob into a new buffer.
  filled_lem :
      (s : D.State) (t : Key) (id : ℕ) (mode : Bool) (salt : Option MemoryBuffer) (p q : List ℕ)
      → read_block D (length p) 0 (blob_data D s t id) ≡ some q
      → (read_bytes N D malloc fresh m_key (opening t id mode salt p) (some q)).0 ≡ some p
      → filled N D malloc fresh m_key s (opening t id mode salt p) (create malloc none (length p))
        ≡ some (of_bytes p)
  unfolding blob_read create
  filled_lem s t id mode salt p q block plain =
      let b = opening t id mode salt p in
      let all = overwrite_all (replicate (length p) 0) p (sym (length-replicate (length p) 0)) in
      rw (memory (length p)) (
        ap (λ z. some (read_into (zeros p) (read_bytes N D malloc fresh m_key b z).0)) block
        ∙ ap (λ z. some (read_into (zeros p) z)) plain
        ∙ ap (λ z. some (record (zeros p) { m_data = some z })) all)

  pub get_blob_data-says :
      (s : D.State) (t : Key) (id : ℕ) (p : List ℕ) (mode : Bool) (salt : Option MemoryBuffer)
      → D.row s t id ≡ some (says p mode salt)
      → get_blob_data N D malloc fresh m_key s t id ≡ some (of_bytes p)
  unfolding get_blob_data open_meta
  get_blob_data-says s t id p true salt e =
      let c = context salt in
      let q = (N.ctr_crypt c p).0 in
      let back =
        encrypt-whole N law Unit malloc true none c q tt (memory chunk_size) (λ st d total. refl) in
      ap (λ r. read_opened N D malloc fresh m_key s (opened N D malloc fresh m_key t id r)) e
      ∙ filled_lem s t id true salt p q
          (read_all s t id (says p true salt) q (length p) e (sym (law.length-crypt c p)))
          (ap (λ z. (decrypted N D malloc fresh m_key (opening t id true salt p) z).0) back.1
            ∙ ap some (law.crypt-crypt c p))
  get_blob_data-says s t id p false salt e =
      ap (λ r. read_opened N D malloc fresh m_key s (opened N D malloc fresh m_key t id r)) e
      ∙ filled_lem s t id false salt p p (read_all s t id (says p false salt) p (length p) e refl)
          refl
