-- ===== src/Ubj/Store/Blob/Kept.antt =====
-- What `updateBlobData` and `createBlob` of src/ubj/store/store.cpp leave in a row, encrypted or not.
use mathlib.Core.Logic.{◌≢◌}
use zway_lib.Base.{
  ℕ, suc, ◌+◌, ◌-◌, ◌%◌, ◌≡◌, ◌≤◌, ◌<◌, refl, sym, ◌∙◌, ap, Bool, true, false, Option, none, some,
  List, [], length, replicate, overwrite_all, length-replicate, length-overwrite, if◌then◌else◌,
  ◌==◌, arith,
}
use zway_lib.Buffer.{MemoryBuffer, of_bytes}
use zway_lib.Ubj.Key.{Key}
use zway_lib.Ubj.Value.Convert.{two32}
use zway_lib.Crypto.Aes.{Nettle, IsCounterMode, encrypt, chunk_size}
use zway_lib.Crypto.Aes.Chunks.{no_failure}
use zway_lib.Ubj.Store.Blob.{
  Row, Database, IsKept, IsBound, open_meta, blob_write, opened, encrypted, blob_write_at,
}
use zway_lib.Ubj.Store.Blob.Calls.{
  encrypt_into, write_opened, unless_failed, fill_blob, salt_of, first_row, plain_row,
  update_blob_data, create_blob, get_blob_data,
}
use zway_lib.Ubj.Store.Blob.Bytes.{crypt_chunks-Holds}
use zway_lib.Ubj.Store.Blob.Reads.{says, context, opening, get_blob_data-says}

not_zero {ℓ} : {A : Type ℓ} (n : ℕ) (x y : A) → n ≢ 0 → (if n == 0 then x else y) ≡ y
not_zero n x y h = ground arith

small_id : (id r : ℕ) → id < two32 → r ≡ id % two32 → r ≡ 0 → id ≡ 0
small_id id r l e z = omega arith

zeros_full : (p : List ℕ) → 0 < length p → 0 < length {A = ℕ} (replicate (length p) 0)
zeros_full p h = let e = length-replicate {A = ℕ} (length p) 0 in omega arith

salt_full : (r : List ℕ) → 0 < (salt_of r).m_size
salt_full r = omega (arith, length-overwrite (replicate 16 0) 0 r, length-replicate {A = ℕ} 16 0)

first-IsBound :
    (p : List ℕ) (mode : Bool) → 0 < length p → IsBound (first_row (some (of_bytes p)) mode)
first-IsBound p true h = (tt, tt)
first-IsBound p false h = (h, tt)

zeros_fit : (p : List ℕ) → (0 + 0) + length p ≤ length {A = ℕ} (replicate (length p) 0)
zeros_fit p = let e = length-replicate {A = ℕ} (length p) 0 in omega arith

module _ (N : Nettle) (law : IsCounterMode N) (D : Database) (kept : IsKept D) (malloc : ℕ → Bool)
    (memory : (n : ℕ) → malloc n ≡ true) (fresh : N.Context) (m_key : Option MemoryBuffer) where
  abbrev zero_row : List ℕ → MemoryBuffer → Row
  zero_row p salt = record {
    mode = true;
    size = length p;
    salt = some salt;
    content = some (replicate (length p) 0);
  }

  -- An encrypted write over zeros.
  blob_write-says :
      (s : D.State) (t : Key) (id : ℕ) (p : List ℕ) (salt : MemoryBuffer)
      → D.row s t id ≡ some (zero_row p salt)
      → D.row
          (blob_write N D malloc fresh m_key s
            (opening N law D kept malloc memory fresh m_key t id true (some salt) p)
            p
            0).1
          t
          id
        ≡ some (says N law D kept malloc memory fresh m_key p true (some salt))
  unfolding blob_write encrypt
  blob_write-says s t id p salt e =
      let c = context N law D kept malloc memory fresh m_key (some salt) in
      let f = λ (u : D.State) (e : List ℕ) (m : ℕ). blob_write_at D u t id e (0 + m - length e) in
      let b = opening N law D kept malloc memory fresh m_key t id true (some salt) p in
      let q = (N.ctr_crypt c p).0 in
      let r =
        crypt_chunks-Holds D kept N law chunk_size refl (omega arith) t id 0 (zero_row p salt)
          (suc (length p)) c p 0 [] (replicate (length p) 0) s e (zeros_fit p) (omega arith) in
      ap (λ z. D.row (encrypted N D malloc fresh m_key b s z).1 t id)
        (no_failure false (malloc chunk_size) (memory chunk_size) _ _ ∙ r.1)
      ∙ r.2
      ∙ ap (λ z. some (record (zero_row p salt) { content = some z }))
          (overwrite_all (replicate (length p) 0) q
            (law.length-crypt c p ∙ sym (length-replicate (length p) 0)))

  -- The random bytes for salts do not fail.
  abbrev pub IsDrawn : Type 0
  IsDrawn = (s : D.State) → (r : List ℕ) × (D.random s 12 ≡ some r)

  update_blob_data-says :
      (drawn : IsDrawn) (s : D.State) (t : Key) (id : ℕ) (old : Row) (p : List ℕ) (mode : Bool)
      → 0 < length p
      → D.row s t id ≡ some old
      → (salt : Option MemoryBuffer) × ((update_blob_data N D malloc fresh m_key s t id
            (some (of_bytes p))
            mode).0
          ≡ id % two32)
        × (D.row (update_blob_data N D malloc fresh m_key s t id (some (of_bytes p)) mode).1 t id
            ≡ some (says N law D kept malloc memory fresh m_key p mode salt))
  unfolding update_blob_data open_meta
  update_blob_data-says drawn s t id old p false full e =
      (none, refl, kept.row-update s t id old (plain_row (of_bytes p)) (full, tt) e)
  update_blob_data-says drawn s t id old p true full e =
      let r = drawn s in
      let salt = salt_of r.0 in
      let s1 = D.update s t id (zero_row p salt) in
      let there =
        kept.row-update s t id old (zero_row p salt) (zeros_full p full, salt_full r.0) e in
      (
        some salt,
        ap (λ z. (encrypt_into N D malloc fresh m_key s t id (of_bytes p) z).0) r.1,
        ap (λ z. D.row (encrypt_into N D malloc fresh m_key s t id (of_bytes p) z).1 t id) r.1
            ∙ ap
                (λ z.
                  D.row
                    (write_opened N D malloc fresh m_key s1 p
                      (opened N D malloc fresh m_key t id z))
                    t id)
                there
            ∙ blob_write-says s1 t id p salt there,
      )

  -- While memory and random bytes last: behind updateBlobData of a row that is there, encrypted or not,
  -- getBlobData gives back just the bytes that were written, at least one, in their number, and the result is the id
  -- cut to 32 bits.
  pub get_blob_data-update_blob_data :
      (drawn : IsDrawn) (s : D.State) (t : Key) (id : ℕ) (old : Row) (p : List ℕ) (mode : Bool)
      → 0 < length p
      → D.row s t id ≡ some old
      → ((update_blob_data N D malloc fresh m_key s t id (some (of_bytes p)) mode).0 ≡ id % two32)
        × (get_blob_data N D malloc fresh m_key
              (update_blob_data N D malloc fresh m_key s t id (some (of_bytes p)) mode).1
              t
              id
            ≡ some (of_bytes p))
  get_blob_data-update_blob_data drawn s t id old p mode full e =
      let u = update_blob_data-says drawn s t id old p mode full e in
      (
        u.1,
        get_blob_data-says N law D kept malloc memory fresh m_key
            (update_blob_data N D malloc fresh m_key s t id (some (of_bytes p)) mode).1 t id p mode
            u.0 u.2,
      )

  -- Behind the insertion.
  fill_blob-says :
      (drawn : IsDrawn) (t : Key) (p : List ℕ) (mode : Bool) (x : ℕ × D.State)
      → 0 < length p
      → x.0 ≢ 0
      → x.0 < two32
      → D.row x.1 t x.0 ≡ some (first_row (some (of_bytes p)) mode)
      → (salt : Option MemoryBuffer) × ((fill_blob N D malloc fresh m_key t
            (some (of_bytes p))
            mode
            x).0
          ≡ x.0)
        × (D.row (fill_blob N D malloc fresh m_key t (some (of_bytes p)) mode x).1 t x.0
            ≡ some (says N law D kept malloc memory fresh m_key p mode salt))
  fill_blob-says drawn t p false (id, s) full n l e =
      let same = not_zero {A = ℕ × D.State} id (0, s) (id, s) n in
      (none, ap (λ z. z.0) same, ap (λ z. D.row z.1 t id) same ∙ e)
  fill_blob-says drawn t p true (id, s) full n l e =
      let b = some (of_bytes p) in
      let u = update_blob_data N D malloc fresh m_key s t id b true in
      let h = update_blob_data-says drawn s t id (first_row b true) p true full e in
      let same =
        not_zero {A = ℕ × D.State} id (0, s) (unless_failed N D malloc fresh m_key t id u) n
        ∙ not_zero {A = ℕ × D.State} u.0 (0, D.remove u.1 t id) (id, u.1)
            (λ z. n (small_id id u.0 l h.1 z)) in
      (h.0, ap (λ z. z.0) same, ap (λ z. D.row z.1 t id) same ∙ h.2)

  create_blob-says :
      (drawn : IsDrawn) (s : D.State) (t : Key) (p : List ℕ) (mode : Bool)
      → 0 < length p
      → (D.insert s t (first_row (some (of_bytes p)) mode)).0 ≢ 0
      → (D.insert s t (first_row (some (of_bytes p)) mode)).0 < two32
      → (salt : Option MemoryBuffer) × ((create_blob N D malloc fresh m_key s t
            (some (of_bytes p))
            mode).0
          ≡ (D.insert s t (first_row (some (of_bytes p)) mode)).0)
        × (D.row
              (create_blob N D malloc fresh m_key s t (some (of_bytes p)) mode).1
              t
              (D.insert s t (first_row (some (of_bytes p)) mode)).0
            ≡ some (says N law D kept malloc memory fresh m_key p mode salt))
  unfolding create_blob
  create_blob-says drawn s t p mode full n l =
      fill_blob-says drawn t p mode (D.insert s t (first_row (some (of_bytes p)) mode)) full n l
        (kept.row-insert s t (first_row (some (of_bytes p)) mode) (first-IsBound p mode full) n)

  pub get_blob_data-create_blob :
      (drawn : IsDrawn) (s : D.State) (t : Key) (p : List ℕ) (mode : Bool)
      → 0 < length p
      → (D.insert s t (first_row (some (of_bytes p)) mode)).0 ≢ 0
      → (D.insert s t (first_row (some (of_bytes p)) mode)).0 < two32
      → ((create_blob N D malloc fresh m_key s t (some (of_bytes p)) mode).0
          ≡ (D.insert s t (first_row (some (of_bytes p)) mode)).0)
        × (get_blob_data N D malloc fresh m_key
              (create_blob N D malloc fresh m_key s t (some (of_bytes p)) mode).1
              t
              (D.insert s t (first_row (some (of_bytes p)) mode)).0
            ≡ some (of_bytes p))
  get_blob_data-create_blob drawn s t p mode full n l =
      let c = create_blob-says drawn s t p mode full n l in
      (
        c.1,
        get_blob_data-says N law D kept malloc memory fresh m_key
            (create_blob N D malloc fresh m_key s t (some (of_bytes p)) mode).1 t
            (D.insert s t (first_row (some (of_bytes p)) mode)).0 p mode c.0 c.2,
      )
