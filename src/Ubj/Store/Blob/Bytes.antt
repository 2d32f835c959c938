-- ===== src/Ubj/Store/Blob/Bytes.antt =====
-- What `Blob::write` of src/ubj/store/blob.cpp puts in the block, chunk by chunk.
use zway_lib.Base.{
  ℕ, zero, suc, ◌+◌, ◌-◌, ◌%◌, ◌≡◌, ◌≤◌, ◌<◌, refl, sym, ◌∙◌, ap, ap₂, true, false, some, List, [],
  ◌∷◌, ◌++◌, length, take, drop, overwrite, length-overwrite, overwrite-nil, append-nil,
  append_assoc, length-take, length-drop, if◌then◌else◌, le→not-ltb, arith,
}
use zway_lib.Ubj.Key.{Key}
use zway_lib.Crypto.Aes.{Nettle, IsCounterMode, crypt_chunks, go_on}
use zway_lib.Crypto.Aes.Chunks.{crypt-split}
use zway_lib.Ubj.Store.Blob.{Row, Database, IsKept, blob_write_at, block_of, write_block}

pub overwrite-overwrite {ℓ} :
    {A : Type ℓ} (b : List A) (i : ℕ) (x y : List A) (j : ℕ)
    → j ≡ i + length x
    → overwrite (overwrite b i x) j y ≡ overwrite b i (x ++ y)
unfolding overwrite
overwrite-overwrite [] i x y j e = refl
overwrite-overwrite (a ∷ b) (suc i) x y zero e = absurd (omega arith)
overwrite-overwrite (a ∷ b) (suc i) x y (suc j) e =
    ap (◌∷◌ a) (overwrite-overwrite b i x y j (omega arith))
overwrite-overwrite (a ∷ b) zero [] y j e = ap (λ k. overwrite (a ∷ b) k y) e
overwrite-overwrite (a ∷ b) zero (c ∷ x) y zero e = absurd (omega arith)
overwrite-overwrite (a ∷ b) zero (c ∷ x) y (suc j) e =
    ap (◌∷◌ c) (overwrite-overwrite b zero x y j (omega arith))

place : (offset total k j : ℕ) → k ≡ j → (offset + (total + j)) - k ≡ offset + total
place offset total k j e = omega arith

module _ (D : Database) (kept : IsKept D) where
  -- The row with this block as its data.
  abbrev pub Holds : Key → ℕ → Row → List ℕ → D.State → Type 0
  Holds t id r block s = D.row s t id ≡ some (record r { content = some block })

  pub blob_write_at-Holds :
      (t : Key) (id : ℕ) (r : Row) (block : List ℕ) (s : D.State) (d : List ℕ) (offset : ℕ)
      → Holds t id r block s
      → offset + length d ≤ length block
      → (blob_write_at D s t id d offset ≡ (true, D.write s t id (overwrite block offset d)))
        × Holds t id r (overwrite block offset d) (D.write s t id (overwrite block offset d))
  unfolding blob_write_at
  blob_write_at-Holds t id r block s d offset h fits = (
    ap (λ q. write_block D s t id d offset (block_of D q)) h
        ∙ ap (λ b. if b then (false, s) else (true, D.write s t id (overwrite block offset d)))
            (le→not-ltb (length block) (offset + length d) fits),
    kept.row-write s t id (record r { content = some block }) (overwrite block offset d) h,
  )

  module _ (N : Nettle) (law : IsCounterMode N) where
    -- Behind what is in the block, the rest goes to its place.
    pub crypt_chunks-Holds :
        (n : ℕ)
        → n % 16 ≡ 0
        → 0 < n
        → (t : Key) (id offset : ℕ) (r : Row) (fuel : ℕ) (c : N.Context) (rest : List ℕ) (total : ℕ)
          (out block : List ℕ) (s : D.State)
        → Holds t id r block s
        → (offset + total) + length rest ≤ length block
        → length rest < fuel
        → (s' : D.State) × (crypt_chunks N D.State n fuel
              (some (λ u e m. blob_write_at D u t id e (offset + m - length e)))
              c
              rest
              total
              out
              s
            ≡ some (true, (N.ctr_crypt c rest).1, out ++ (N.ctr_crypt c rest).0, s'))
          × Holds t id r (overwrite block (offset + total) (N.ctr_crypt c rest).0) s'
    unfolding crypt_chunks
    crypt_chunks-Holds n whole some_bytes t id offset r zero c rest total out block s h fits
          enough =
        absurd (omega arith)
    crypt_chunks-Holds n whole some_bytes t id offset r (suc fuel) c [] total out block s h fits
          enough =
        let end = law.crypt-nil c in
        (
          s,
          rw (end) (ap (λ z. some (true, c, z, s)) (sym (append-nil out))),
          rw (end, overwrite-nil block (offset + total)) h,
        )
    crypt_chunks-Holds n whole some_bytes t id offset r (suc fuel) c (x ∷ xs) total out block s h
          fits enough =
        let l = x ∷ xs in
        let d = N.ctr_crypt c (take n l) in
        let e = d.0 in
        let m = total + length (take n l) in
        let len = law.length-crypt c (take n l) in
        let taken = length-take n l in
        let left = length-drop n l in
        let block' = overwrite block (offset + total) e in
        let one = blob_write_at-Holds t id r block s e (offset + total) h (omega arith) in
        let s1 = D.write s t id block' in
        let f =
          λ (u : D.State) (e : List ℕ) (m : ℕ). blob_write_at D u t id e (offset + m - length e) in
        let wrote : f s e m ≡ (true, s1) =
          ap (blob_write_at D s t id e) (place offset total (length e) (length (take n l)) len)
          ∙ one.0 in
        let next =
          λ (u : D.State). crypt_chunks N D.State n fuel (some f) d.1 (drop n l) m (out ++ e) u in
        let size = length-overwrite block (offset + total) e in
        let rest =
          crypt_chunks-Holds n whole some_bytes t id offset r fuel d.1 (drop n l) m (out ++ e)
            block' s1 one.1 (omega arith) (omega arith) in
        let split = crypt-split N law n c l whole in
        let d2 = (N.ctr_crypt d.1 (drop n l)).0 in
        (
          rest.0,
          ap (go_on N D.State d.1 (out ++ e) next) wrote
              ∙ rest.1
              ∙ ap₂ (λ a b. some (true, a, b, rest.0)) (ap (λ z. z.1) (sym split))
                  (append_assoc out e d2 ∙ ap (λ z. out ++ z.0) (sym split)),
          rest.2
              ∙ ap (λ z. some (record r { content = some z }))
                  (overwrite-overwrite block (offset + total) e d2 (offset + m) (omega arith)
                    ∙ ap (λ z. overwrite block (offset + total) z.0) (sym split)),
        )
