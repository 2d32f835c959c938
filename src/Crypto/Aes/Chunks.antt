-- ===== src/Crypto/Aes/Chunks.antt =====
-- The loop of `AES::encrypt` (src/crypto/aes.cpp) against one call of the cipher for all the bytes.
use zway_lib.Base.{
  ℕ, zero, suc, ◌+◌, ◌%◌, ◌≡◌, ◌≤◌, ◌<◌, min, refl, sym, ◌∙◌, ap, ap₂, Bool, true, false, not, ◌&&◌,
  if◌then◌else◌, Option, none, some, List, [], ◌∷◌, ◌++◌, length, take, drop, length-take,
  length-drop, take-all, take-append-drop, append-nil, append_assoc, arith, inl, inr, ◌⊎◌,
}
use zway_lib.Crypto.Aes.{
  Nettle, IsCounterMode, Crypted, Callback, called, go_on, crypt_chunks, encrypt, chunk_size,
}

nil_of_length {ℓ} : {A : Type ℓ} (l : List A) → length l ≡ 0 → l ≡ []
nil_of_length [] e = refl
nil_of_length (x ∷ l) e = absurd (omega arith)

≤_cases : (m n : ℕ) → m ≤ n ⊎ n < m
≤_cases m n = ground arith

min_left : (m n : ℕ) → m < n → min m n ≡ m
min_left m n h = omega arith

pub no_failure {ℓ} :
    {A : Type ℓ} (has_dst m : Bool)
    → m ≡ true
    → (x y : A) → (if not has_dst && not m then x else y) ≡ y
no_failure has_dst m e x y = ground arith

module _ (N : Nettle) (law : IsCounterMode N) where
  -- One chunk, and the rest behind it.
  pub crypt-split :
      (n : ℕ) (c : N.Context) (l : List ℕ)
      → n % 16 ≡ 0
      → N.ctr_crypt c l ≡ (
          let a = N.ctr_crypt c (take n l) in
          let b = N.ctr_crypt a.1 (drop n l) in (a.0 ++ b.0, b.1))
  crypt-split n c l whole = elim (≤_cases (length l) n) [
    | inl short ↦
        let all = take-all n l short in
        let none_left = nil_of_length (drop n l) (length-drop n l ∙ omega arith) in
        let end = law.crypt-nil (N.ctr_crypt c l).1 in
        rw (all, none_left, end)
          (ap (λ z. (z, (N.ctr_crypt c l).1)) (sym (append-nil (N.ctr_crypt c l).0)))
    | inr long ↦
        ap (N.ctr_crypt c) (sym (take-append-drop n l))
        ∙ law.crypt-append c (take n l) (drop n l)
            (ap (λ k. k % 16) (length-take n l ∙ min_left n (length l) long) ∙ whole)
  ]

  module _ (St : Type 0) where
    go_on-true :
        (c : N.Context) (out : List ℕ) (next : St → Option (Crypted N St)) (p : Bool × St)
        → p.0 ≡ true
        → go_on N St c out next p ≡ next p.1
    go_on-true c out next (true, st) e = refl
    go_on-true c out next (false, st) e = cc

    -- A callback that never stops the loop.
    abbrev pub IsWilling : Callback N St → Type 0
    IsWilling f = (st : St) (d : List ℕ) (total : ℕ) → (called N St f st d total).0 ≡ true

    crypt_chunks-whole :
        (n : ℕ) (f : Callback N St)
        → n % 16 ≡ 0
        → 0 < n
        → IsWilling f
        → (fuel : ℕ) (c : N.Context) (rest : List ℕ) (total : ℕ) (out : List ℕ) (st : St)
        → length rest < fuel
        → (st' : St) × (crypt_chunks N St n fuel f c rest total out st
            ≡ some (true, (N.ctr_crypt c rest).1, out ++ (N.ctr_crypt c rest).0, st'))
    unfolding crypt_chunks
    crypt_chunks-whole n f whole some_bytes willing zero c rest total out st h =
        absurd (omega arith)
    crypt_chunks-whole n f whole some_bytes willing (suc fuel) c [] total out st h =
        let end = law.crypt-nil c in
        (st, rw (end) (ap (λ z. some (true, c, z, st)) (sym (append-nil out))))
    crypt_chunks-whole n f whole some_bytes willing (suc fuel) c (x ∷ xs) total out st h =
        let l = x ∷ xs in
        let d = N.ctr_crypt c (take n l) in
        let total' = total + length (take n l) in
        let p = called N St f st d.0 total' in
        let next =
          crypt_chunks-whole n f whole some_bytes willing fuel d.1 (drop n l) total' (out ++ d.0)
            p.1 (let e = length-drop n l in omega arith) in
        let split = crypt-split n c l whole in
        (
          next.0,
          go_on-true d.1 (out ++ d.0)
                (λ st'. crypt_chunks N St n fuel f d.1 (drop n l) total' (out ++ d.0) st') p
                (willing st d.0 total')
              ∙ next.1
              ∙ ap₂ (λ a b. some (true, a, b, next.0)) (ap (λ z. z.1) (sym split))
                  (append_assoc out d.0 (N.ctr_crypt d.1 (drop n l)).0
                    ∙ ap (λ z. out ++ z.0) (sym split)),
        )

  -- While memory lasts for a chunk, or with a destination, encrypt gives what the cipher gives for all
  -- the bytes at once, and leaves its context.
  pub encrypt-whole :
      (St : Type 0) (malloc : ℕ → Bool) (has_dst : Bool) (f : Callback N St) (c : N.Context)
      (src : List ℕ) (st : St)
      → malloc chunk_size ≡ true
      → IsWilling St f
      → (st' : St) × (encrypt N St malloc has_dst f c src st
          ≡ some (true, (N.ctr_crypt c src).1, (N.ctr_crypt c src).0, st'))
  unfolding encrypt
  encrypt-whole St malloc has_dst f c src st memory willing =
      let r =
        crypt_chunks-whole St chunk_size f refl (omega arith) willing (suc (length src)) c src 0 []
          st (omega arith) in
      (r.0, no_failure has_dst (malloc chunk_size) memory _ _ ∙ r.1)

  -- What `encrypt` made from a context, `decrypt` makes the bytes again from the same context, in the
  -- same number, whatever that is; both leave the same context.
  pub encrypt-encrypt :
      (malloc : ℕ → Bool) (c : N.Context) (src : List ℕ)
      → malloc chunk_size ≡ true
      → (e : List ℕ) × (length e ≡ length src)
        × (encrypt N Unit malloc true none c src tt ≡ some (true, (N.ctr_crypt c src).1, e, tt))
        × (encrypt N Unit malloc true none c e tt ≡ some (true, (N.ctr_crypt c src).1, src, tt))
  encrypt-encrypt malloc c src memory =
      let e = (N.ctr_crypt c src).0 in
      let there = encrypt-whole Unit malloc true none c src tt memory (λ st d total. refl) in
      let back = encrypt-whole Unit malloc true none c e tt memory (λ st d total. refl) in
      (
        e,
        law.length-crypt c src,
        there.1,
        back.1
            ∙ ap₂ (λ a b. some (true, a, b, tt))
                (law.crypt-context c e src (law.length-crypt c src)) (law.crypt-crypt c src),
      )
