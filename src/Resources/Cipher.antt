-- ===== src/Resources/Cipher.antt =====
-- What the cipher makes of the parts of a resource, against what it makes of the whole
-- (src/message/resourcesender.cpp and src/message/resourcereceiver.cpp, `processPacket`).
use zway_lib.Base.{
  ℕ, ◌+◌, ◌-◌, ◌*◌, ◌%◌, ◌≡◌, ◌<◌, ◌∙◌, ap, sym, refl, Bool, true, none, some, List, arith, min,
  length, take, drop, overwrite, length-take, length-drop, take_exact, take-min, drop_exact,
}
use zway_lib.Crypto.Aes.{Nettle, IsCounterMode, chunk_size}
use zway_lib.Crypto.Aes.Chunks.{encrypt-whole, crypt-split}
use zway_lib.Stream.Sender.{parts_of}
use zway_lib.Stream.Parts.{chunk, length-chunk, take-chunk, parts_of_bounds}
use zway_lib.Resources.{crypt_in_place}

module _ (N : Nettle) (law : IsCounterMode N) where
  pub crypt_in_place_lem :
      (malloc : ℕ → Bool) (c : N.Context) (d : List ℕ) (m n : ℕ)
      → malloc chunk_size ≡ true
      → crypt_in_place N malloc c (record { m_data = some d; m_size = m }) n ≡ (
        true,
        (N.ctr_crypt c (take n d)).1,
        record { m_data = some (overwrite d 0 (N.ctr_crypt c (take n d)).0); m_size = m },
      )
  unfolding crypt_in_place
  crypt_in_place_lem malloc c d m n memory =
      rw ((encrypt-whole N law Unit malloc true none c (take n d) tt memory (λ st x total. refl)).1)

  module _ (c : N.Context) (p : List ℕ) (full : 0 < length p) where
    -- The resource encrypted in one piece.
    unfoldable pub whole : List ℕ
    whole = (N.ctr_crypt c p).0

    -- The context after `k` parts.
    unfoldable pub context_at : ℕ → N.Context
    context_at k = (N.ctr_crypt c (take (min (length p) (k * 65536)) p)).1

    pub length-whole : length whole ≡ length p
    unfolding whole
    length-whole = law.length-crypt c p

    module _ (k : ℕ) (below : k < parts_of (length p)) where
      inside : min (length p) (k * 65536) ≡ k * 65536
      inside = omega (arith, parts_of_bounds (length p) full)

      front : length (take (k * 65536) p) ≡ k * 65536
      front = length-take (k * 65536) p ∙ omega (arith, inside)

      blocks : length (take (k * 65536) p) % 16 ≡ 0
      blocks = omega (arith, front)

      sum : min (length p) ((k + 1) * 65536) ≡ k * 65536 + min 65536 (length p - k * 65536)
      sum = omega (arith, parts_of_bounds (length p) full)

      context_eq : context_at k ≡ (N.ctr_crypt c (take (k * 65536) p)).1
      unfolding context_at
      context_eq = ap (λ m. (N.ctr_crypt c (take m p)).1) inside

      pub context-next : (N.ctr_crypt (context_at k) (chunk p k)).1 ≡ context_at (k + 1)
      unfolding context_at
      context-next =
          ap (λ x. (N.ctr_crypt x (chunk p k)).1) context_eq
          ∙ sym (ap (λ z. z.1) (law.crypt-append c (take (k * 65536) p) (chunk p k) blocks))
          ∙ ap (λ l. (N.ctr_crypt c l).1)
              (sym (take-chunk p k (min (length p) ((k + 1) * 65536)) sum))

      chunk-drop : chunk p k ≡ take 65536 (drop (k * 65536) p)
      unfolding chunk
      chunk-drop =
          take-min 65536 (drop (k * 65536) p) (length p - k * 65536) (length-drop (k * 65536) p)

      drop-whole :
          drop (k * 65536) whole
          ≡ (N.ctr_crypt (N.ctr_crypt c (take (k * 65536) p)).1 (drop (k * 65536) p)).0
      unfolding whole
      drop-whole =
          ap (λ z. drop (k * 65536) z.0) (crypt-split N law (k * 65536) c p (omega arith))
          ∙ drop_exact (N.ctr_crypt c (take (k * 65536) p)).0 _ (k * 65536)
              (law.length-crypt c (take (k * 65536) p) ∙ front)

      take-crypt :
          (a : N.Context)
          → take (min 65536 (length p - k * 65536)) (N.ctr_crypt a (drop (k * 65536) p)).0
            ≡ (N.ctr_crypt a (take 65536 (drop (k * 65536) p))).0
      take-crypt a =
          ap (λ z. take (min 65536 (length p - k * 65536)) z.0)
            (crypt-split N law 65536 a (drop (k * 65536) p) refl)
          ∙ take_exact (N.ctr_crypt a (take 65536 (drop (k * 65536) p))).0 _
              (min 65536 (length p - k * 65536))
              (law.length-crypt a (take 65536 (drop (k * 65536) p))
                ∙ ap length (sym chunk-drop)
                ∙ length-chunk p k)

      -- A part encrypted on its own is that part of the whole.
      pub crypt-chunk : (N.ctr_crypt (context_at k) (chunk p k)).0 ≡ chunk whole k
      unfolding chunk
      crypt-chunk =
          ap (λ x. (N.ctr_crypt x (chunk p k)).0) context_eq
          ∙ ap (λ l. (N.ctr_crypt (N.ctr_crypt c (take (k * 65536) p)).1 l).0) chunk-drop
          ∙ sym (take-crypt (N.ctr_crypt c (take (k * 65536) p)).1)
          ∙ ap (take (min 65536 (length p - k * 65536))) (sym drop-whole)
          ∙ ap (λ m. take (min 65536 (m - k * 65536)) (drop (k * 65536) whole)) (sym length-whole)

      -- And back, with the context moved on alike.
      pub crypt-whole :
          ((N.ctr_crypt (context_at k) (chunk whole k)).0 ≡ chunk p k)
          × ((N.ctr_crypt (context_at k) (chunk whole k)).1 ≡ context_at (k + 1))
      crypt-whole = (
        ap (λ l. (N.ctr_crypt (context_at k) l).0) (sym crypt-chunk)
            ∙ law.crypt-crypt (context_at k) (chunk p k),
        law.crypt-context (context_at k) (chunk whole k) (chunk p k) (
              length-chunk whole k
              ∙ ap (λ m. min 65536 (m - k * 65536)) length-whole
              ∙ sym (length-chunk p k))
            ∙ context-next,
      )
