-- ===== src/Ubj/Value/Numbers.antt =====
-- What the number constructors of src/ubj/value.cpp put in comes out again.
use zway_lib.Base.{ℕ, ◌+◌, ◌%◌, ◌≡◌, ◌⊎◌, inl, inr, ◌<◌, ap, refl, true, arith}
use zway_lib.Base.Int.{ℤ, pos, negsuc}
use zway_lib.Buffer.{of_bytes}
use zway_lib.Buffer.Laws.{create-some}
use zway_lib.Ubj.Value.{Runtime, value, buffered, int32, int64}
use zway_lib.Ubj.Value.Convert.{
  of_int, of_long, of_uint, of_ulong, to_int, to_long, to_uint, to_ulong, bytes4, bytes8, word4,
  word8, word, signed, two32, two64,
}

-- The integers of a word of `m` values.
abbrev pub InWord : ℕ → ℤ → Type 0
InWord m x = elim x [ pos n ↦ n + n < m | negsuc n ↦ n + n < m ]

word4-bytes4 : (n : ℕ) → n < two32 → word4 (bytes4 n) ≡ n
word4-bytes4 n h = omega arith

pub word8-bytes8 : (n : ℕ) → n < two64 → word8 (bytes8 n) ≡ n
word8-bytes8 n h = omega arith

pub signed-word4 : (x : ℤ) → InWord two32 x → signed two32 (word4 (bytes4 (word two32 x))) ≡ x
signed-word4 (pos n) h = ground arith
signed-word4 (negsuc n) h = ground arith

pub signed-word8 : (x : ℤ) → InWord two64 x → signed two64 (word8 (bytes8 (word two64 x))) ≡ x
signed-word8 (pos n) h = ground arith
signed-word8 (negsuc n) h = ground arith

module _ (rt : Runtime) (memory : (n : ℕ) → rt.malloc n ≡ true) where
  pub of_int_lem : (x : ℤ) → of_int rt x ≡ value int32 (buffered (of_bytes (bytes4 (word two32 x))))
  unfolding of_int
  of_int_lem x = rw (create-some rt.malloc (bytes4 (word two32 x)) 4 (memory 4) (omega arith))

  pub of_long_lem :
      (x : ℤ) → of_long rt x ≡ value int64 (buffered (of_bytes (bytes8 (word two64 x))))
  unfolding of_long
  of_long_lem x = rw (create-some rt.malloc (bytes8 (word two64 x)) 8 (memory 8) (omega arith))

  of_uint_lem : (n : ℕ) → of_uint rt n ≡ value int32 (buffered (of_bytes (bytes4 n)))
  unfolding of_uint
  of_uint_lem n = rw (create-some rt.malloc (bytes4 n) 4 (memory 4) (omega arith))

  pub of_ulong_lem : (n : ℕ) → of_ulong rt n ≡ value int64 (buffered (of_bytes (bytes8 n)))
  unfolding of_ulong
  of_ulong_lem n = rw (create-some rt.malloc (bytes8 n) 8 (memory 8) (omega arith))

-- While memory lasts, a 32-bit integer comes back by `toInt` and by `toLong`.
pub to_int-of_int :
    (rt : Runtime) (x : ℤ)
    → ((n : ℕ) → rt.malloc n ≡ true)
    → InWord two32 x
    → (to_int rt (of_int rt x) ≡ x) × (to_long rt (of_int rt x) ≡ x)
unfolding to_int to_long
to_int-of_int rt x memory h = rw (of_int_lem rt memory x) (signed-word4 x h, signed-word4 x h)

low_word : (x : ℤ) → InWord two64 x → word8 (bytes8 (word two64 x)) % two32 ≡ word two32 x
low_word (pos n) h = omega arith
low_word (negsuc n) h = omega arith

-- While memory lasts, a 64-bit integer comes back by `toLong`; `toInt` gives the integer of its
-- low 32 bits.
pub to_long-of_long :
    (rt : Runtime) (x : ℤ)
    → ((n : ℕ) → rt.malloc n ≡ true)
    → InWord two64 x
    → (to_long rt (of_long rt x) ≡ x) × (to_int rt (of_long rt x) ≡ signed two32 (word two32 x))
unfolding to_int to_long
to_long-of_long rt x memory h =
    rw (of_long_lem rt memory x) (signed-word8 x h, ap (signed two32) (low_word x h))

pub word-signed : (m n : ℕ) → m ≡ two32 ⊎ m ≡ two64 → n < m → word m (signed m n) ≡ n
word-signed m n e h = ground arith

-- While memory lasts, unsigned integers of 32 and of 64 bits come back through the signed words
-- that hold them.
pub to_uint-of_uint :
    (rt : Runtime) (n k : ℕ)
    → ((n : ℕ) → rt.malloc n ≡ true)
    → n < two32
    → k < two64
    → (to_uint rt (of_uint rt n) ≡ n) × (to_ulong rt (of_ulong rt k) ≡ k)
unfolding to_uint to_ulong
to_uint-of_uint rt n k memory h g =
    rw (of_uint_lem rt memory n, of_ulong_lem rt memory k, word4-bytes4 n h, word8-bytes8 k g)
      (word-signed two32 n (inl refl) h, word-signed two64 k (inr refl) g)
