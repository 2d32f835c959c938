-- ===== src/Resources/Salt.antt =====
-- `PushRequest::resourceSalt` of src/request/pushrequest.cpp: the counter of a resource's cipher.
use zway_lib.Base.{
  ℕ, ◌≡◌, ◌∙◌, ap, sym, refl, Bool, true, Option, none, some, List, [], ◌∷◌, ◌++◌, arith, leb,
  length, take, drop, overwrite, if◌then◌else◌, length-take, length-drop, length-append,
  append_assoc, overwrite_within, length-overwrite, take-overwrite,
}
use zway_lib.Buffer.{MemoryBuffer, copy, IsValid, of_bytes}
use zway_lib.Buffer.Laws.{copy_lem, eq_of_bytes}
use zway_lib.Wire.{bytes_of_u32}

-- The bytes from 8 on become the number, low byte first, and four zeros.
abbrev pub numbered : List ℕ → ℕ → List ℕ
numbered d id = overwrite (overwrite d 8 (bytes_of_u32 id)) 12 (bytes_of_u32 0)

abbrev salted : ℕ → Option MemoryBuffer → Option (Option MemoryBuffer)
salted id none = some none
salted id (some b) =
    if leb 16 b.m_size
    then some
        (some (record b { m_data = elim b.m_data [ none ↦ none | some d ↦ some (numbered d id) ] }))
    else none

-- The inner `none` is the null pointer. The outer one is a salt of less than 16 bytes, where the source
-- writes behind the copy's block.
unfoldable pub resource_salt : (ℕ → Bool) → Option MemoryBuffer → ℕ → Option (Option MemoryBuffer)
resource_salt malloc none id = some none
resource_salt malloc (some salt) id = salted id (copy malloc salt)

-- A salt of 16 bytes.
module _ (malloc : ℕ → Bool) (d : List ℕ) (sixteen : length d ≡ 16) where
  -- The first half of the message's salt, the number and four zeros.
  unfoldable pub counter_of : ℕ → List ℕ
  counter_of id = take 8 d ++ (bytes_of_u32 id ++ bytes_of_u32 0)

  nil_of_length : (l : List ℕ) → length l ≡ 0 → l ≡ []
  nil_of_length [] e = refl
  nil_of_length (x ∷ l) e = absurd (omega arith)

  numbered_lem : (id : ℕ) → numbered d id ≡ counter_of id
  unfolding counter_of
  numbered_lem id =
      rw
        (
          overwrite_within (overwrite d 8 (bytes_of_u32 id)) 12 (bytes_of_u32 0)
              (omega (arith, length-overwrite d 8 (bytes_of_u32 id))),
          take-overwrite d 8 (bytes_of_u32 id) 12 refl (omega arith),
          nil_of_length (drop 16 (overwrite d 8 (bytes_of_u32 id))) (
              length-drop 16 (overwrite d 8 (bytes_of_u32 id))
              ∙ omega (arith, length-overwrite d 8 (bytes_of_u32 id))),
        )
        (append_assoc (take 8 d) (bytes_of_u32 id) (bytes_of_u32 0))

  pub length-counter_of : (id : ℕ) → length (counter_of id) ≡ 16
  unfolding counter_of
  length-counter_of id =
      omega (arith, length-append (take 8 d) (bytes_of_u32 id ++ bytes_of_u32 0), length-take 8 d)

  pub resource_salt_lem :
      (b : MemoryBuffer) (id : ℕ)
      → malloc 16 ≡ true
      → IsValid b
      → b.m_data ≡ some d
      → resource_salt malloc (some b) id ≡ some (some (of_bytes (counter_of id)))
  unfolding resource_salt
  resource_salt_lem b id memory v e =
      rw
        (
          eq_of_bytes b d v e,
          copy_lem malloc (of_bytes d) refl (ap malloc sixteen ∙ memory) (omega arith),
          sixteen,
          numbered_lem id,
        )
        (λ i.
          some (
            some (record { m_data = some (counter_of id); m_size = sym (length-counter_of id) i })))
