-- ===== src/Buffer/Tests.antt =====
-- Tests of src/memorybuffer.cpp on blocks of a few bytes.
use zway_lib.Base.{ℕ, ◌≡◌, refl, Bool, true, some, none, List, [], ◌∷◌, overwrite}
use zway_lib.Buffer.{of_bytes, write, read}

abbrev block : List ℕ
block = 1 ∷ 2 ∷ 3 ∷ 4 ∷ []

abbrev source : List ℕ
source = 7 ∷ 8 ∷ 9 ∷ []

abbrev plenty : ℕ → Bool
plenty n = true

-- A write that runs over the end stops there.
write_over_end : write (of_bytes block) (some source) 3 2 ≡ some (of_bytes (1 ∷ 2 ∷ 7 ∷ 8 ∷ []), 2)
unfolding write overwrite
write_over_end = refl

read_over_end : read (of_bytes block) (some source) 3 3 ≡ some (4 ∷ 8 ∷ 9 ∷ [], 1)
unfolding read overwrite
read_over_end = refl

write_null : write (of_bytes block) none 3 2 ≡ none
unfolding write
write_null = refl
