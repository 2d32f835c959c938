-- ===== src/Ubj/Format.antt =====
-- src/ubj/writer.cpp and src/ubj/reader.cpp over the C library of the format (include/Zway/ubj/ubj.h).
-- The library is a parameter: what bytes a list of its calls writes, and what `ubjr_read_dynamic`
-- makes of bytes. A value of the library, `ubjr_dynamic_t`, is a tree; a number with a fraction stands
-- for the bytes in which the value keeps it.
pub mod Writer
pub mod Reader
pub mod RoundTrip
mod Tests
use zway_lib.Base.{ℕ, suc, ◌+◌, Bool, List, [], ◌∷◌, ◌++◌}
use zway_lib.Base.Int.{ℤ}
use zway_lib.Ubj.Key.{Key}
use zway_lib.Ubj.Value.{UbjType}

mutual
  pub data Dynamic : Type 0 where
    null_dyn : Dynamic
    int32_dyn : ℤ → Dynamic
    int64_dyn : ℤ → Dynamic
    float32_dyn : List ℕ → Dynamic
    float64_dyn : List ℕ → Dynamic
    bool_dyn : Bool → Dynamic
    string_dyn : List ℕ → Dynamic
    object_dyn : Pairs → Dynamic
    array_dyn : Dynamics → Dynamic
    buffer_dyn : List ℕ → Dynamic
    other_dyn : UbjType → Dynamic

  -- The keys of a `ubjr_object_t`, each with what `ubjr_object_lookup` finds.
  pub data Pairs : Type 0 where
    no_pairs : Pairs
    pair : Key → Dynamic → Pairs → Pairs

  pub data Dynamics : Type 0 where
    no_items : Dynamics
    item : Dynamic → Dynamics → Dynamics

-- A call of `ubjw_…`.
pub data Call : Type 0 where
  begin_object : ℕ → Call
  begin_array : ℕ → Call
  end_container : Call
  write_key : Key → Call
  write_null : Call
  write_int32 : ℤ → Call
  write_int64 : ℤ → Call
  write_float32 : List ℕ → Call
  write_float64 : List ℕ → Call
  write_bool : Bool → Call
  write_string : List ℕ → Call
  write_buffer : List ℕ → Call

pub record Library : Type 0 where
  pub written : List Call → List ℕ
  pub read_dynamic : List ℕ → Dynamic

-- The calls that spell a tree.
unfoldable pub count_pairs : Pairs → ℕ
count_pairs no_pairs = 0
count_pairs (pair k d ps) = suc (count_pairs ps)

unfoldable pub count_items : Dynamics → ℕ
count_items no_items = 0
count_items (item d ds) = suc (count_items ds)

unfoldable mutual
  pub spell : Dynamic → List Call
  spell null_dyn = write_null ∷ []
  spell (int32_dyn x) = write_int32 x ∷ []
  spell (int64_dyn x) = write_int64 x ∷ []
  spell (float32_dyn l) = write_float32 l ∷ []
  spell (float64_dyn l) = write_float64 l ∷ []
  spell (bool_dyn b) = write_bool b ∷ []
  spell (string_dyn s) = write_string s ∷ []
  spell (object_dyn ps) = begin_object (count_pairs ps) ∷ (spell_pairs ps ++ (end_container ∷ []))
  spell (array_dyn ds) = begin_array (count_items ds) ∷ (spell_items ds ++ (end_container ∷ []))
  spell (buffer_dyn l) = write_buffer l ∷ []
  spell (other_dyn t) = []

  pub spell_pairs : Pairs → List Call
  spell_pairs no_pairs = []
  spell_pairs (pair k d ps) = write_key k ∷ (spell d ++ spell_pairs ps)

  pub spell_items : Dynamics → List Call
  spell_items no_items = []
  spell_items (item d ds) = spell d ++ spell_items ds
