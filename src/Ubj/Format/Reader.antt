-- ===== src/Ubj/Format/Reader.antt =====
-- `Reader` of src/ubj/reader.cpp: a value of what the format's library has read.
use zway_lib.Base.{ℕ, Bool, true, false, Option, none, some, List, ◌==◌, if◌then◌else◌, length}
use zway_lib.Buffer.{MemoryBuffer, create}
use zway_lib.Ubj.Value.{
  UbjType, Value, value, nothing, buffered, Object, end, Array, nil, Runtime, null, of_object,
  of_array, bool_true, bool_false, float32, float64, array,
}
use zway_lib.Ubj.Value.Convert.{of_int, of_long, of_string, set_buffer}
use zway_lib.Ubj.Object.{find, set_field, value_or_null, push_back}
use zway_lib.Ubj.Format.{
  Dynamic, null_dyn, int32_dyn, int64_dyn, float32_dyn, float64_dyn, bool_dyn, string_dyn,
  object_dyn, array_dyn, buffer_dyn, other_dyn, Pairs, no_pairs, pair, Dynamics, no_items, item,
  Library,
}

abbrev pub retyped : UbjType → Value → Value
retyped t (value u p) = value t p

-- The block that replaces `m_buffer`; a null pointer, if there is no memory.
abbrev pub rebuffered : Option MemoryBuffer → Value
rebuffered none = value array nothing
rebuffered (some b) = value array (buffered b)

-- `Value(float)` and `Value(double)`, of the number's bytes.
abbrev pub of_real : Runtime → UbjType → ℕ → List ℕ → Value
of_real rt t size l = elim (set_buffer rt null l size t) [ none ↦ null | some v ↦ v ]

-- `ret` of `Reader::read`.
abbrev pub is_container : Dynamic → Bool
is_container (object_dyn ps) = true
is_container (array_dyn ds) = true
is_container (buffer_dyn l) = true
is_container _ = false

module _ (rt : Runtime) where
  unfoldable mutual
    -- `readDynamic` into `val`.
    pub read_dynamic : Dynamic → Value → Value
    read_dynamic null_dyn val = val
    read_dynamic (int32_dyn x) val = of_int rt x
    read_dynamic (int64_dyn x) val = of_long rt x
    read_dynamic (float32_dyn l) val = of_real rt float32 4 l
    read_dynamic (float64_dyn l) val = of_real rt float64 8 l
    read_dynamic (bool_dyn b) val = retyped (if b then bool_true else bool_false) val
    read_dynamic (string_dyn s) val = of_string rt s
    read_dynamic (object_dyn ps) val = of_object (read_object ps end)
    read_dynamic (array_dyn ds) val = of_array (read_array ds nil)
    read_dynamic (buffer_dyn l) val = rebuffered (create rt.malloc (some l) (length l))
    read_dynamic (other_dyn t) val = val

    -- `readObject`, behind the keys that `res` has.
    pub read_object : Pairs → Object → Object
    read_object no_pairs res = res
    read_object (pair k d ps) res =
        read_object ps (set_field k (read_dynamic d (value_or_null (find k res))) res)

    pub read_array : Dynamics → Array → Array
    read_array no_items res = res
    read_array (item d ds) res = read_array ds (push_back res (read_dynamic d null))

  -- `Reader::read` of `size` bytes: `none` is false.
  unfoldable pub read : Library → Value → List ℕ → Option Value
  read lib val l =
      if length l == 0
      then none
      else if is_container (lib.read_dynamic l)
      then some (read_dynamic (lib.read_dynamic l) val)
      else none
