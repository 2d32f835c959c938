-- ===== src/Ubj/Format/Writer.antt =====
-- `Writer` of src/ubj/writer.cpp: the calls of the format's library for a value.
use zway_lib.Base.{
  ℕ, true, false, Option, some, List, [], ◌∷◌, ◌++◌, ◌==◌, if◌then◌else◌, length, take,
}
use zway_lib.Buffer.{MemoryBuffer, bytes, create}
use zway_lib.Ubj.Key.{Key}
use zway_lib.Ubj.Value.{
  UbjType, Value, value, Payload, nothing, buffered, fields, items, Object, end, field, Array, nil,
  cons, Runtime, null_type, bool_true, bool_false, string, int32, int64, float32, float64, array,
  object,
}
use zway_lib.Ubj.Value.Convert.{to_int, to_long, to_str, strlen}
use zway_lib.Ubj.Object.{length_object, length_array}
use zway_lib.Ubj.Format.{
  Call, begin_object, begin_array, end_container, write_key, write_null, write_int32, write_int64,
  write_float32, write_float64, write_bool, write_string, write_buffer, Library,
}

-- A text as a C string: it ends before its first zero byte.
abbrev pub c_str : List ℕ → List ℕ
c_str s = take (strlen s) s

-- An empty key is not written.
abbrev pub key_calls : Key → List Call
key_calls [] = []
key_calls (c ∷ k) = write_key (c_str (c ∷ k)) ∷ []

-- The block of a value, `m_buffer->data()`.
abbrev pub block : Payload → List ℕ
block (buffered b) = bytes b
block nothing = []
block (fields o) = []
block (items a) = []

-- `writeArray`: the bytes of a buffer, if it has any, or else the items.
abbrev pub array_calls : Payload → List Call → List Call
array_calls (buffered b) of_items = if b.m_size == 0 then of_items else write_buffer (bytes b) ∷ []
array_calls nothing of_items = of_items
array_calls (fields o) of_items = of_items
array_calls (items a) of_items = of_items

module _ (rt : Runtime) where
  -- The switch of `writeValue`, given what the pointers hold as an object and as an array.
  abbrev pub typed_calls : UbjType → Payload → List Call → List Call → List Call
  typed_calls null_type p o a = write_null ∷ []
  typed_calls int32 p o a = write_int32 (to_int rt (value int32 p)) ∷ []
  typed_calls int64 p o a = write_int64 (to_long rt (value int64 p)) ∷ []
  typed_calls float32 p o a = write_float32 (block p) ∷ []
  typed_calls float64 p o a = write_float64 (block p) ∷ []
  typed_calls bool_true p o a = write_bool true ∷ []
  typed_calls bool_false p o a = write_bool false ∷ []
  typed_calls string p o a = write_string (c_str (to_str rt (value string p))) ∷ []
  typed_calls object p o a = o
  typed_calls array p o a = array_calls p a
  typed_calls _ p o a = []

  unfoldable mutual
    -- What `writeValue` calls behind the key.
    pub value_calls : Value → List Call
    value_calls (value t p) = typed_calls t p (object_calls p) (items_calls p)

    -- `writeObject`, of `Object(val)`.
    pub object_calls : Payload → List Call
    object_calls (fields o) =
        begin_object (length_object o) ∷ (field_calls o ++ (end_container ∷ []))
    object_calls nothing = begin_object 0 ∷ end_container ∷ []
    object_calls (buffered b) = begin_object 0 ∷ end_container ∷ []
    object_calls (items a) = begin_object 0 ∷ end_container ∷ []

    pub field_calls : Object → List Call
    field_calls end = []
    field_calls (field k v o) = key_calls k ++ (value_calls v ++ field_calls o)

    -- The items of `Array(val)`.
    pub items_calls : Payload → List Call
    items_calls (items a) = begin_array (length_array a) ∷ (item_calls a ++ (end_container ∷ []))
    items_calls nothing = begin_array 0 ∷ end_container ∷ []
    items_calls (buffered b) = begin_array 0 ∷ end_container ∷ []
    items_calls (fields o) = begin_array 0 ∷ end_container ∷ []

    pub item_calls : Array → List Call
    item_calls nil = []
    item_calls (cons v a) = value_calls v ++ item_calls a

  -- `Writer::write`: only an object or an array is written.
  abbrev pub top_calls : Value → List Call
  top_calls (value object p) = object_calls p
  top_calls (value array p) = array_calls p (items_calls p)
  top_calls (value t p) = []

  unfoldable pub write : Library → Value → Option MemoryBuffer
  write lib v = let l = lib.written (top_calls v) in create rt.malloc (some l) (length l)
