-- ===== src/Ubj/Value.antt =====
-- include/Zway/ubj/value.h and src/ubj/value.cpp: the data of `Value`, `Object` and `Array`,
-- what tells them apart, and copies.
-- At most one of `m_buffer`, `m_obj` and `m_arr` is set. An object is its `std::map` in the order of
-- the keys, an array its `std::deque`. Copies of a `Value` share what the pointers point to; the model
-- holds values, so it does not follow a change through the reference that `obj()` or `arr()` gives.
pub mod Convert
pub mod Numbers
pub mod Copies
mod Tests
use zway_lib.Base.{ℕ, ◌≡◌, ◌<◌, Bool, true, false, Option, none, some, List, if◌then◌else◌}
use zway_lib.Base.Int.{ℤ}
use zway_lib.Buffer.{MemoryBuffer, copy, IsValid}

-- `UBJ_TYPE`, of the format's library.
pub data UbjType : Type 0 where
  mixed null_type noop bool_true bool_false char string high_precision : UbjType
  int8 uint8 int16 int32 int64 float32 float64 array object : UbjType

mutual
  pub data Value : Type 0 where
    value : UbjType → Payload → Value

  -- Which of the three pointers is set.
  pub data Payload : Type 0 where
    nothing : Payload
    buffered : MemoryBuffer → Payload
    fields : Object → Payload
    items : Array → Payload

  pub data Object : Type 0 where
    end : Object
    field : List ℕ → Value → Object → Object

  pub data Array : Type 0 where
    nil : Array
    cons : Value → Array → Array

-- What the C++ language and its library do with numbers: floats are their bytes, `m_data` of a value.
-- `print` is `std::stringstream`'s.
pub record Runtime : Type 0 where
  pub malloc : ℕ → Bool
  pub float_to_int : List ℕ → ℤ
  pub float_to_long : List ℕ → ℤ
  pub double_to_int : List ℕ → ℤ
  pub double_to_long : List ℕ → ℤ
  pub float_is_zero : List ℕ → Bool
  pub double_is_zero : List ℕ → Bool
  pub print_int : ℤ → List ℕ
  pub print_float : List ℕ → List ℕ
  pub print_double : List ℕ → List ℕ

abbrev pub m_type : Value → UbjType
m_type (value t p) = t

abbrev pub payload : Value → Payload
payload (value t p) = p

abbrev pub null : Value
null = value null_type nothing

abbrev pub buffer_of : Payload → Option MemoryBuffer
buffer_of nothing = none
buffer_of (buffered b) = some b
buffer_of (fields o) = none
buffer_of (items a) = none

-- `buffer()`
abbrev pub buffer : Value → Option MemoryBuffer
buffer v = buffer_of (payload v)

-- `bufferSize()`
unfoldable pub buffer_size : Value → ℕ
buffer_size v = elim (buffer v) [ none ↦ 0 | some b ↦ b.m_size ]

-- The constructors that only set pointers.
abbrev pub of_object : Object → Value
of_object o = value object (fields o)

abbrev pub of_array : Array → Value
of_array a = value array (items a)

abbrev pub of_bool : Bool → Value
of_bool b = value (if b then bool_true else bool_false) nothing

unfoldable pub of_buffer : Option MemoryBuffer → Value
of_buffer none = null
of_buffer (some b) = value array (buffered b)

unfoldable pub is_null : Value → Bool
is_null (value null_type p) = true
is_null (value _ p) = false

unfoldable pub is_object : Value → Bool
is_object (value object (fields o)) = true
is_object _ = false

unfoldable pub is_array : Value → Bool
is_array (value array (items a)) = true
is_array _ = false

-- `Object(const Value &)`, also `toObject`: the type is not looked at.
unfoldable pub to_object : Value → Object
to_object (value t (fields o)) = o
to_object (value t nothing) = end
to_object (value t (buffered b)) = end
to_object (value t (items a)) = end

unfoldable pub to_array : Value → Array
to_array (value t (items a)) = a
to_array (value t nothing) = nil
to_array (value t (buffered b)) = nil
to_array (value t (fields o)) = nil

module _ (rt : Runtime) where
  -- A copy of a value's own buffer: null where it is, or where it is empty.
  abbrev copied_buffer : Option MemoryBuffer → Payload
  copied_buffer none = nothing
  copied_buffer (some c) = buffered c

  -- `Object::copy` inserts into a new map in the order of the keys, which puts each field last.
  unfoldable mutual
    -- `copy()`: objects and arrays are copied item by item, whatever else there is by type and buffer.
    pub copy_value : Value → Value
    copy_value (value t p) = copy_payload p t

    pub copy_payload : Payload → UbjType → Value
    copy_payload nothing t = value t nothing
    copy_payload (buffered b) t = value t (copied_buffer (copy rt.malloc b))
    copy_payload (fields o) t = elim t [
      | object ↦ of_object (copy_object o)
      | other ↦ value other nothing
    ]
    copy_payload (items a) t = elim t [
      | array ↦ of_array (copy_array a)
      | other ↦ value other nothing
    ]

    pub copy_object : Object → Object
    copy_object end = end
    copy_object (field k v o) = field k (copy_value v) (copy_object o)

    pub copy_array : Array → Array
    copy_array nil = nil
    copy_array (cons v a) = cons (copy_value v) (copy_array a)

-- A value as the constructors and the reader make it: an object has type object and an array type
-- array, and a buffer has its block and at least one byte.
abbrev mutual
  pub IsWhole : Value → Type 0
  IsWhole (value t p) = IsWholeAs p t

  pub IsWholeAs : Payload → UbjType → Type 0
  IsWholeAs nothing t = Unit {0}
  IsWholeAs (buffered b) t = IsValid b × (0 < b.m_size)
  IsWholeAs (fields o) t = (t ≡ object) × AllWhole o
  IsWholeAs (items a) t = (t ≡ array) × EachWhole a

  pub AllWhole : Object → Type 0
  AllWhole end = Unit {0}
  AllWhole (field k v o) = IsWhole v × AllWhole o

  pub EachWhole : Array → Type 0
  EachWhole nil = Unit {0}
  EachWhole (cons v a) = IsWhole v × EachWhole a
