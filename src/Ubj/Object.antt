-- ===== src/Ubj/Object.antt =====
-- The methods of `Object` and `Array` of src/ubj/value.cpp over their `std::map` and `std::deque`.
pub mod Laws
mod Tests
use Prim.Native.Nat.{Ordering}
use zway_lib.Base.{ℕ, zero, suc, Bool, true, false, Option, none, some, ◌≡◌, if◌then◌else◌}
use zway_lib.Ubj.Key.{Key, cmp, same_key}
use zway_lib.Ubj.Value.{
  Value, value, fields, items, Object, end, field, Array, nil, cons, object, array, null,
}

-- `std::map::find`.
unfoldable pub find : Key → Object → Option Value
find k end = none
find k (field j v o) = let rest = find k o in if same_key k j then some v else rest

-- `map[k] = v`: keys stay in order.
abbrev place : Key → Value → Key → Value → Object → Object → Ordering → Object
place k v j w o rest Ordering.eq = field j v o
place k v j w o rest Ordering.lt = field k v (field j w o)
place k v j w o rest Ordering.gt = field j w rest

unfoldable pub set_field : Key → Value → Object → Object
set_field k v end = field k v end
set_field k v (field j w o) = place k v j w o (set_field k v o) (cmp k j)

abbrev pub is_some {ℓ} : {A : Type ℓ} → Option A → Bool
is_some none = false
is_some (some a) = true

unfoldable pub has_field : Key → Object → Bool
has_field k o = is_some (find k o)

abbrev pub value_or_null : Option Value → Value
value_or_null none = null
value_or_null (some v) = v

-- `operator[]` of a constant object.
unfoldable pub at_key : Key → Object → Value
at_key k o = value_or_null (find k o)

-- `operator<<` of an object: each field of `p` is set in `o`.
unfoldable pub merge : Object → Object → Object
merge o end = o
merge o (field k v p) = merge (set_field k v o) p

unfoldable pub length_object : Object → ℕ
length_object end = 0
length_object (field k v o) = suc (length_object o)

unfoldable pub length_array : Array → ℕ
length_array nil = 0
length_array (cons v a) = suc (length_array a)

-- `Array::operator<<`
unfoldable pub push_back : Array → Value → Array
push_back nil v = cons v nil
push_back (cons w a) v = cons w (push_back a v)

unfoldable pub get_item : Array → ℕ → Option Value
get_item nil i = none
get_item (cons v a) zero = some v
get_item (cons v a) (suc i) = get_item a i

-- `Value::hasField` and the two `Value::operator[]`, which give null for another kind of value.
unfoldable pub value_has_field : Key → Value → Bool
value_has_field k (value object (fields o)) = has_field k o
value_has_field k _ = false

unfoldable pub value_at_key : Key → Value → Value
value_at_key k (value object (fields o)) = value_or_null (find k o)
value_at_key k _ = null

unfoldable pub value_at : ℕ → Value → Value
value_at i (value array (items a)) = value_or_null (get_item a i)
value_at i _ = null

unfoldable pub num_items : Value → ℕ
num_items (value object (fields o)) = length_object o
num_items (value array (items a)) = length_array a
num_items _ = 0

-- Every key of the object comes behind `k`, and each key behind the one before.
abbrev pub Behind : Key → Object → Type 0
Behind k end = Unit {0}
Behind k (field j v o) = (cmp k j ≡ Ordering.lt) × Behind k o

abbrev pub IsSorted : Object → Type 0
IsSorted end = Unit {0}
IsSorted (field k v o) = Behind k o × IsSorted o
