-- ===== src/Ubj/Value/Copies.antt =====
-- `Value::copy`, `Object::copy` and `Array::copy` of src/ubj/value.cpp.
use zway_lib.Base.{ℕ, ◌≡◌, refl, ap, ap₂, true}
use zway_lib.Buffer.Laws.{copy_lem}
use zway_lib.Ubj.Value.{
  Runtime, Value, value, Payload, nothing, buffered, fields, items, Object, end, field, Array, nil,
  cons, UbjType, of_object, of_array, copy_value, copy_payload, copy_object, copy_array, IsWhole,
  IsWholeAs, AllWhole, EachWhole,
}

module _ (rt : Runtime) (memory : (n : ℕ) → rt.malloc n ≡ true) where
  mutual
    unfolding copy_value

    value_copied : (v : Value) → IsWhole v → copy_value rt v ≡ v
    value_copied (value t p) w = payload_copied p t w

    payload_copied : (p : Payload) (t : UbjType) → IsWholeAs p t → copy_payload rt p t ≡ value t p
    payload_copied nothing t w = refl
    payload_copied (buffered b) t w = rw (copy_lem rt.malloc b w.0 (memory b.m_size) w.1)
    payload_copied (fields o) t w = rw w.0 (ap of_object (object_copied o w.1))
    payload_copied (items a) t w = rw w.0 (ap of_array (array_copied a w.1))

    object_copied : (o : Object) → AllWhole o → copy_object rt o ≡ o
    object_copied end w = refl
    object_copied (field k v o) w = ap₂ (field k) (value_copied v w.0) (object_copied o w.1)

    array_copied : (a : Array) → EachWhole a → copy_array rt a ≡ a
    array_copied nil w = refl
    array_copied (cons v a) w = ap₂ cons (value_copied v w.0) (array_copied a w.1)

-- While memory lasts, the copy of a value is equal to it, at every depth, if objects have the
-- type of objects, arrays that of arrays, and buffers are valid and not empty.
pub copy_value_lem :
    (rt : Runtime) (v : Value) → ((n : ℕ) → rt.malloc n ≡ true) → IsWhole v → copy_value rt v ≡ v
copy_value_lem rt v memory w = value_copied rt memory v w
