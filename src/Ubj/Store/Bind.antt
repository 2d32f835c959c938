-- ===== src/Ubj/Store/Bind.antt =====
-- `Action::bindUbjToStmt` of src/ubj/store/action.cpp: which value goes to which parameter.
pub mod Order
mod Tests
use zway_lib.Base.{ℕ, suc, Bool, Option, none, some, List, [], ◌∷◌, ltb, if◌then◌else◌}
use zway_lib.Base.Text.{codes}
use zway_lib.Base.Int.{ℤ, pos}
use zway_lib.Buffer.{MemoryBuffer, bytes}
use zway_lib.Ubj.Value.{
  Runtime, UbjType, Value, value, Payload, array, object, bool_true, bool_false, int32, int64,
  float32, float64, string, buffer_of,
}
use zway_lib.Ubj.Value.Convert.{to_long, word4, word8, signed, two32, two64}
use zway_lib.Ubj.Object.{value_has_field, value_at_key}

-- A call of `sqlite3_bind_…`. A double is the bytes from which it is read.
pub data Binding : Type 0 where
  zeroblob : ℤ → Binding
  bind_null : Binding
  blob : List ℕ → Binding
  int : ℤ → Binding
  long : ℤ → Binding
  double : List ℕ → Binding
  text : List ℕ → Binding

-- The bytes that `buf->data()` points to.
abbrev held : Payload → List ℕ
held p = elim (buffer_of p) [ none ↦ [] | some b ↦ bytes b ]

abbrev blob_of : Option MemoryBuffer → Option Binding
blob_of none = none
blob_of (some b) = some (blob (bytes b))

abbrev whole_buffer : Option MemoryBuffer → Option Binding → Option Binding
whole_buffer none other = other
whole_buffer (some b) other = if ltb 0 b.m_size then some (blob (bytes b)) else other

-- `vtab`: the table is virtual. `serialize` is `Value::write`, which the format's library does.
module _ (rt : Runtime) (vtab : Bool) (serialize : Value → Option MemoryBuffer) where
  -- What an object or an array without a buffer goes to.
  unfoldable pub serialized : Value → Option Binding
  serialized v = if vtab then blob_of (serialize v) else none

  abbrev pub bind_typed : UbjType → Payload → Option Binding
  bind_typed object p =
      let v : Value = value object p in
      if value_has_field (codes "$zeroBlob") v
      then some (zeroblob (to_long rt (value_at_key (codes "$zeroBlob") v)))
      else if value_has_field (codes "$bindNull") v
      then some bind_null
      else serialized v
  bind_typed array p = whole_buffer (buffer_of p) (serialized (value array p))
  bind_typed bool_true p = some (int (pos 1))
  bind_typed bool_false p = some (int (pos 0))
  bind_typed int32 p = some (int (signed two32 (word4 (held p))))
  bind_typed int64 p = some (long (signed two64 (word8 (held p))))
  bind_typed float32 p = some (double (held p))
  bind_typed float64 p = some (double (held p))
  bind_typed string p = some (text (held p))
  bind_typed _ p = some bind_null

  -- The call for one value, if there is one.
  unfoldable pub bind_value : Value → Option Binding
  bind_value (value t p) = bind_typed t p

  abbrev pub bind_next : Option Binding → ℕ → (ℕ → List (ℕ × Binding) × ℕ) → List (ℕ × Binding) × ℕ
  bind_next none i rest = rest i
  bind_next (some b) i rest = let (calls, last) = rest (suc i) in ((suc i, b) ∷ calls, last)

  -- The calls with their parameter's number, and the number that the source returns.
  unfoldable pub bind_all : List Value → ℕ → List (ℕ × Binding) × ℕ
  bind_all [] i = ([], i)
  bind_all (v ∷ vs) i = bind_next (bind_value v) i (λ j. bind_all vs j)

  unfoldable pub bind_ubj_to_stmt : List Value → List (ℕ × Binding) × ℕ
  unfolding bind_all
  bind_ubj_to_stmt bound = bind_all bound 0
