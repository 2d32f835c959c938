-- ===== src/Ubj/Value/Convert.antt =====
-- The constructors of `Value` from texts and numbers, and its conversions (src/ubj/value.cpp).
use zway_lib.Base.{
  ℕ, suc, ◌+◌, ◌-◌, ◌*◌, ◌/◌, ◌%◌, Bool, true, false, not, Option, none, some, List, [], ◌∷◌, ltb,
  ◌==◌, if◌then◌else◌, length,
}
use zway_lib.Base.Int.{ℤ, pos, negsuc}
use zway_lib.Buffer.{MemoryBuffer, Pointer, create, write, bytes}
use zway_lib.Ubj.Value.{
  UbjType, Value, value, buffered, Runtime, m_type, null, buffer_of, buffer, bool_true, bool_false,
  string, int32, int64, float32, float64,
}

-- `strlen`: up to the first zero byte.
unfoldable pub strlen : List ℕ → ℕ
strlen [] = 0
strlen (c ∷ s) = elim (c == 0) [ true ↦ 0 | false ↦ suc (strlen s) ]

-- A two's complement word of so many values, and the integer that it stands for.
abbrev pub word : ℕ → ℤ → ℕ
word m (pos n) = n % m
word m (negsuc n) = m - 1 - n % m

abbrev pub signed : ℕ → ℕ → ℤ
signed m w = if ltb (w + w) m then pos w else negsuc (m - 1 - w)

abbrev pub two32 : ℕ
two32 = 4294967296

abbrev pub two64 : ℕ
two64 = 18446744073709551616

-- Words in memory, low byte first.
abbrev pub bytes4 : ℕ → List ℕ
bytes4 n = n % 256 ∷ (n / 256) % 256 ∷ (n / 65536) % 256 ∷ (n / 16777216) % 256 ∷ []

abbrev pub bytes8 : ℕ → List ℕ
bytes8 n =
    n % 256
    ∷ (n / 256) % 256
    ∷ (n / 65536) % 256
    ∷ (n / 16777216) % 256
    ∷ (n / 4294967296) % 256
    ∷ (n / 1099511627776) % 256
    ∷ (n / 281474976710656) % 256
    ∷ (n / 72057594037927936) % 256
    ∷ []

-- The word that a block begins with. A value's block is as long as its type says.
abbrev pub word4 : List ℕ → ℕ
word4 (a ∷ b ∷ c ∷ d ∷ l) = a + 256 * b + 65536 * c + 16777216 * d
word4 l = 0

abbrev pub word8 : List ℕ → ℕ
word8 (a ∷ b ∷ c ∷ d ∷ e ∷ f ∷ g ∷ h ∷ l) =
    a
    + 256 * b
    + 65536 * c
    + 16777216 * d
    + 4294967296 * e
    + 1099511627776 * f
    + 281474976710656 * g
    + 72057594037927936 * h
word8 l = 0

abbrev with_buffer : UbjType → Option MemoryBuffer → Option Value
with_buffer t none = none
with_buffer t (some b) = some (value t (buffered b))

abbrev first {ℓ} : {A : Type ℓ} → Option (MemoryBuffer × A) → Option MemoryBuffer
first none = none
first (some (b, _)) = some b

abbrev write_into : Option MemoryBuffer → List ℕ → ℕ → Option MemoryBuffer
write_into none s l = none
write_into (some zeroed) s l = first (write zeroed (some s) l 0)

module _ (rt : Runtime) where
  -- `setString`: `none` is `false`, which leaves the value as it was. `s` is what `str` points to.
  unfoldable pub set_string : Value → Pointer → ℕ → Option Value
  set_string v none len = none
  set_string v (some s) len =
      let l = if ltb 0 len then len else strlen s in
      if l == 0 then none else with_buffer string (write_into (create rt.malloc none l) s l)

  unfoldable pub set_buffer : Value → List ℕ → ℕ → UbjType → Option Value
  unfolding set_string
  set_buffer v s size string = set_string v (some s) size
  set_buffer v s size type = with_buffer type (create rt.malloc (some s) size)

  abbrev or_else : Value → Option Value → Value
  or_else v none = v
  or_else v (some w) = w

  -- `Value(const std::string &)`. `c_str()` ends with a zero byte.
  unfoldable pub of_string : List ℕ → Value
  unfolding set_string strlen
  of_string s = or_else null (set_string null (some s) (length s))

  -- The number constructors. The source leaves the type undefined where the allocation fails; here
  -- such a value is null.
  unfoldable pub of_int : ℤ → Value
  unfolding set_buffer
  of_int x = or_else null (set_buffer null (bytes4 (word two32 x)) 4 int32)

  unfoldable pub of_long : ℤ → Value
  unfolding set_buffer
  of_long x = or_else null (set_buffer null (bytes8 (word two64 x)) 8 int64)

  unfoldable pub of_uint : ℕ → Value
  unfolding set_buffer
  of_uint n = or_else null (set_buffer null (bytes4 n) 4 int32)

  unfoldable pub of_ulong : ℕ → Value
  unfolding set_buffer
  of_ulong n = or_else null (set_buffer null (bytes8 n) 8 int64)

  int_in : UbjType → List ℕ → ℤ
  int_in int32 d = signed two32 (word4 d)
  int_in int64 d = signed two32 (word8 d % two32)
  int_in float32 d = rt.float_to_int d
  int_in float64 d = rt.double_to_int d
  int_in bool_true d = pos 1
  int_in bool_false d = pos 0
  int_in _ d = pos 0

  unfoldable pub to_int : Value → ℤ
  unfolding int_in
  to_int v = elim (buffer v) [ none ↦ pos 0 | some b ↦ int_in (m_type v) (bytes b) ]

  long_in : UbjType → List ℕ → ℤ
  long_in int32 d = signed two32 (word4 d)
  long_in int64 d = signed two64 (word8 d)
  long_in float32 d = rt.float_to_long d
  long_in float64 d = rt.double_to_long d
  long_in bool_true d = pos 1
  long_in bool_false d = pos 0
  long_in _ d = pos 0

  unfoldable pub to_long : Value → ℤ
  unfolding long_in
  to_long v = elim (buffer v) [ none ↦ pos 0 | some b ↦ long_in (m_type v) (bytes b) ]

  -- The conversions of the results to unsigned words.
  unfoldable pub to_uint : Value → ℕ
  unfolding to_int
  to_uint v = word two32 (to_int v)

  unfoldable pub to_ulong : Value → ℕ
  unfolding to_long
  to_ulong v = word two64 (to_long v)

  bool_in : UbjType → List ℕ → Bool
  bool_in int32 d = not (word4 d == 0)
  bool_in float32 d = not (rt.float_is_zero d)
  bool_in float64 d = not (rt.double_is_zero d)
  bool_in _ d = false

  unfoldable pub to_bool : Value → Bool
  unfolding bool_in
  to_bool (value bool_true p) = true
  to_bool (value bool_false p) = false
  to_bool (value t p) = elim (buffer_of p) [ none ↦ false | some b ↦ bool_in t (bytes b) ]

  str_in : UbjType → MemoryBuffer → List ℕ
  unfolding int_in long_in
  str_in string b = bytes b
  str_in int32 b = rt.print_int (int_in int32 (bytes b))
  str_in int64 b = rt.print_int (long_in int64 (bytes b))
  str_in float32 b = rt.print_float (bytes b)
  str_in float64 b = rt.print_double (bytes b)
  str_in _ b = []

  unfoldable pub to_str : Value → List ℕ
  unfolding str_in
  to_str v = elim (buffer v) [ none ↦ [] | some b ↦ str_in (m_type v) b ]
