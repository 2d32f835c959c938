-- ===== src/Ubj/Format/RoundTrip.antt =====
-- What `Reader` makes of what `Writer` wrote (src/ubj/writer.cpp, src/ubj/reader.cpp).
pub mod Calls
pub mod Values
pub mod Whole
use zway_lib.Base.{ℕ, ◌≡◌, ◌<◌, List, [], ◌∷◌, length, ◌==◌, if◌then◌else◌}
use zway_lib.Base.Int.{ℤ}
use zway_lib.Buffer.{MemoryBuffer, bytes, of_bytes}
use zway_lib.Ubj.Value.{
  UbjType, Value, value, Payload, nothing, buffered, fields, items, Object, end, field, Array, nil,
  cons, Runtime, null_type, bool_true, bool_false, string, int32, int64, float32, float64, array,
  object,
}
use zway_lib.Ubj.Value.Convert.{to_int, to_long, to_str, word, bytes4, bytes8, two32, two64}
use zway_lib.Ubj.Value.Numbers.{InWord}
use zway_lib.Ubj.Object.{IsSorted}
use zway_lib.Ubj.Format.{
  Dynamic, null_dyn, int32_dyn, int64_dyn, float32_dyn, float64_dyn, bool_dyn, string_dyn,
  object_dyn, array_dyn, buffer_dyn, other_dyn, Pairs, no_pairs, pair, Dynamics, no_items, item,
}
use zway_lib.Ubj.Format.Writer.{c_str, block}
use zway_lib.Base.{true, false}

abbrev pub NoZero : List ℕ → Type 0
NoZero [] = Unit {0}
NoZero (c ∷ s) = (0 < c) × NoZero s

-- A text that a C string holds whole, with at least one byte.
abbrev pub IsText : List ℕ → Type 0
IsText [] = ⊥
IsText (c ∷ s) = (0 < c) × NoZero s

-- A block that holds just what its type says.
abbrev pub IsBlock : MemoryBuffer → UbjType → Type 0
IsBlock b int32 = (x : ℤ) × InWord two32 x × (b ≡ of_bytes (bytes4 (word two32 x)))
IsBlock b int64 = (x : ℤ) × InWord two64 x × (b ≡ of_bytes (bytes8 (word two64 x)))
IsBlock b float32 = (l : List ℕ) × (length l ≡ 4) × (b ≡ of_bytes l)
IsBlock b float64 = (l : List ℕ) × (length l ≡ 8) × (b ≡ of_bytes l)
IsBlock b string = (s : List ℕ) × IsText s × (b ≡ of_bytes s)
IsBlock b array = (l : List ℕ) × (0 < length l) × (b ≡ of_bytes l)
IsBlock b _ = ⊥

abbrev pub IsPlain : UbjType → Type 0
IsPlain null_type = Unit {0}
IsPlain bool_true = Unit {0}
IsPlain bool_false = Unit {0}
IsPlain _ = ⊥

-- The values that the format keeps: null, booleans, integers and reals of 32 and of 64 bits, texts and
-- buffers that are not empty, arrays of such, and objects of such under keys that are texts.
abbrev mutual
  pub IsStorable : Value → Type 0
  IsStorable (value t p) = IsStorableAs p t

  pub IsStorableAs : Payload → UbjType → Type 0
  IsStorableAs nothing t = IsPlain t
  IsStorableAs (buffered b) t = IsBlock b t
  IsStorableAs (fields o) t = (t ≡ object) × IsSorted o × AllStorable o
  IsStorableAs (items a) t = (t ≡ array) × EachStorable a

  pub AllStorable : Object → Type 0
  AllStorable end = Unit {0}
  AllStorable (field k v o) = IsText k × IsStorable v × AllStorable o

  pub EachStorable : Array → Type 0
  EachStorable nil = Unit {0}
  EachStorable (cons v a) = IsStorable v × EachStorable a

module _ (rt : Runtime) where
  abbrev array_tree : Payload → Dynamics → Dynamic
  array_tree (buffered b) ds = if b.m_size == 0 then array_dyn ds else buffer_dyn (bytes b)
  array_tree nothing ds = array_dyn ds
  array_tree (fields o) ds = array_dyn ds
  array_tree (items a) ds = array_dyn ds

  abbrev typed_tree : UbjType → Payload → Pairs → Dynamics → Dynamic
  typed_tree null_type p ps ds = null_dyn
  typed_tree int32 p ps ds = int32_dyn (to_int rt (value int32 p))
  typed_tree int64 p ps ds = int64_dyn (to_long rt (value int64 p))
  typed_tree float32 p ps ds = float32_dyn (block p)
  typed_tree float64 p ps ds = float64_dyn (block p)
  typed_tree bool_true p ps ds = bool_dyn true
  typed_tree bool_false p ps ds = bool_dyn false
  typed_tree string p ps ds = string_dyn (c_str (to_str rt (value string p)))
  typed_tree object p ps ds = object_dyn ps
  typed_tree array p ps ds = array_tree p ds
  typed_tree t p ps ds = other_dyn t

  -- The tree of the format for a value.
  unfoldable mutual
    pub tree : Value → Dynamic
    tree (value t p) = typed_tree t p (pairs_of p) (items_of p)

    pub pairs_of : Payload → Pairs
    pairs_of (fields o) = pairs o
    pairs_of nothing = no_pairs
    pairs_of (buffered b) = no_pairs
    pairs_of (items a) = no_pairs

    pub pairs : Object → Pairs
    pairs end = no_pairs
    pairs (field k v o) = pair k (tree v) (pairs o)

    pub items_of : Payload → Dynamics
    items_of (items a) = dynamics a
    items_of nothing = no_items
    items_of (buffered b) = no_items
    items_of (fields o) = no_items

    pub dynamics : Array → Dynamics
    dynamics nil = no_items
    dynamics (cons v a) = item (tree v) (dynamics a)
