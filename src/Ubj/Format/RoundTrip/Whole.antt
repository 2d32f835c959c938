-- ===== src/Ubj/Format/RoundTrip/Whole.antt =====
-- `Value::write` and `Value::read` (src/ubj/writer.cpp, src/ubj/reader.cpp) over the whole block.
use zway_lib.Base.{ℕ, ◌≡◌, ◌<◌, ◌⊎◌, refl, true, some, length, arith, ◌==◌, false}
use zway_lib.Buffer.{MemoryBuffer, bytes, of_bytes}
use zway_lib.Ubj.Value.{
  Value, value, nothing, buffered, fields, items, Runtime, m_type, null, object, array,
}
use zway_lib.Ubj.Format.{Library, Dynamic, spell}
use zway_lib.Ubj.Format.Writer.{write, top_calls, value_calls}
use zway_lib.Ubj.Format.Reader.{read, is_container}
use zway_lib.Ubj.Format.RoundTrip.{IsStorable, tree}
use zway_lib.Ubj.Format.RoundTrip.Calls.{value_calls-tree}
use zway_lib.Ubj.Format.RoundTrip.Values.{read_dynamic-tree, block_lem}

-- An object or an array.
abbrev pub IsTop : Value → Type 0
IsTop v = (m_type v ≡ object) ⊎ (m_type v ≡ array)

-- What the library reads of what it wrote of a tree: the tree, from at least one byte.
abbrev pub Keeps : Library → Dynamic → Type 0
Keeps lib d = (0 < length (lib.written (spell d))) × (lib.read_dynamic (lib.written (spell d)) ≡ d)

pub top_calls_lem : (rt : Runtime) (v : Value) → IsTop v → top_calls rt v ≡ value_calls rt v
unfolding value_calls
top_calls_lem rt (value object p) h = refl
top_calls_lem rt (value array p) h = refl
top_calls_lem rt (value t p) h = ground arith

tree-is_container : (rt : Runtime) (v : Value) → IsTop v → is_container (tree rt v) ≡ true
unfolding tree
tree-is_container rt (value object p) h = refl
tree-is_container rt (value array (buffered b)) h = ground arith
tree-is_container rt (value array nothing) h = refl
tree-is_container rt (value array (fields o)) h = refl
tree-is_container rt (value array (items a)) h = refl
tree-is_container rt (value t p) h = ground arith

-- While memory lasts, a storable value that is an object or an array is written, and what `read`
-- makes of the block that was written is the value again: every field of its objects under its key,
-- in order, every item of its arrays, and every number, text and buffer in it. The library is one
-- that gives back the tree it was told to write.
pub read-write_value :
    (rt : Runtime) (lib : Library) (v : Value)
    → ((n : ℕ) → rt.malloc n ≡ true)
    → IsStorable v
    → IsTop v
    → Keeps lib (tree rt v)
    → (b : MemoryBuffer) × (write rt lib v ≡ some b) × (read rt lib null (bytes b) ≡ some v)
unfolding write read
read-write_value rt lib v memory one top (full, kept) =
    rw
      (
        top_calls_lem rt v top,
        value_calls-tree rt v one,
        block_lem rt memory (lib.written (spell (tree rt v))),
      )
      (
        of_bytes (lib.written (spell (tree rt v))),
        refl,
        rw (kept, full_lem, tree-is_container rt v top, read_dynamic-tree rt memory v one) refl,
      )
  where
    full_lem : (length (lib.written (spell (tree rt v))) == 0) ≡ false
    full_lem = ground (arith, full)
