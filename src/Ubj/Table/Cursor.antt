-- ===== src/Ubj/Table/Cursor.antt =====
-- The cursor of a virtual table (`xOpen`, `xFilter`, `xEof`, `xNext`, `xRowid` of
-- src/ubj/store/module.cpp), and SQLite's walk over it.
pub mod Scan
pub mod Equals
use Prim.Native.Nat.{compare, Ordering}
use zway_lib.Base.{
  ℕ, zero, suc, ◌+◌, Bool, true, false, not, Option, none, some, List, [], ◌∷◌, ltb, if◌then◌else◌,
  length,
}
use zway_lib.Base.Int.{ℤ, pos, negsuc}
use zway_lib.Ubj.Key.{Key, cmp, is_eq}
use zway_lib.Ubj.Value.{Runtime, Object, end, field, Array, nil, cons, to_object, to_array}
use zway_lib.Ubj.Value.Convert.{of_ulong, of_string, to_int, to_uint, to_str, word, two64}
use zway_lib.Ubj.Object.{find, value_or_null}
use zway_lib.Ubj.Format.{Library}
use zway_lib.Ubj.Table.{Blobs, row_of}

-- The state of a `VirtualTableModule` that the cursor reads.
pub record Table : Type 0 where
  pub m_columns : List Key
  pub m_ids : Array
  pub m_indexes : Object

-- `SQLITE_INDEX_CONSTRAINT_…`; `pattern` is MATCH, LIKE, GLOB or REGEXP.
pub data Op : Type 0 where
  op_eq op_gt op_le op_lt op_ge pattern other_op : Op

pub data SqlType : Type 0 where
  integer text other_type : SqlType

-- `sqlite3_value_type`, `sqlite3_value_int64` and `sqlite3_value_text` of an argument.
pub record Argument : Type 0 where
  pub value_type : SqlType
  pub value_int64 : ℤ
  pub value_text : Key

pub record Cursor : Type 0 where
  pub row_ids : List ℕ
  pub rows : List Object
  pub pos : ℕ

abbrev is_lt : Ordering → Bool
is_lt Ordering.lt = true
is_lt Ordering.eq = false
is_lt Ordering.gt = false

abbrev is_gt : Ordering → Bool
is_gt Ordering.lt = false
is_gt Ordering.eq = false
is_gt Ordering.gt = true

-- Whether `val op value` holds, by how `val` compares to `value`.
abbrev pub satisfies : Op → Ordering → Bool
satisfies op_eq c = is_eq c
satisfies op_gt c = is_gt c
satisfies op_le c = not (is_gt c)
satisfies op_lt c = is_lt c
satisfies op_ge c = not (is_lt c)
satisfies pattern c = false
satisfies other_op c = false

abbrev pub append_items : Array → Array → Array
append_items nil b = b
append_items (cons v a) b = cons v (append_items a b)

-- The ids under all keys that a test accepts, in the order of the keys.
unfoldable pub selected_ids : (Key → Bool) → Object → Array
selected_ids test end = nil
selected_ids test (field k v o) =
    let rest = selected_ids test o in if test k then append_items (to_array v) rest else rest

abbrev pub or_ids : Array → Array → Array
or_ids nil b = b
or_ids (cons v a) b = cons v a

abbrev is_pattern : Op → Bool
is_pattern pattern = true
is_pattern _ = false

-- `m_columns[i]`; SQLite passes a column that there is.
abbrev pub column_at : ℕ → List Key → Key
column_at i [] = []
column_at zero (k ∷ ks) = k
column_at (suc i) (k ∷ ks) = column_at i ks

abbrev pub at_index : Object → Key → Array
at_index index k = to_array (value_or_null (find k index))

module _ (rt : Runtime) where
  -- The keys of an index are texts, which `toInt` does not convert.
  abbrev pub by_integer : Object → Op → ℤ → Array
  by_integer index op x =
      or_ids
        (selected_ids
          (λ k. satisfies op (compare (word two64 (to_int rt (of_string rt k))) (word two64 x)))
          index)
        (at_index index (to_str rt (of_ulong rt (word two64 x))))

  abbrev pub by_text : Object → Op → Key → Array
  by_text index op s =
      if is_pattern op
      then nil
      else or_ids (selected_ids (λ k. satisfies op (cmp k s)) index) (at_index index s)

  abbrev pub by_index : Object → Op → Argument → SqlType → Array
  by_index index op arg integer = by_integer index op arg.value_int64
  by_index index op arg text = by_text index op arg.value_text
  by_index index op arg other_type = nil

  -- The ids by `idxNum`: -1 for the row's id, 0 for no index, and a column from 1 on.
  abbrev pub constrained : Table → ℤ → Op → Argument → Array
  constrained t (negsuc zero) op_eq arg = cons (of_ulong rt (word two64 arg.value_int64)) nil
  constrained t (negsuc zero) _ arg = nil
  constrained t (negsuc (suc n)) op arg = nil
  constrained t (pos zero) op arg = nil
  constrained t (pos (suc i)) op arg =
      by_index (to_object (value_or_null (find (column_at i t.m_columns) t.m_indexes))) op arg
        arg.value_type

  module _ (lib : Library) (store : Blobs) where
    abbrev kept : ℕ → Option Object → Cursor → Cursor
    kept id none c = c
    kept id (some o) c = record { row_ids = id ∷ c.row_ids; rows = o ∷ c.rows; pos = 0 }

    -- The rows of the ids whose blob can be read.
    unfoldable pub load : Array → Cursor
    load nil = record { row_ids = []; rows = []; pos = 0 }
    load (cons v ids) = kept (to_uint rt v) (row_of rt lib store (to_uint rt v)) (load ids)

    unfoldable pub x_filter : Table → ℤ → Op → Argument → Cursor
    unfolding load
    x_filter t idx_num op arg = load (or_ids (constrained t idx_num op arg) t.m_ids)

unfoldable pub x_eof : Cursor → Bool
x_eof c = not (ltb c.pos (length c.rows))

unfoldable pub x_next : Cursor → Cursor
x_next c = record c { pos = c.pos + 1 }

abbrev pub nth {ℓ} : {A : Type ℓ} → ℕ → List A → Option A
nth i [] = none
nth zero (x ∷ xs) = some x
nth (suc i) (x ∷ xs) = nth i xs

-- `none`: `SQLITE_ERROR`
unfoldable pub x_rowid : Cursor → Option ℕ
x_rowid c = nth c.pos c.row_ids

-- `cursor->rows[cursor->pos]`, of which `xColumn` gives a field.
unfoldable pub current_row : Cursor → Option Object
current_row c = nth c.pos c.rows
