-- ===== src/Ubj/Table.antt =====
-- `VirtualTableModule` of src/ubj/store/module.cpp: a table whose rows are objects in a table of
-- blobs, with an index from a column's text to the ids of the rows.
-- The blobs are a record of what `getBlobIds` and `getBlobData` of the store return.
pub mod Cursor
pub mod Best
pub mod Index
pub mod Rows
mod Tests
use zway_lib.Base.{ℕ, Bool, true, false, Option, none, some, ◌==◌, ◌||◌, if◌then◌else◌}
use zway_lib.Base.Text.{codes}
use zway_lib.Buffer.{MemoryBuffer, bytes}
use zway_lib.Ubj.Key.{Key, same_key}
use zway_lib.Ubj.Value.{
  Runtime, Value, value, items, Object, end, field, Array, nil, cons, array, null, of_array,
  to_object, to_array,
}
use zway_lib.Ubj.Value.Convert.{of_uint, to_uint, to_str}
use zway_lib.Ubj.Object.{find, set_field, value_or_null, push_back}
use zway_lib.Ubj.Format.{Library}
use zway_lib.Ubj.Format.Reader.{read}

-- `std::map::erase`
unfoldable pub erase_field : Key → Object → Object
erase_field k end = end
erase_field k (field j v o) =
    let rest = erase_field k o in if same_key k j then o else field j v rest

-- What the store answers.
pub record Blobs : Type 0 where
  pub get_blob_ids : Array
  pub get_blob_data : ℕ → Option MemoryBuffer

abbrev pub is_empty : Array → Bool
is_empty nil = true
is_empty (cons v a) = false

module _ (rt : Runtime) where
  -- Whether an id is among the items; an item of -1 is the id 2^32 - 1.
  unfoldable pub has_id : ℕ → Array → Bool
  has_id id nil = false
  has_id id (cons v a) = (to_uint rt v == id) || has_id id a

  -- The entry of an index: its type is array, and it has items.
  abbrev pub in_entry : ℕ → Option Value → Bool
  in_entry id (some (value array (items a))) = has_id id a
  in_entry id _ = false

  unfoldable pub has_index_item : Object → Key → ℕ → Bool
  has_index_item index val id = in_entry id (find val index)

  -- `none`: the entry is no array, and the null pointer of its items is used.
  abbrev pub appended : Object → Key → ℕ → Option Value → Option Object
  appended index val id (some (value t (items a))) =
      some (set_field val (value t (items (push_back a (of_uint rt id)))) index)
  appended index val id _ = none

  abbrev pub added : Object → Key → ℕ → Option Value → Option Object
  added index val id none = some (set_field val (of_array (push_back nil (of_uint rt id))) index)
  added index val id (some v) =
      if in_entry id (some v) then some index else appended index val id (some v)

  unfoldable pub add_index_item : Object → Key → ℕ → Option Object
  add_index_item index val id = added index val id (find val index)

  unfoldable pub without : ℕ → Array → Array
  without id nil = nil
  without id (cons v a) =
      let rest = without id a in if to_uint rt v == id then rest else cons v rest

  abbrev pub removed : Object → Key → ℕ → Option Value → Object
  removed index val id (some (value array (items a))) =
      let rest = set_field val (of_array (without id a)) index in
      if is_empty (without id a) then erase_field val rest else rest
  removed index val id _ = erase_field val index

  unfoldable pub remove_index_item : Object → Key → ℕ → Object
  remove_index_item index val id = removed index val id (find val index)

  module _ (lib : Library) (store : Blobs) where
    abbrev pub read_row : Option MemoryBuffer → Option Object
    read_row none = none
    read_row (some b) = elim (read rt lib null (bytes b)) [
      | none ↦ none
      | some v ↦ some (to_object v)
    ]

    -- The object of a blob, if it is there and can be read.
    unfoldable pub row_of : ℕ → Option Object
    row_of id = read_row (store.get_blob_data id)

    abbrev pub text_of : Option Value → Option Key
    text_of none = none
    text_of (some v) = some (to_str rt v)

    abbrev pub column_in : Key → Option Object → Option Key
    column_in column none = none
    column_in column (some o) = text_of (find column o)

    -- The text of a blob's column.
    unfoldable pub column_of : Key → ℕ → Option Key
    column_of column id = column_in column (row_of id)

    abbrev pub indexed : Object → ℕ → Option Key → Option Object
    indexed res id none = some res
    indexed res id (some val) = add_index_item res val id

    abbrev pub then_index : Option Object → (Object → Option Object) → Option Object
    then_index none f = none
    then_index (some res) f = f res

    -- `createIndex` from the ids that are left.
    unfoldable pub index_rest : Key → Array → Object → Option Object
    index_rest column nil res = some res
    index_rest column (cons v ids) res =
        then_index (indexed res (to_uint rt v) (column_of column (to_uint rt v)))
          (λ next. index_rest column ids next)

    unfoldable pub create_index : Key → Array → Option Object
    unfolding index_rest
    create_index column ids =
        index_rest column (if is_empty ids then store.get_blob_ids else ids) end

    -- `updateIds`: the ids of the blobs with the table's type.
    unfoldable pub update_ids : ℕ → Option Array
    unfolding create_index
    update_ids type = elim (create_index (codes "_$type") store.get_blob_ids) [
      | none ↦ none
      | some index ↦ some (to_array (value_or_null (find (to_str rt (of_uint rt type)) index)))
    ]
