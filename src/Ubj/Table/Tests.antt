-- ===== src/Ubj/Table/Tests.antt =====
-- Runs of an index and of a table of two blobs, one of which cannot be read.
use zway_lib.Base.{arith, List, ℕ, ◌≡◌, ◌==◌, refl, true, false, none, some, [], ◌∷◌}
use zway_lib.Base.Int.{pos, negsuc}
use zway_lib.Base.Text.{codes}
use zway_lib.Buffer.{of_bytes}
use zway_lib.Ubj.Fixture.{some_runtime}
use zway_lib.Ubj.Value.{
  Value, value, buffered, Object, end, field, nil, cons, int32, of_array, of_object,
}
use zway_lib.Ubj.Value.Convert.{bytes4, to_uint}
use zway_lib.Ubj.Key.{cmp}
use zway_lib.Ubj.Object.{at_key, find, set_field, length_array}
use zway_lib.Ubj.Format.{Library, int32_dyn, object_dyn, no_pairs, pair}
use zway_lib.Ubj.Table.{
  Blobs, has_id, add_index_item, remove_index_item, update_ids, row_of, without, erase_field,
}
use zway_lib.Ubj.Table.Index.{IsIndex}
use zway_lib.Ubj.Table.Rows.{HasIds, update_ids-HasIds}
use zway_lib.Ubj.Table.Cursor.{Table, op_eq, Argument, text, integer, or_ids, constrained, x_filter}
use zway_lib.Ubj.Table.Best.{Constraint, x_best_index, Serves, x_best_index-Serves}
use zway_lib.Ubj.Table.Cursor.Scan.{scan, readable, with_row, scan-x_filter}
use zway_lib.Ubj.Table.Cursor.Equals.{scan-row_id}

abbrev id : ℕ → Value
id n = value int32 (buffered (of_bytes (bytes4 n)))

abbrev small : Object
small = field (codes "a") (of_array (cons (id 1) (cons (id 3) nil))) end

added_twice : add_index_item some_runtime small (codes "a") 3 ≡ some small
unfolding add_index_item find cmp has_id to_uint
added_twice = refl

removed_last :
    remove_index_item some_runtime
      (remove_index_item some_runtime small (codes "a") 3)
      (codes "a")
      1
    ≡ end
unfolding remove_index_item find cmp without to_uint set_field erase_field
removed_last = refl

small-IsIndex : IsIndex some_runtime small
unfolding has_id to_uint
small-IsIndex = ((tt, tt), ((refl, (refl, tt)), tt))

abbrev library : Library
library = record {
  written = λ l. [];
  read_dynamic = λ l. object_dyn (pair (codes "_$type") (int32_dyn (pos 7)) no_pairs);
}

abbrev blobs : Blobs
blobs = record {
  get_blob_ids = cons (id 1) (cons (id 2) nil);
  get_blob_data = λ n. elim (n == 2) [ true ↦ none | false ↦ some (of_bytes (n ∷ [])) ];
}

update_ids-HasIds_example :
    HasIds some_runtime library blobs 7 1 (update_ids some_runtime library blobs 7)
update_ids-HasIds_example = update_ids-HasIds some_runtime library blobs 7 1 (λ n. refl)

abbrev created : Object
created = field (codes "7") (of_array (cons (id 1) nil)) end

abbrev table : Table
table = record {
  m_columns = codes "_$type" ∷ [];
  m_ids = cons (id 1) (cons (id 2) nil);
  m_indexes = field (codes "_$type") (of_object created) end;
}

abbrev by_seven : Argument
by_seven = record { value_type = text; value_int64 = pos 0; value_text = codes "7" }

abbrev by_id : Argument
by_id = record { value_type = integer; value_int64 = pos 5; value_text = [] }

scan-x_filter_example :
    let ids = or_ids (constrained some_runtime table (pos 1) op_eq by_seven) table.m_ids in
    scan (length_array ids) (x_filter some_runtime library blobs table (pos 1) op_eq by_seven)
    ≡ some (readable some_runtime library blobs ids)
scan-x_filter_example = scan-x_filter some_runtime library blobs table (pos 1) op_eq by_seven

scan-row_id_example :
    scan 1 (x_filter some_runtime library blobs table (negsuc 0) op_eq by_id)
    ≡ some (with_row some_runtime library blobs 5 (row_of some_runtime library blobs 5) [])
scan-row_id_example = scan-row_id some_runtime library blobs table 5 [] (λ n. refl) (omega arith)

abbrev constraints : List Constraint
constraints = record { i_column = none; op = op_eq } ∷ record { i_column = some 0; op = op_eq } ∷ []

abbrev hitmap : Object
hitmap = field (codes "_$type") (id 3) end

by_column : (x_best_index some_runtime table.m_columns hitmap constraints).idx_num ≡ pos 1
unfolding x_best_index at_key find cmp to_uint
by_column = refl

x_best_index-Serves_example :
    Serves constraints (x_best_index some_runtime table.m_columns hitmap constraints)
x_best_index-Serves_example = x_best_index-Serves some_runtime table.m_columns hitmap constraints
