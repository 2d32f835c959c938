-- ===== src/Ubj/Store/Sql/Statements.antt =====
-- The marks of whole statements (src/ubj/store/action/).
use zway_lib.Base.{◌≡◌, refl, Bool, true, false, [], ◌++◌, arith, if◌then◌else◌}
use zway_lib.Base.Text.{codes, count, count-append}
use zway_lib.Ubj.Value.{Runtime, Object, Array}
use zway_lib.Ubj.Store.Sql.{
  Sql, lit, ◌⊕◌, where_part, key_list, mark_list, assign_list, values, insert_part, update_part,
  clause, insert_sql, update_sql, remove_sql, count_sql, query_sql, is_empty, Text,
  fields_to_return_part, order_part,
}
use zway_lib.Base.Int.{ℤ, pos, ltb_ℤ}
use zway_lib.Ubj.Store.Sql.Marks.{mark, NoMark, IsBalanced, ⊕-IsBalanced, where-IsBalanced}
use zway_lib.Ubj.Store.Sql.Columns.{
  key_list-marks, mark_list-marks, assign_list-marks, top_keys, order_part-count,
}

clause-IsBalanced :
    (head : Text) (s : Sql) → count mark head ≡ 0 → IsBalanced s → IsBalanced (clause head s)
clause-IsBalanced head s h b = if_balanced (is_empty s.text)
  where
    if_balanced : (c : Bool) → IsBalanced (if c then s else lit head ⊕ s)
    if_balanced true = b
    if_balanced false = ⊕-IsBalanced (lit head) s h b

-- No empty list of keys has fields, unless their only key is the empty one.
insert_part-IsBalanced :
    (o : Object) → NoMark o → is_empty (key_list o) ≡ false → IsBalanced (insert_part o)
unfolding insert_part count
insert_part-IsBalanced o n e = rw e (
    omega (
      arith,
      count-append mark (codes "(")
          (key_list o ++ (codes ") VALUES(" ++ (mark_list o ++ codes ")"))),
      count-append mark (key_list o) (codes ") VALUES(" ++ (mark_list o ++ codes ")")),
      count-append mark (codes ") VALUES(") (mark_list o ++ codes ")"),
      count-append mark (mark_list o) (codes ")"),
      key_list-marks o n,
      mark_list-marks o,
    ))

where_clause : (o : Object) → NoMark o → IsBalanced (clause (codes " WHERE ") (where_part o))
unfolding count
where_clause o n = clause-IsBalanced (codes " WHERE ") (where_part o) refl (where-IsBalanced o n)

-- The statement of every action that writes or counts has as many `?` as values are bound, if
-- neither the table nor a key has one and an object to insert has a key that is not empty.
pub statements-IsBalanced :
    (table : Text) (o query : Object)
    → count mark table ≡ 0
    → NoMark o
    → NoMark query
    → is_empty (key_list o) ≡ false
    → IsBalanced (insert_sql table o)
      × IsBalanced (update_sql table o query)
      × IsBalanced (remove_sql table query)
      × IsBalanced (count_sql table query)
unfolding insert_sql update_sql remove_sql count_sql update_part count
statements-IsBalanced table o query t n m e = (
  ⊕-IsBalanced (lit (codes "INSERT INTO " ++ (table ++ codes " "))) (insert_part o)
      (omega (arith, count-append mark table (codes " "))) (insert_part-IsBalanced o n e),
  ⊕-IsBalanced (lit (codes "UPDATE " ++ (table ++ codes " SET ")))
      (record { text = assign_list o; bound = values o }
        ⊕ clause (codes " WHERE ") (where_part query))
      (omega (arith, count-append mark table (codes " SET ")))
      (⊕-IsBalanced (record { text = assign_list o; bound = values o })
        (clause (codes " WHERE ") (where_part query)) (assign_list-marks o n)
        (where_clause query m)),
  ⊕-IsBalanced (lit (codes "DELETE FROM " ++ table)) (clause (codes " WHERE ") (where_part query))
      (omega arith) (where_clause query m),
  ⊕-IsBalanced (lit (codes "SELECT COUNT(1) FROM " ++ table))
      (clause (codes " WHERE ") (where_part query)) (omega arith) (where_clause query m),
)

if_text : (c : Bool) (s : Text) → count mark s ≡ 0 → count mark (if c then s else []) ≡ 0
unfolding count
if_text true s h = h
if_text false s h = refl

-- The statement of a query has as many `?` as values are bound, whatever its limit and offset, if
-- neither the table nor a key of its condition or order has one, nor the fields to return or a
-- printed number.
pub query_sql-IsBalanced :
    (rt : Runtime) (table : Text) (query order : Object) (wanted : Array) (limit offset : ℤ)
    → count mark table ≡ 0
    → NoMark query
    → NoMark order
    → count mark (fields_to_return_part rt wanted) ≡ 0
    → ((n : ℤ) → count mark (rt.print_int n) ≡ 0)
    → IsBalanced (query_sql rt table query order wanted limit offset)
unfolding query_sql count
query_sql-IsBalanced rt table query order wanted limit offset t n m w p =
    ⊕-IsBalanced (lit (codes "SELECT " ++ (columns ++ (codes " FROM " ++ table))))
      (clause (codes " WHERE ") (where_part query)
        ⊕ clause (codes " ORDER BY ") (lit (order_part rt order))
        ⊕ limits
        ⊕ offsets)
      selected
      (⊕-IsBalanced (clause (codes " WHERE ") (where_part query))
        (clause (codes " ORDER BY ") (lit (order_part rt order)) ⊕ limits ⊕ offsets)
        (where_clause query n)
        (⊕-IsBalanced (clause (codes " ORDER BY ") (lit (order_part rt order))) (limits ⊕ offsets)
          (clause-IsBalanced (codes " ORDER BY ") (lit (order_part rt order)) refl
            (order_part-count rt mark order refl refl (top_keys order m)))
          (⊕-IsBalanced limits offsets
            (if_text (ltb_ℤ (pos 0) limit) (codes " LIMIT " ++ rt.print_int limit)
              (omega (arith, p limit)))
            (if_text (ltb_ℤ (pos 0) offset) (codes " OFFSET " ++ rt.print_int offset)
              (omega (arith, p offset))))))
  where
    limits : Sql
    limits = lit (if ltb_ℤ (pos 0) limit then codes " LIMIT " ++ rt.print_int limit else [])

    offsets : Sql
    offsets = lit (if ltb_ℤ (pos 0) offset then codes " OFFSET " ++ rt.print_int offset else [])

    columns : Text
    columns =
        if is_empty (fields_to_return_part rt wanted)
        then codes "*"
        else fields_to_return_part rt wanted

    star : (c : Bool) → count mark (if c then codes "*" else fields_to_return_part rt wanted) ≡ 0
    star true = refl
    star false = w

    selected : count mark (codes "SELECT " ++ (columns ++ (codes " FROM " ++ table))) ≡ 0
    selected = omega (
      arith,
      count-append mark columns (codes " FROM " ++ table),
      star (is_empty (fields_to_return_part rt wanted)),
      t,
    )
