-- ===== src/Ubj/Store/Sql/Tests.antt =====
-- Statements over a table `t`.
use zway_lib.Base.{◌≡◌, refl, true}
use zway_lib.Base.Text.{codes, count}
use zway_lib.Ubj.Key.{cmp}
use zway_lib.Ubj.Value.{Value, Object, field, end, cons, nil, of_bool, of_array, of_object}
use zway_lib.Ubj.Object.{find}
use zway_lib.Ubj.Store.Sql.{
  ◌⊕◌, equals, ops, first_op, op_part, where_part, key_list, mark_list, insert_part, insert_sql,
  update_sql, remove_sql, count_sql,
}
use zway_lib.Ubj.Store.Sql.Marks.{NoMark, IsBalanced}
use zway_lib.Ubj.Store.Sql.Statements.{statements-IsBalanced}

abbrev yes : Value
yes = of_bool true

abbrev row : Object
row = field (codes "id") yes (field (codes "name") yes end)

-- `{"$or": [{"id": true}, {"name": {"$like": true}}]}`
abbrev either : Object
either =
    field (codes "$or")
      (of_array (
        cons (of_object (field (codes "id") yes end)) (
          cons (of_object (field (codes "name") (of_object (field (codes "$like") yes end)) end))
            nil)))
      end

where_row : (where_part row).text ≡ codes "id=? AND name=?"
unfolding where_part equals ◌⊕◌
where_row = refl

where_either : (where_part either).text ≡ codes "(id=? OR name like ?)"
unfolding where_part equals ◌⊕◌ op_part first_op ops find cmp
where_either = refl

insert_row : (insert_sql (codes "t") row).text ≡ codes "INSERT INTO t (id,name) VALUES(?,?)"
unfolding insert_sql insert_part key_list mark_list ◌⊕◌
insert_row = refl

no_mark : NoMark row
unfolding count
no_mark = (refl, tt, (refl, tt, tt))

either-NoMark : NoMark either
unfolding count
either-NoMark = (refl, ((refl, tt, tt), ((refl, (refl, tt, tt), tt), tt)), tt)

statements-IsBalanced_example :
    IsBalanced (insert_sql (codes "t") row)
    × IsBalanced (update_sql (codes "t") row either)
    × IsBalanced (remove_sql (codes "t") either)
    × IsBalanced (count_sql (codes "t") either)
statements-IsBalanced_example =
    statements-IsBalanced (codes "t") row either (unfold count in refl) no_mark either-NoMark
      (unfold key_list in refl)
