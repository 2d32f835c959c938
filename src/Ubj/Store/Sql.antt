-- ===== src/Ubj/Store/Sql.antt =====
-- src/ubj/store/action.cpp: the parts of SQL statements that an action builds from objects, and the
-- values that it binds, and the constructors of src/ubj/store/action/ that put statements together.
-- A builder appends to its result and to `m_bound`; here it returns both additions. A recursive
-- builder's string is that of the source, which it appends at the place of the call.
pub mod Marks
pub mod Columns
pub mod Statements
mod Tests
use zway_lib.Base.{
  ℕ, ◌+◌, Bool, true, false, Option, none, some, List, [], ◌∷◌, ◌++◌, if◌then◌else◌,
}
use zway_lib.Base.Text.{codes}
use zway_lib.Base.Int.{ℤ, pos, ltb_ℤ}
use zway_lib.Ubj.Key.{Key, same_key}
use zway_lib.Ubj.Value.{
  Runtime, UbjType, Value, value, Payload, nothing, buffered, fields, items, Object, end, field,
  Array, nil, cons, array, object,
}
use zway_lib.Ubj.Value.Convert.{to_str, to_int}
use zway_lib.Ubj.Object.{find}

abbrev pub Text : Type 0
Text = List ℕ

-- What a builder adds to its string and to `m_bound`.
pub record Sql : Type 0 where
  pub text : Text
  pub bound : List Value

abbrev pub silent : Sql
silent = record { text = []; bound = [] }

abbrev pub lit : Text → Sql
lit s = record { text = s; bound = [] }

infixr 60 ◌⊕◌
unfoldable pub ◌⊕◌ : Sql → Sql → Sql
a ⊕ b = record { text = a.text ++ b.text; bound = a.bound ++ b.bound }

-- `key=?`
unfoldable pub equals : Key → Value → Sql
equals k v = record { text = k ++ codes "=?"; bound = v ∷ [] }

abbrev pub op_with : Key → Text → Option Value → Sql → Sql
op_with k op none other = other
op_with k op (some v) other = record { text = k ++ op; bound = v ∷ [] }

-- The map `ops`, in its order.
unfoldable pub ops : List (Key × Text)
ops =
    (codes "$ge", codes ">=?")
    ∷ (codes "$gt", codes ">?")
    ∷ (codes "$le", codes "<=?")
    ∷ (codes "$like", codes " like ?")
    ∷ (codes "$lt", codes "<?")
    ∷ (codes "$ne", codes "<>?")
    ∷ []

-- The first operator that the object has.
unfoldable pub first_op : Key → Object → List (Key × Text) → Sql
first_op k o [] = silent
first_op k o ((name, op) ∷ l) = op_with k op (find name o) (first_op k o l)

unfoldable pub op_part : Key → Object → Sql
op_part k o = first_op k o ops

-- Two parts with the separator between them, if the second is not the end.
abbrev pub and_then : Object → Sql → Sql → Sql
and_then end a b = a
and_then (field k v o) a b = a ⊕ lit (codes " AND ") ⊕ b

abbrev pub or_then : Array → Sql → Sql → Sql
or_then nil a b = a
or_then (cons v l) a b = a ⊕ lit (codes " OR ") ⊕ b

abbrev pub or_group : Array → Sql → Sql → Sql
or_group nil a b = a
or_group (cons v l) a b = lit (codes "(") ⊕ a ⊕ lit (codes " OR ") ⊕ b ⊕ lit (codes ")")

-- A condition on `k`, given what its value says under `$or`.
abbrev pub condition : Key → UbjType → Payload → Sql → Sql
condition k array p alternatives = if same_key k (codes "$or") then alternatives else silent
condition k object (fields (field j v o)) alternatives = op_part k (field j v o)
condition k t p alternatives = equals k (value t p)

unfoldable mutual
  pub where_part : Object → Sql
  where_part end = silent
  where_part (field k v o) = and_then o (where_field k v) (where_part o)

  where_field : Key → Value → Sql
  where_field k (value t p) = condition k t p (where_payload p)

  where_payload : Payload → Sql
  where_payload nothing = silent
  where_payload (buffered b) = silent
  where_payload (fields o) = silent
  where_payload (items a) = where_items a

  -- All of `$or`: in brackets, if there is more than one.
  where_items : Array → Sql
  where_items nil = silent
  where_items (cons v a) = or_group a (where_value v) (where_rest a)

  where_rest : Array → Sql
  where_rest nil = silent
  where_rest (cons v a) = or_then a (where_value v) (where_rest a)

  -- `wherePart(v[i])`, by `Object(const Value &)`.
  where_value : Value → Sql
  where_value (value t p) = where_fields p

  where_fields : Payload → Sql
  where_fields (fields o) = where_part o
  where_fields nothing = silent
  where_fields (buffered b) = silent
  where_fields (items a) = silent

-- Parts separated by commas.
abbrev pub comma : Object → Text → Text → Text
comma end s t = s
comma (field k v o) s t = s ++ (codes "," ++ t)

abbrev pub comma_item : Array → Text → Text → Text
comma_item nil s t = s
comma_item (cons v a) s t = s ++ (codes "," ++ t)

unfoldable pub key_list : Object → Text
key_list end = []
key_list (field k v o) = comma o k (key_list o)

unfoldable pub mark_list : Object → Text
mark_list end = []
mark_list (field k v o) = comma o (codes "?") (mark_list o)

unfoldable pub assign_list : Object → Text
assign_list end = []
assign_list (field k v o) = comma o (k ++ codes "=?") (assign_list o)

-- What is pushed to `m_bound`: the value of each field.
unfoldable pub values : Object → List Value
values end = []
values (field k v o) = v ∷ values o

abbrev pub is_empty : Text → Bool
is_empty [] = true
is_empty (c ∷ s) = false

unfoldable pub insert_part : Object → Sql
insert_part o = record {
  text =
      if is_empty (key_list o)
      then []
      else codes "(" ++ (key_list o ++ (codes ") VALUES(" ++ (mark_list o ++ codes ")")));
  bound = values o;
}

unfoldable pub update_part : Object → Sql
update_part o = record { text = assign_list o; bound = values o }

module _ (rt : Runtime) where
  unfoldable pub fields_to_return_part : Array → Text
  fields_to_return_part nil = []
  fields_to_return_part (cons v a) = comma_item a (to_str rt v) (fields_to_return_part a)

  unfoldable pub order_part : Object → Text
  order_part end = []
  order_part (field k v o) =
      (k ++ (if ltb_ℤ (pos 0) (to_int rt v) then codes " ASC " else codes " DESC ")) ++ order_part o

-- A clause that is left out where its part is empty.
abbrev pub clause : Text → Sql → Sql
clause head s = if is_empty s.text then s else lit head ⊕ s

-- The statements of the actions over `table`. A part that is left out still binds its values.
unfoldable pub insert_sql : Text → Object → Sql
insert_sql table o = lit (codes "INSERT INTO " ++ (table ++ codes " ")) ⊕ insert_part o

unfoldable pub update_sql : Text → Object → Object → Sql
update_sql table o where_object =
    lit (codes "UPDATE " ++ (table ++ codes " SET "))
    ⊕ update_part o
    ⊕ clause (codes " WHERE ") (where_part where_object)

unfoldable pub remove_sql : Text → Object → Sql
remove_sql table where_object =
    lit (codes "DELETE FROM " ++ table) ⊕ clause (codes " WHERE ") (where_part where_object)

unfoldable pub count_sql : Text → Object → Sql
count_sql table query =
    lit (codes "SELECT COUNT(1) FROM " ++ table) ⊕ clause (codes " WHERE ") (where_part query)

-- `LIMIT` and `OFFSET` print the number by `std::stringstream`.
unfoldable pub query_sql : Runtime → Text → Object → Object → Array → ℤ → ℤ → Sql
query_sql rt table query order wanted limit offset =
    lit (
      codes "SELECT "
      ++ ((if is_empty (fields_to_return_part rt wanted)
            then codes "*"
            else fields_to_return_part rt wanted)
          ++ (codes " FROM " ++ table)))
    ⊕ clause (codes " WHERE ") (where_part query)
    ⊕ clause (codes " ORDER BY ") (lit (order_part rt order))
    ⊕ lit (if ltb_ℤ (pos 0) limit then codes " LIMIT " ++ rt.print_int limit else [])
    ⊕ lit (if ltb_ℤ (pos 0) offset then codes " OFFSET " ++ rt.print_int offset else [])
