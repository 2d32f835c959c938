-- ===== src/Ubj/Store/Sql/Marks.antt =====
-- Every `?` of a condition has its value in `m_bound`, in number (src/ubj/store/action.cpp,
-- `wherePart`).
use zway_lib.Base.{
  ℕ, ◌≡◌, refl, Bool, true, false, Option, none, some, List, [], ◌∷◌, arith, length, length-append,
  if◌then◌else◌,
}
use zway_lib.Base.Text.{codes, count, count-append}
use zway_lib.Ubj.Key.{Key, same_key}
use zway_lib.Ubj.Value.{
  UbjType, Value, value, Payload, nothing, buffered, fields, items, Object, end, field, Array, nil,
  cons, array, object,
}
use zway_lib.Ubj.Object.{find}
use zway_lib.Ubj.Store.Sql.{
  Sql, silent, lit, ◌⊕◌, equals, op_with, op_part, ops, first_op, where_part, where_field,
  where_payload, where_items, where_rest, where_value, where_fields, condition, Text, and_then,
  or_then, or_group,
}

-- `?`
abbrev pub mark : ℕ
mark = 63

-- No key of the object is or contains a mark, at any depth.
abbrev mutual
  pub NoMark : Object → Type 0
  NoMark end = Unit {0}
  NoMark (field k v o) = (count mark k ≡ 0) × NoMarkIn v × NoMark o

  pub NoMarkIn : Value → Type 0
  NoMarkIn (value t p) = NoMarkInside p

  pub NoMarkInside : Payload → Type 0
  NoMarkInside nothing = Unit {0}
  NoMarkInside (buffered b) = Unit {0}
  NoMarkInside (fields o) = NoMark o
  NoMarkInside (items a) = NoMarkInEach a

  pub NoMarkInEach : Array → Type 0
  NoMarkInEach nil = Unit {0}
  NoMarkInEach (cons v a) = NoMarkIn v × NoMarkInEach a

-- As many marks as bound values.
abbrev pub IsBalanced : Sql → Type 0
IsBalanced s = count mark s.text ≡ length s.bound

pub ⊕-IsBalanced : (a b : Sql) → IsBalanced a → IsBalanced b → IsBalanced (a ⊕ b)
unfolding ◌⊕◌
⊕-IsBalanced a b h k = omega (arith, count-append mark a.text b.text, length-append a.bound b.bound)

lit-IsBalanced : (s : Text) → count mark s ≡ 0 → IsBalanced (lit s)
lit-IsBalanced s h = h

equals-IsBalanced : (k : Key) (v : Value) → count mark k ≡ 0 → IsBalanced (equals k v)
unfolding equals count
equals-IsBalanced k v h = omega (arith, count-append mark k (codes "=?"))

op_with-IsBalanced :
    (k : Key) (op : Text) (v : Option Value) (other : Sql)
    → count mark k ≡ 0
    → count mark op ≡ 1
    → IsBalanced other
    → IsBalanced (op_with k op v other)
op_with-IsBalanced k op none other h one b = b
op_with-IsBalanced k op (some v) other h one b = omega (arith, count-append mark k op)

-- Each operator has one mark.
abbrev OneMark : List (Key × Text) → Type 0
OneMark [] = Unit {0}
OneMark ((name, op) ∷ l) = (count mark op ≡ 1) × OneMark l

first_op-IsBalanced :
    (k : Key) (o : Object) (l : List (Key × Text))
    → count mark k ≡ 0
    → OneMark l
    → IsBalanced (first_op k o l)
unfolding first_op count
first_op-IsBalanced k o [] h m = refl
first_op-IsBalanced k o ((name, op) ∷ l) h m =
    op_with-IsBalanced k op (find name o) (first_op k o l) h m.0 (first_op-IsBalanced k o l h m.1)

ops-OneMark : OneMark ops
unfolding ops count
ops-OneMark = (refl, (refl, (refl, (refl, (refl, (refl, tt))))))

op_part-IsBalanced : (k : Key) (o : Object) → count mark k ≡ 0 → IsBalanced (op_part k o)
unfolding op_part
op_part-IsBalanced k o h = first_op-IsBalanced k o ops h ops-OneMark

module _ (a b : Sql) (h : IsBalanced a) (g : IsBalanced b) where
  and_then-IsBalanced : (o : Object) → IsBalanced (and_then o a b)
  unfolding count
  and_then-IsBalanced end = h
  and_then-IsBalanced (field k v o) =
      ⊕-IsBalanced a (lit (codes " AND ") ⊕ b) h (⊕-IsBalanced (lit (codes " AND ")) b refl g)

  or_then-IsBalanced : (l : Array) → IsBalanced (or_then l a b)
  unfolding count
  or_then-IsBalanced nil = h
  or_then-IsBalanced (cons v l) =
      ⊕-IsBalanced a (lit (codes " OR ") ⊕ b) h (⊕-IsBalanced (lit (codes " OR ")) b refl g)

  or_group-IsBalanced : (l : Array) → IsBalanced (or_group l a b)
  unfolding count
  or_group-IsBalanced nil = h
  or_group-IsBalanced (cons v l) =
      ⊕-IsBalanced (lit (codes "(")) (a ⊕ lit (codes " OR ") ⊕ b ⊕ lit (codes ")")) refl (
        ⊕-IsBalanced a (lit (codes " OR ") ⊕ b ⊕ lit (codes ")")) h (
          ⊕-IsBalanced (lit (codes " OR ")) (b ⊕ lit (codes ")")) refl
            (⊕-IsBalanced b (lit (codes ")")) g refl)))

if-IsBalanced : (c : Bool) (s : Sql) → IsBalanced s → IsBalanced (if c then s else silent)
unfolding count
if-IsBalanced true s b = b
if-IsBalanced false s b = refl

condition-IsBalanced :
    (k : Key) (t : UbjType) (p : Payload) (s : Sql)
    → count mark k ≡ 0
    → IsBalanced s
    → IsBalanced (condition k t p s)
condition-IsBalanced k array p s h b = if-IsBalanced (same_key k (codes "$or")) s b
condition-IsBalanced k object (fields (field j v o)) s h b = op_part-IsBalanced k (field j v o) h
condition-IsBalanced k t p s h b = equals-IsBalanced k (value t p) h

mutual
  unfolding where_part count

  pub where-IsBalanced : (o : Object) → NoMark o → IsBalanced (where_part o)
  where-IsBalanced end n = refl
  where-IsBalanced (field k v o) n =
      and_then-IsBalanced (where_field k v) (where_part o) (field-IsBalanced k v n.0 n.1)
        (where-IsBalanced o n.2) o

  field-IsBalanced :
      (k : Key) (v : Value) → count mark k ≡ 0 → NoMarkIn v → IsBalanced (where_field k v)
  field-IsBalanced k (value t p) h n =
      condition-IsBalanced k t p (where_payload p) h (payload-IsBalanced p n)

  payload-IsBalanced : (p : Payload) → NoMarkInside p → IsBalanced (where_payload p)
  payload-IsBalanced nothing n = refl
  payload-IsBalanced (buffered b) n = refl
  payload-IsBalanced (fields o) n = refl
  payload-IsBalanced (items a) n = items-IsBalanced a n

  items-IsBalanced : (a : Array) → NoMarkInEach a → IsBalanced (where_items a)
  items-IsBalanced nil n = refl
  items-IsBalanced (cons v a) n =
      or_group-IsBalanced (where_value v) (where_rest a) (value-IsBalanced v n.0)
        (rest-IsBalanced a n.1) a

  rest-IsBalanced : (a : Array) → NoMarkInEach a → IsBalanced (where_rest a)
  rest-IsBalanced nil n = refl
  rest-IsBalanced (cons v a) n =
      or_then-IsBalanced (where_value v) (where_rest a) (value-IsBalanced v n.0)
        (rest-IsBalanced a n.1) a

  value-IsBalanced : (v : Value) → NoMarkIn v → IsBalanced (where_value v)
  value-IsBalanced (value t p) n = fields-IsBalanced p n

  fields-IsBalanced : (p : Payload) → NoMarkInside p → IsBalanced (where_fields p)
  fields-IsBalanced nothing n = refl
  fields-IsBalanced (buffered b) n = refl
  fields-IsBalanced (fields o) n = where-IsBalanced o n
  fields-IsBalanced (items a) n = refl
