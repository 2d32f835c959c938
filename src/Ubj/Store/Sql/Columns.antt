-- ===== src/Ubj/Store/Sql/Columns.antt =====
-- The bytes of the lists of keys that statements are made of (src/ubj/store/action.cpp, `insertPart`,
-- `updatePart`, `orderPart`).
use zway_lib.Base.{ℕ, ◌≡◌, refl, Bool, true, false, ◌++◌, arith, length, if◌then◌else◌}
use zway_lib.Base.Text.{codes, count, count-append}
use zway_lib.Ubj.Value.{Runtime, Object, end, field}
use zway_lib.Ubj.Value.Convert.{to_int}
use zway_lib.Ubj.Store.Sql.{key_list, mark_list, assign_list, values, order_part}
use zway_lib.Base.Int.{pos, ltb_ℤ}
use zway_lib.Ubj.Store.Sql.Marks.{mark, NoMark}

pub key_list-marks : (o : Object) → NoMark o → count mark (key_list o) ≡ 0
unfolding key_list count
key_list-marks end n = refl
key_list-marks (field k v end) n = n.0
key_list-marks (field k v (field j w o)) n = omega (
  arith,
  count-append mark k (codes "," ++ key_list (field j w o)),
  key_list-marks (field j w o) n.2,
  n.0,
)

pub mark_list-marks : (o : Object) → count mark (mark_list o) ≡ length (values o)
unfolding mark_list values count
mark_list-marks end = refl
mark_list-marks (field k v end) = refl
mark_list-marks (field k v (field j w o)) = omega (arith, mark_list-marks (field j w o))

pub assign_list-marks : (o : Object) → NoMark o → count mark (assign_list o) ≡ length (values o)
unfolding assign_list values count
assign_list-marks end n = refl
assign_list-marks (field k v end) n = omega (arith, count-append mark k (codes "=?"), n.0)
assign_list-marks (field k v (field j w o)) n = omega (
  arith,
  count-append mark (k ++ codes "=?") (codes "," ++ assign_list (field j w o)),
  count-append mark k (codes "=?"),
  assign_list-marks (field j w o) n.2,
  n.0,
)

-- No key of the object, at the top, has the byte `c`.
abbrev pub KeysWithout : ℕ → Object → Type 0
KeysWithout c end = Unit {0}
KeysWithout c (field k v o) = (count c k ≡ 0) × KeysWithout c o

pub top_keys : (o : Object) → NoMark o → KeysWithout mark o
top_keys end n = tt
top_keys (field k v o) n = (n.0, top_keys o n.2)

direction-count :
    (c : ℕ) (ascending : Bool)
    → count c (codes " ASC ") ≡ 0
    → count c (codes " DESC ") ≡ 0
    → count c (if ascending then codes " ASC " else codes " DESC ") ≡ 0
direction-count c true h g = h
direction-count c false h g = g

-- A byte that neither a key nor ` ASC ` nor ` DESC ` has is not in the order: not even a comma
-- between two keys.
pub order_part-count :
    (rt : Runtime) (c : ℕ) (o : Object)
    → count c (codes " ASC ") ≡ 0
    → count c (codes " DESC ") ≡ 0
    → KeysWithout c o
    → count c (order_part rt o) ≡ 0
unfolding order_part
order_part-count rt c end h g n = unfold count in refl
order_part-count rt c (field k v o) h g n =
    let way = if ltb_ℤ (pos 0) (to_int rt v) then codes " ASC " else codes " DESC " in
    omega (
      arith,
      count-append c (k ++ way) (order_part rt o),
      count-append c k way,
      direction-count c (ltb_ℤ (pos 0) (to_int rt v)) h g,
      order_part-count rt c o h g n.1,
      n.0,
    )
