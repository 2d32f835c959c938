-- ===== src/Ubj/Object/Tests.antt =====
-- Objects of a few fields.
use zway_lib.Base.{◌≡◌, refl, true, false}
use zway_lib.Base.Text.{codes}
use zway_lib.Ubj.Key.{cmp}
use zway_lib.Ubj.Value.{Value, Object, end, field, of_bool, null}
use zway_lib.Ubj.Object.{find, set_field, merge, at_key, value_at_key, length_object, IsSorted}
use zway_lib.Ubj.Object.Laws.{find-merge, or_find}

abbrev yes : Value
yes = of_bool true

abbrev no : Value
no = of_bool false

abbrev two : Object
two = field (codes "a") yes (field (codes "c") no end)

abbrev other : Object
other = field (codes "b") no (field (codes "c") yes end)

sorted : IsSorted two
unfolding cmp
sorted = ((refl, tt), (tt, tt))

other-IsSorted : IsSorted other
unfolding cmp
other-IsSorted = ((refl, tt), (tt, tt))

set_between :
    set_field (codes "b") yes two
    ≡ field (codes "a") yes (field (codes "b") yes (field (codes "c") no end))
unfolding set_field cmp
set_between = refl

missing : at_key (codes "b") two ≡ null
unfolding at_key find cmp
missing = refl

merged : length_object (merge two other) ≡ 3
unfolding merge set_field cmp length_object
merged = refl

no_object : value_at_key (codes "a") yes ≡ null
unfolding value_at_key
no_object = refl

find-merge_example :
    find (codes "c") (merge two other) ≡ or_find (find (codes "c") other) (find (codes "c") two)
find-merge_example = find-merge (codes "c") two other other-IsSorted
