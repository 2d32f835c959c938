-- ===== src/Ubj/Object/Laws.antt =====
-- Objects as finite maps (src/ubj/value.cpp).
use Prim.Native.Nat.{Ordering}
use zway_lib.Base.{◌≡◌, refl, true, Option, none, some, arith, if◌then◌else◌}
use zway_lib.Ubj.Key.{Key, cmp, same_key, cmp_refl, eq_of_cmp, cmp_gt, cmp_trans}
use zway_lib.Ubj.Value.{Value, Object, end, field}
use zway_lib.Ubj.Object.{find, set_field, has_field, at_key, merge, Behind, IsSorted}

same_key-eq : (a b : Key) → same_key a b ≡ true → a ≡ b
same_key-eq a b h = eq_of_cmp a b (ground arith)

same_key_refl : (a : Key) → same_key a a ≡ true
same_key_refl a = rw (cmp_refl a)

-- A set field is found under its key, and every other key as before.
pub find-set_field :
    (k j : Key) (v : Value) (o : Object)
    → find j (set_field k v o) ≡ (if same_key j k then some v else find j o)
unfolding find set_field
find-set_field k j v end = refl
find-set_field k j v (field i w o) = ground (
  arith,
  find-set_field k j v o,
  eq_of_cmp k i,
  eq_of_cmp j i,
  eq_of_cmp j k,
  cmp_refl k,
  cmp_refl j,
)

Behind-trans : (k j : Key) (o : Object) → cmp k j ≡ Ordering.lt → Behind j o → Behind k o
Behind-trans k j end h b = tt
Behind-trans k j (field i w o) h b = (cmp_trans k j i h b.0, Behind-trans k j o h b.1)

set_field-Behind :
    (k j : Key) (v : Value) (o : Object)
    → cmp k j ≡ Ordering.lt
    → Behind k o
    → Behind k (set_field j v o)
unfolding set_field
set_field-Behind k j v end h b = (h, tt)
set_field-Behind k j v (field i w o) h b = ground (arith, set_field-Behind k j v o h b.1)

-- Setting a field of an object whose keys are in order, none twice, leaves them in order, none
-- twice.
pub set_field-IsSorted :
    (k : Key) (v : Value) (o : Object) → IsSorted o → IsSorted (set_field k v o)
unfolding set_field
set_field-IsSorted k v end s = (tt, tt)
set_field-IsSorted k v (field i w o) s = ground (
  arith,
  set_field-IsSorted k v o s.1,
  cmp_gt k i,
  set_field-Behind i k v o,
  Behind-trans k i o,
  eq_of_cmp k i,
)

-- Nothing is found under a key that comes before all.
pub find-Behind : (k : Key) (o : Object) → Behind k o → find k o ≡ none
unfolding find
find-Behind k end b = refl
find-Behind k (field j v o) b = rw (b.0) (find-Behind k o b.1)

abbrev pub or_find : Option Value → Option Value → Option Value
or_find none w = w
or_find (some v) w = some v

-- Merging an object `p` whose keys are in order into any object `o` finds under a key what `p`
-- has, and under any other key what `o` had.
pub find-merge :
    (k : Key) (o p : Object) → IsSorted p → find k (merge o p) ≡ or_find (find k p) (find k o)
unfolding merge find
find-merge k o end s = refl
find-merge k o (field j v p) s = ground (
  arith,
  find-merge k (set_field j v o) p s.1,
  find-set_field j k v o,
  eq_of_cmp k j,
  find-Behind j p s.0,
)

-- Merging any object into an object whose keys are in order, none twice, leaves them in order,
-- none twice.
pub merge-IsSorted : (o p : Object) → IsSorted o → IsSorted (merge o p)
unfolding merge
merge-IsSorted o end s = s
merge-IsSorted o (field j v p) s = merge-IsSorted (set_field j v o) p (set_field-IsSorted j v o s)

-- What is found is there, and is what `operator[]` gives.
pub has_field-find : (k : Key) (o : Object) (v : Value) → find k o ≡ some v → has_field k o ≡ true
unfolding has_field
has_field-find k o v e = rw e

pub at_key-find : (k : Key) (o : Object) (v : Value) → find k o ≡ some v → at_key k o ≡ v
unfolding at_key
at_key-find k o v e = rw e
