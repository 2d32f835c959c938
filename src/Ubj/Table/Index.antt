-- ===== src/Ubj/Table/Index.antt =====
-- The layout of an index: ids without repetition under keys in order (src/ubj/store/module.cpp).
pub mod Pairs
use zway_lib.Base.{
  ℕ, ◌≡◌, refl, true, false, not, ◌||◌, ◌&&◌, none, some, ◌==◌, if◌then◌else◌, arith,
}
use zway_lib.Ubj.Key.{Key, same_key, cmp_refl, eq_of_cmp}
use zway_lib.Ubj.Value.{
  Runtime, Value, value, items, Object, end, field, Array, nil, cons, array, of_array,
}
use zway_lib.Ubj.Value.Convert.{to_uint}
use zway_lib.Ubj.Object.{find, set_field, push_back, Behind, IsSorted}
use zway_lib.Ubj.Object.Laws.{find-Behind}
use zway_lib.Ubj.Table.{erase_field, has_id, without, is_empty}

erase_field-Behind : (k j : Key) (o : Object) → Behind k o → Behind k (erase_field j o)
unfolding erase_field
erase_field-Behind k j end h = tt
erase_field-Behind k j (field i v o) h = ground (arith, erase_field-Behind k j o h.1)

pub erase_field-IsSorted : (k : Key) (o : Object) → IsSorted o → IsSorted (erase_field k o)
unfolding erase_field
erase_field-IsSorted k end h = tt
erase_field-IsSorted k (field i v o) h =
    ground (arith, erase_field-IsSorted k o h.1, erase_field-Behind i k o h.0)

-- Nothing is found under an erased key, and every other key as before.
pub find-erase_field :
    (k j : Key) (o : Object)
    → IsSorted o
    → find j (erase_field k o) ≡ (if same_key j k then none else find j o)
unfolding find erase_field
find-erase_field k j end s = ground arith
find-erase_field k j (field i v o) s = ground (
  arith,
  find-erase_field k j o s.1,
  eq_of_cmp k i,
  eq_of_cmp j i,
  eq_of_cmp j k,
  cmp_refl k,
  cmp_refl j,
  find-Behind i o s.0,
)

module _ (rt : Runtime) where
  -- No id twice.
  abbrev pub IsDistinct : Array → Type 0
  IsDistinct nil = Unit {0}
  IsDistinct (cons v a) = (has_id rt (to_uint rt v) a ≡ false) × IsDistinct a

  -- An array of ids, at least one.
  abbrev pub IsEntry : Value → Type 0
  IsEntry (value array (items (cons v a))) = IsDistinct (cons v a)
  IsEntry _ = ⊥

  abbrev pub AllEntries : Object → Type 0
  AllEntries end = Unit {0}
  AllEntries (field k v o) = IsEntry v × AllEntries o

  -- The keys are in order, and each has an array of ids, none twice and at least one.
  abbrev pub IsIndex : Object → Type 0
  IsIndex o = IsSorted o × AllEntries o

  pub has_id-push_back :
      (m : ℕ) (a : Array) (v : Value)
      → has_id rt m (push_back a v) ≡ (has_id rt m a || (to_uint rt v == m))
  unfolding has_id push_back
  has_id-push_back m nil v = ground arith
  has_id-push_back m (cons w a) v = ground (arith, has_id-push_back m a v)

  pub has_id-without :
      (m id : ℕ) (a : Array) → has_id rt m (without rt id a) ≡ (has_id rt m a && not (m == id))
  unfolding has_id without
  has_id-without m id nil = refl
  has_id-without m id (cons w a) = ground (arith, has_id-without m id a)

  push_back-IsDistinct :
      (a : Array) (v : Value)
      → has_id rt (to_uint rt v) a ≡ false
      → IsDistinct a
      → IsDistinct (push_back a v)
  unfolding has_id push_back
  push_back-IsDistinct nil v h d = (refl, tt)
  push_back-IsDistinct (cons w a) v h d =
      ground (arith, push_back-IsDistinct a v, has_id-push_back (to_uint rt w) a v)

  pub push_back-IsEntry :
      (a : Array) (v : Value)
      → has_id rt (to_uint rt v) a ≡ false
      → IsDistinct a
      → IsEntry (of_array (push_back a v))
  unfolding push_back has_id
  push_back-IsEntry nil v h d = (refl, tt)
  push_back-IsEntry (cons w a) v h d = unfold push_back in push_back-IsDistinct (cons w a) v h d

  pub without-IsDistinct : (id : ℕ) (a : Array) → IsDistinct a → IsDistinct (without rt id a)
  unfolding without
  without-IsDistinct id nil d = tt
  without-IsDistinct id (cons w a) d =
      ground (arith, without-IsDistinct id a d.1, has_id-without (to_uint rt w) id a)

  pub set_field-AllEntries :
      (k : Key) (v : Value) (o : Object) → IsEntry v → AllEntries o → AllEntries (set_field k v o)
  unfolding set_field
  set_field-AllEntries k v end e h = (e, tt)
  set_field-AllEntries k v (field j w o) e h = ground (arith, set_field-AllEntries k v o e h.1)

  pub erase_field-AllEntries : (k : Key) (o : Object) → AllEntries o → AllEntries (erase_field k o)
  unfolding erase_field
  erase_field-AllEntries k end h = tt
  erase_field-AllEntries k (field j w o) h = ground (arith, erase_field-AllEntries k o h.1)

  pub find-IsEntry :
      (k : Key) (v : Value) (o : Object) → AllEntries o → find k o ≡ some v → IsEntry v
  unfolding find
  find-IsEntry k v end h e = absurd (ground (arith, e))
  find-IsEntry k v (field j w o) h e = ground (arith, find-IsEntry k v o h.1, e)

  pub has_id-is_empty : (m : ℕ) (a : Array) → is_empty a ≡ true → has_id rt m a ≡ false
  unfolding has_id
  has_id-is_empty m nil h = refl
  has_id-is_empty m (cons v a) h = cc

  pub erase-set-AllEntries :
      (k : Key) (v : Value) (o : Object)
      → AllEntries o
      → AllEntries (erase_field k (set_field k v o))
  unfolding erase_field set_field
  erase-set-AllEntries k v end h = ground (arith, cmp_refl k)
  erase-set-AllEntries k v (field j w o) h =
      ground (arith, erase-set-AllEntries k v o h.1, cmp_refl k)

  pub IsEntry-array :
      (v : Value) → IsEntry v → (a : Array) × (v ≡ of_array a) × IsEntry (of_array a)
  IsEntry-array (value array (items (cons w a))) h = (cons w a, refl, h)
  IsEntry-array (value t p) h = ground arith

  pub IsEntry-IsDistinct : (a : Array) → IsEntry (of_array a) → IsDistinct a
  IsEntry-IsDistinct (cons w a) h = h
  IsEntry-IsDistinct nil h = absurd h
