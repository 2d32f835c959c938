-- ===== src/Ubj/Format/RoundTrip/Calls.antt =====
-- The calls of `Writer` (src/ubj/writer.cpp) spell the value's tree.
use zway_lib.Base.{ℕ, suc, ◌≡◌, refl, ap, List, [], ◌∷◌, length, arith, take-all}
use zway_lib.Ubj.Value.{
  Value, value, nothing, buffered, fields, items, Object, end, field, Array, nil, cons, Runtime,
  null_type, bool_true, bool_false, string, int32, int64, float32, float64, array, object,
}
use zway_lib.Ubj.Value.Convert.{strlen}
use zway_lib.Ubj.Object.{length_object, length_array}
use zway_lib.Ubj.Format.{count_pairs, count_items, spell, spell_pairs, spell_items}
use zway_lib.Ubj.Format.Writer.{
  c_str, value_calls, object_calls, field_calls, items_calls, item_calls,
}
use zway_lib.Ubj.Format.RoundTrip.{
  NoZero, IsStorable, AllStorable, EachStorable, tree, pairs_of, pairs, items_of, dynamics,
}

strlen_lem : (s : List ℕ) → NoZero s → strlen s ≡ length s
unfolding strlen
strlen_lem [] h = refl
strlen_lem (c ∷ s) h = ground (arith, strlen_lem s h.1)

pub c_str_lem : (s : List ℕ) → NoZero s → c_str s ≡ s
c_str_lem s h = rw (strlen_lem s h) (take-all (length s) s (omega arith))

module _ (rt : Runtime) where
  count_pairs_lem : (o : Object) → length_object o ≡ count_pairs (pairs rt o)
  unfolding length_object count_pairs pairs
  count_pairs_lem end = refl
  count_pairs_lem (field k v o) = ap suc (count_pairs_lem o)

  count_items_lem : (a : Array) → length_array a ≡ count_items (dynamics rt a)
  unfolding length_array count_items dynamics
  count_items_lem nil = refl
  count_items_lem (cons v a) = ap suc (count_items_lem a)

  mutual
    unfolding value_calls object_calls items_calls field_calls item_calls tree pairs_of items_of
        pairs dynamics spell spell_pairs spell_items

    pub value_calls-tree : (v : Value) → IsStorable v → value_calls rt v ≡ spell (tree rt v)
    value_calls-tree (value null_type nothing) h = refl
    value_calls-tree (value bool_true nothing) h = refl
    value_calls-tree (value bool_false nothing) h = refl
    value_calls-tree (value int32 (buffered b)) h = refl
    value_calls-tree (value int64 (buffered b)) h = refl
    value_calls-tree (value float32 (buffered b)) h = refl
    value_calls-tree (value float64 (buffered b)) h = refl
    value_calls-tree (value string (buffered b)) h = refl
    value_calls-tree (value array (buffered b)) (l, full, e) = ground (arith, e)
    value_calls-tree (value object (fields o)) (e, s, all) =
        rw (count_pairs_lem o, field_calls-pairs o all) refl
    value_calls-tree (value array (items a)) (e, each) =
        rw (count_items_lem a, item_calls-items a each) refl
    value_calls-tree (value t p) h = ground arith

    field_calls-pairs : (o : Object) → AllStorable o → field_calls rt o ≡ spell_pairs (pairs rt o)
    field_calls-pairs end h = refl
    field_calls-pairs (field (c ∷ k) v o) (text, one, all) =
        rw (c_str_lem (c ∷ k) text, value_calls-tree v one, field_calls-pairs o all) refl
    field_calls-pairs (field [] v o) h = absurd h.0

    item_calls-items : (a : Array) → EachStorable a → item_calls rt a ≡ spell_items (dynamics rt a)
    item_calls-items nil h = refl
    item_calls-items (cons v a) (one, each) =
        rw (value_calls-tree v one, item_calls-items a each) refl
