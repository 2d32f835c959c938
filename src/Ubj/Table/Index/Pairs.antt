-- ===== src/Ubj/Table/Index/Pairs.antt =====
-- An index as a set of pairs of a text and an id (src/ubj/store/module.cpp).
use zway_lib.Base.{
  ℕ, ◌≡◌, ◌<◌, refl, ap, ◌∙◌, Bool, true, false, not, ◌||◌, ◌&&◌, Option, none, some, ◌==◌,
  if◌then◌else◌, arith,
}
use zway_lib.Ubj.Key.{Key, same_key, eq_of_cmp}
use zway_lib.Ubj.Value.{Runtime, Value, Object, Array, nil, cons, of_array}
use zway_lib.Ubj.Value.Convert.{of_uint, to_uint, two32}
use zway_lib.Ubj.Value.Numbers.{to_uint-of_uint}
use zway_lib.Ubj.Object.{find, set_field, push_back, IsSorted}
use zway_lib.Ubj.Object.Laws.{find-set_field, set_field-IsSorted}
use zway_lib.Ubj.Table.{
  erase_field, has_id, in_entry, has_index_item, appended, added, add_index_item, without, removed,
  remove_index_item, is_empty,
}
use zway_lib.Ubj.Table.Index.{
  find-erase_field, erase_field-IsSorted, IsDistinct, IsEntry, IsIndex, has_id-push_back,
  has_id-without, push_back-IsEntry, without-IsDistinct, set_field-AllEntries,
  erase_field-AllEntries, find-IsEntry, has_id-is_empty, erase-set-AllEntries, IsEntry-array,
  IsEntry-IsDistinct,
}

module _ (rt : Runtime) where
  -- A set field changes what is found under its own key only.
  has_index_item-set_field :
      (k j : Key) (m : ℕ) (v : Value) (o : Object)
      → has_index_item rt (set_field k v o) j m
        ≡ (if same_key j k then in_entry rt m (some v) else has_index_item rt o j m)
  unfolding has_index_item
  has_index_item-set_field k j m v o = ground (arith, find-set_field k j v o)

  has_index_item-erase_field :
      (k j : Key) (m : ℕ) (o : Object)
      → IsSorted o
      → has_index_item rt (erase_field k o) j m
        ≡ (if same_key j k then false else has_index_item rt o j m)
  unfolding has_index_item
  has_index_item-erase_field k j m o s = ground (arith, find-erase_field k j o s)

  -- What an entry says of its own key.
  has_index_item-found :
      (k j : Key) (m : ℕ) (o : Object) (q : Option Value)
      → find k o ≡ q
      → same_key j k ≡ true
      → has_index_item rt o j m ≡ in_entry rt m q
  unfolding has_index_item
  has_index_item-found k j m o q e h = ground (arith, eq_of_cmp j k, e)

  without-found :
      (k j : Key) (m id : ℕ) (o : Object) (a : Array)
      → find k o ≡ some (of_array a)
      → IsSorted o
      → has_index_item rt (removed rt o k id (some (of_array a))) j m
        ≡ (has_index_item rt o j m && not (same_key j k && (m == id)))
  without-found k j m id o a e s = ground (
    arith,
    has_index_item-set_field k j m (of_array (without rt id a)) o,
    has_index_item-erase_field k j m (set_field k (of_array (without rt id a)) o),
    has_id-without rt m id a,
    has_id-is_empty rt m (without rt id a),
    has_index_item-found k j m o (some (of_array a)) e,
    set_field-IsSorted k (of_array (without rt id a)) o s,
  )

  set_field-IsIndex :
      (k : Key) (v : Value) (o : Object)
      → IsEntry rt v
      → IsIndex rt o
      → IsIndex rt (set_field k v o)
  set_field-IsIndex k v o e s = (set_field-IsSorted k v o s.0, set_field-AllEntries rt k v o e s.1)

  erase_field-IsIndex : (k : Key) (o : Object) → IsIndex rt o → IsIndex rt (erase_field k o)
  erase_field-IsIndex k o s = (erase_field-IsSorted k o s.0, erase_field-AllEntries rt k o s.1)

  -- What is left of an entry is set, or the key erased.
  left-IsIndex :
      (k : Key) (o : Object) (rest : Array)
      → IsDistinct rt rest
      → IsIndex rt o
      → IsIndex rt (
          if is_empty rest
          then erase_field k (set_field k (of_array rest) o)
          else set_field k (of_array rest) o)
  left-IsIndex k o nil d s = (
    erase_field-IsSorted k (set_field k (of_array nil) o)
        (set_field-IsSorted k (of_array nil) o s.0),
    erase-set-AllEntries rt k (of_array nil) o s.1,
  )
  left-IsIndex k o (cons w a) d s = set_field-IsIndex k (of_array (cons w a)) o d s

  -- The result of `added`.
  abbrev pub Adds : Object → Key → ℕ → Key → ℕ → Option Object → Type 0
  Adds o k id j m none = ⊥
  Adds o k id j m (some r) =
      IsIndex rt r
      × (has_index_item rt r j m ≡ (has_index_item rt o j m || (same_key j k && (m == id))))

  added-new :
      (k j : Key) (m id : ℕ) (o : Object)
      → to_uint rt (of_uint rt id) ≡ id
      → IsIndex rt o
      → find k o ≡ none
      → Adds o k id j m (added rt o k id none)
  unfolding has_id push_back
  added-new k j m id o u s e = (
    set_field-IsIndex k (of_array (push_back nil (of_uint rt id))) o (refl, tt) s,
    ground (
      arith,
      u,
      has_index_item-set_field k j m (of_array (push_back nil (of_uint rt id))) o,
      has_index_item-found k j m o none e,
    ),
  )

  added-more :
      (k j : Key) (m id : ℕ) (o : Object) (a : Array) (b : Bool)
      → has_id rt id a ≡ b
      → IsEntry rt (of_array a)
      → to_uint rt (of_uint rt id) ≡ id
      → IsIndex rt o
      → find k o ≡ some (of_array a)
      → Adds o k id j m (if b then some o else appended rt o k id (some (of_array a)))
  added-more k j m id o a true h d u s e =
      (s, ground (arith, h, has_index_item-found k j m o (some (of_array a)) e))
  added-more k j m id o (cons w a) false h d u s e = (
    set_field-IsIndex k (of_array (push_back (cons w a) (of_uint rt id))) o
        (push_back-IsEntry rt (cons w a) (of_uint rt id) (ap (λ n. has_id rt n (cons w a)) u ∙ h) d)
        s,
    ground (
      arith,
      h,
      u,
      has_id-push_back rt m (cons w a) (of_uint rt id),
      has_index_item-set_field k j m (of_array (push_back (cons w a) (of_uint rt id))) o,
      has_index_item-found k j m o (some (of_array (cons w a))) e,
    ),
  )
  added-more k j m id o nil false h d u s e = absurd d

  added-Adds :
      (k j : Key) (m id : ℕ) (o : Object) (q : Option Value)
      → to_uint rt (of_uint rt id) ≡ id
      → IsIndex rt o
      → find k o ≡ q
      → Adds o k id j m (added rt o k id q)
  added-Adds k j m id o none u s e = added-new k j m id o u s e
  added-Adds k j m id o (some v) u s e =
      let (a, same, d) = IsEntry-array rt v (find-IsEntry rt k v o s.1 e) in
      rw same (added-more k j m id o a (has_id rt id a) refl d u s (e ∙ ap some same))

  -- The result of `removed`.
  abbrev pub Removes : Object → Key → ℕ → Key → ℕ → Object → Type 0
  Removes o k id j m r =
      IsIndex rt r
      × (has_index_item rt r j m ≡ (has_index_item rt o j m && not (same_key j k && (m == id))))

  removed-Removes :
      (k j : Key) (m id : ℕ) (o : Object) (q : Option Value)
      → IsIndex rt o
      → find k o ≡ q
      → Removes o k id j m (removed rt o k id q)
  removed-Removes k j m id o none s e = (
    erase_field-IsIndex k o s,
    ground (arith, has_index_item-erase_field k j m o s.0, has_index_item-found k j m o none e),
  )
  removed-Removes k j m id o (some v) s e =
      let (a, same, d) = IsEntry-array rt v (find-IsEntry rt k v o s.1 e) in
      rw same (
        left-IsIndex k o (without rt id a) (without-IsDistinct rt id a (IsEntry-IsDistinct rt a d))
            s,
        without-found k j m id o a (e ∙ ap some same) s.0,
      )

-- Adding the id of a row under a text to an index, while memory lasts: the result is an index again,
-- its keys in order and each with at least one id and none twice, and it holds the pairs that the
-- index held and the new one, no others.
pub add_index_item-Adds :
    (rt : Runtime) (k j : Key) (m id : ℕ) (o : Object)
    → ((n : ℕ) → rt.malloc n ≡ true)
    → id < two32
    → IsIndex rt o
    → Adds rt o k id j m (add_index_item rt o k id)
unfolding add_index_item
add_index_item-Adds rt k j m id o memory h s =
    added-Adds rt k j m id o (find k o) (to_uint-of_uint rt id 0 memory h (omega arith)).0 s refl

-- Removing the id of a row under a text from an index: the result is an index again, its keys in order
-- and each with at least one id and none twice, and it holds the pairs that the index held except this
-- one.
pub remove_index_item-Removes :
    (rt : Runtime) (k j : Key) (m id : ℕ) (o : Object)
    → IsIndex rt o
    → Removes rt o k id j m (remove_index_item rt o k id)
unfolding remove_index_item
remove_index_item-Removes rt k j m id o s = removed-Removes rt k j m id o (find k o) s refl
