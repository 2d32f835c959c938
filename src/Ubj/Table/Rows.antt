-- ===== src/Ubj/Table/Rows.antt =====
-- `createIndex` and `updateIds` of src/ubj/store/module.cpp: which ids an index and a table get.
use zway_lib.Base.{
  ℕ, ◌≡◌, ◌<◌, refl, ◌∙◌, Bool, true, false, ◌||◌, ◌&&◌, Option, none, some, ◌==◌, if◌then◌else◌,
  arith,
}
use zway_lib.Base.Int.{ℤ, pos, negsuc}
use zway_lib.Base.Text.{codes}
use zway_lib.Ubj.Key.{Key, same_key}
use zway_lib.Ubj.Value.{Runtime, Value, Object, end, Array, nil, cons, to_array}
use zway_lib.Ubj.Value.Convert.{of_uint, to_uint, to_int, to_str, word, two32}
use zway_lib.Ubj.Object.{find, value_or_null}
use zway_lib.Ubj.Format.{Library}
use zway_lib.Ubj.Table.{
  Blobs, has_id, in_entry, has_index_item, add_index_item, column_of, indexed, index_rest,
  create_index, update_ids, then_index, is_empty,
}
use zway_lib.Ubj.Table.Index.{IsIndex, IsDistinct, IsEntry-array, find-IsEntry, IsEntry-IsDistinct}
use zway_lib.Ubj.Table.Index.Pairs.{Adds, add_index_item-Adds}

-- Whether a column's text is the given one.
abbrev pub is_text : Key → Option Key → Bool
is_text k none = false
is_text k (some j) = same_key k j

word_bound : (x : ℤ) → word two32 x < two32
word_bound (pos n) = omega arith
word_bound (negsuc n) = omega arith

pub to_uint_bound : (rt : Runtime) (v : Value) → to_uint rt v < two32
unfolding to_uint
to_uint_bound rt v = word_bound (to_int rt v)

module _ (rt : Runtime) (lib : Library) (store : Blobs) (column : Key)
    (memory : (n : ℕ) → rt.malloc n ≡ true) (j : Key) (m : ℕ) where
  -- The result of indexing `ids` behind `o`.
  abbrev pub Indexes : Object → Array → Option Object → Type 0
  Indexes o ids none = ⊥
  Indexes o ids (some r) =
      IsIndex rt r
      × (has_index_item rt r j m ≡ (
          has_index_item rt o j m
          || (has_id rt m ids && is_text j (column_of rt lib store column m))))

  -- One id.
  abbrev IndexesOne : Object → ℕ → Option Object → Type 0
  IndexesOne o id none = ⊥
  IndexesOne o id (some r) =
      IsIndex rt r
      × (has_index_item rt r j m
          ≡ (has_index_item rt o j m || ((id == m) && is_text j (column_of rt lib store column m))))

  of_Adds :
      (o : Object) (id : ℕ) (k : Key) (q : Option Object)
      → column_of rt lib store column id ≡ some k
      → Adds rt o k id j m q
      → IndexesOne o id q
  of_Adds o id k none e h = h
  of_Adds o id k (some r) e h = (h.0, ground (arith, h.1, e))

  indexed-IndexesOne :
      (o : Object) (id : ℕ) (q : Option Key)
      → column_of rt lib store column id ≡ q
      → id < two32
      → IsIndex rt o
      → IndexesOne o id (indexed rt lib store o id q)
  indexed-IndexesOne o id none e h s = (s, ground (arith, e))
  indexed-IndexesOne o id (some k) e h s =
      of_Adds o id k (add_index_item rt o k id) e (add_index_item-Adds rt k j m id o memory h s)

  behind-Indexes :
      (o r : Object) (v : Value) (ids : Array) (q : Option Object)
      → IndexesOne o (to_uint rt v) (some r)
      → Indexes r ids q
      → Indexes o (cons v ids) q
  unfolding has_id
  behind-Indexes o r v ids none h k = k
  behind-Indexes o r v ids (some t) h k = (k.0, ground (arith, h.1, k.1))

  then-Indexes :
      (v : Value) (ids : Array) (o : Object) (q : Option Object)
      → IndexesOne o (to_uint rt v) q
      → ((r : Object) → IsIndex rt r → Indexes r ids (index_rest rt lib store column ids r))
      → Indexes o
          (cons v ids)
          (then_index rt lib store q (λ next. index_rest rt lib store column ids next))
  then-Indexes v ids o none h rest = h
  then-Indexes v ids o (some r) h rest =
      behind-Indexes o r v ids (index_rest rt lib store column ids r) h (rest r h.0)

  pub index_rest-Indexes :
      (ids : Array) (o : Object)
      → IsIndex rt o
      → Indexes o ids (index_rest rt lib store column ids o)
  unfolding index_rest
  index_rest-Indexes nil o s = (s, unfold has_id in ground arith)
  index_rest-Indexes (cons v ids) o s =
      let id = to_uint rt v in
      then-Indexes v ids o (indexed rt lib store o id (column_of rt lib store column id))
        (indexed-IndexesOne o id (column_of rt lib store column id) refl (to_uint_bound rt v) s)
        (λ r t. index_rest-Indexes ids r t)

-- What a found entry says as an array.
pub found-has_id :
    (rt : Runtime) (k : Key) (m : ℕ) (o : Object) (q : Option Value)
    → IsIndex rt o
    → find k o ≡ q
    → (has_id rt m (to_array (value_or_null q)) ≡ in_entry rt m q)
      × IsDistinct rt (to_array (value_or_null q))
unfolding has_id to_array
found-has_id rt k m o none s e = (refl, tt)
found-has_id rt k m o (some v) s e =
    let (a, same, d) = IsEntry-array rt v (find-IsEntry rt k v o s.1 e) in
    rw same (refl, IsEntry-IsDistinct rt a d)

-- The ids that `updateIds` finds.
abbrev pub HasIds : Runtime → Library → Blobs → ℕ → ℕ → Option Array → Type 0
HasIds rt lib store type m none = ⊥
HasIds rt lib store type m (some ids) =
    IsDistinct rt ids
    × (has_id rt m ids ≡ (
        has_id rt m store.get_blob_ids
        && is_text (to_str rt (of_uint rt type)) (column_of rt lib store (codes "_$type") m)))

either_way : (b : Bool) (a : Array) → (if b then a else a) ≡ a
either_way true a = refl
either_way false a = refl

module _ (rt : Runtime) (lib : Library) (store : Blobs) (type m : ℕ)
    (memory : (n : ℕ) → rt.malloc n ≡ true) where
  abbrev key : Key
  key = to_str rt (of_uint rt type)

  of_index :
      (q : Option Object)
      → Indexes rt lib store (codes "_$type") memory key m end store.get_blob_ids q
      → HasIds rt lib store type m
          (elim q [ none ↦ none | some index ↦ some (to_array (value_or_null (find key index))) ])
  unfolding has_index_item find
  of_index none h = h
  of_index (some r) h =
      let (same, d) = found-has_id rt key m r (find key r) h.0 refl in (d, same ∙ h.1)

-- While memory lasts, `updateIds` finds a table's rows for any table of blobs: each of its ids is
-- there once, and just those blobs are there whose id the store lists, that can be read, and whose
-- field `_$type` has the same text as the table's type.
pub update_ids-HasIds :
    (rt : Runtime) (lib : Library) (store : Blobs) (type m : ℕ)
    → ((n : ℕ) → rt.malloc n ≡ true)
    → HasIds rt lib store type m (update_ids rt lib store type)
unfolding update_ids
update_ids-HasIds rt lib store type m memory =
    of_index rt lib store type m memory
      (create_index rt lib store (codes "_$type") store.get_blob_ids)
      (unfold create_index in
        rw (either_way (is_empty store.get_blob_ids) store.get_blob_ids) (
          index_rest-Indexes rt lib store (codes "_$type") memory (to_str rt (of_uint rt type)) m
            store.get_blob_ids end (tt, tt)))
