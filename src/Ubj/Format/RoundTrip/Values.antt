-- ===== src/Ubj/Format/RoundTrip/Values.antt =====
-- What `Reader` (src/ubj/reader.cpp) makes of a storable value's tree is the value.
use Prim.Native.Nat.{Ordering}
use zway_lib.Base.{
  ℕ, ◌≡◌, ◌⊎◌, inl, inr, refl, sym, ap, ◌∙◌, true, some, none, List, [], ◌∷◌, length, arith,
  take-all, suc, suc_eq_zero, lt→ltb,
}
use zway_lib.Buffer.{of_bytes, create}
use zway_lib.Buffer.Laws.{create_null, create-some, write-replicate}
use zway_lib.Ubj.Key.{Key, cmp, cmp_lt, eq_of_cmp}
use zway_lib.Ubj.Value.{
  UbjType, Value, value, nothing, buffered, fields, items, Object, end, field, Array, nil, cons,
  Runtime, null_type, bool_true, bool_false, string, int32, int64, float32, float64, array, object,
  null,
}
use zway_lib.Ubj.Value.Convert.{of_string, to_str, to_int, to_long, set_buffer}
use zway_lib.Ubj.Value.Numbers.{of_int_lem, of_long_lem, signed-word4, signed-word8}
use zway_lib.Ubj.Object.{find, set_field, push_back, IsSorted, Behind}
use zway_lib.Ubj.Format.Reader.{read_dynamic, read_object, read_array, of_real}
use zway_lib.Ubj.Format.RoundTrip.{
  IsText, IsStorable, AllStorable, EachStorable, tree, pairs_of, pairs, items_of, dynamics,
}
use zway_lib.Ubj.Format.RoundTrip.Calls.{c_str_lem}

-- Fields behind those of an object, and items behind those of an array.
abbrev with_fields : Object → Object → Object
with_fields end p = p
with_fields (field k v o) p = field k v (with_fields o p)

abbrev with_items : Array → Array → Array
with_items nil b = b
with_items (cons v a) b = cons v (with_items a b)

with_fields_end : (o : Object) → with_fields o end ≡ o
with_fields_end end = refl
with_fields_end (field k v o) = ap (field k v) (with_fields_end o)

with_items_nil : (a : Array) → with_items a nil ≡ a
with_items_nil nil = refl
with_items_nil (cons v a) = ap (cons v) (with_items_nil a)

with_items-push_back :
    (a b : Array) (v : Value) → with_items (push_back a v) b ≡ with_items a (cons v b)
unfolding push_back
with_items-push_back nil b v = refl
with_items-push_back (cons w a) b v = ap (cons w) (with_items-push_back a b v)

-- The key comes behind all of the object's.
abbrev AllBefore : Key → Object → Type 0
AllBefore k end = Unit {0}
AllBefore k (field j v o) = (cmp j k ≡ Ordering.lt) × AllBefore k o

find-AllBefore : (k : Key) (o : Object) → AllBefore k o → find k o ≡ none
unfolding find
find-AllBefore k end h = refl
find-AllBefore k (field j v o) h = ground (arith, find-AllBefore k o h.1, cmp_lt j k)

with_fields-set_field :
    (k : Key) (v : Value) (o p : Object)
    → AllBefore k o
    → with_fields (set_field k v o) p ≡ with_fields o (field k v p)
unfolding set_field
with_fields-set_field k v end p h = refl
with_fields-set_field k v (field j w o) p h =
    ground (arith, with_fields-set_field k v o p h.1, cmp_lt j k)

set_field-AllBefore :
    (j k : Key) (v : Value) (o : Object)
    → AllBefore j o
    → cmp k j ≡ Ordering.lt
    → AllBefore j (set_field k v o)
unfolding set_field
set_field-AllBefore j k v end h e = (e, tt)
set_field-AllBefore j k v (field i w o) h e =
    ground (arith, set_field-AllBefore j k v o h.1 e, eq_of_cmp k i)

-- The keys of the second object come behind all of the first.
abbrev Apart : Object → Object → Type 0
Apart o end = Unit {0}
Apart o (field k v p) = AllBefore k o × Apart o p

set_field-Apart :
    (k : Key) (v : Value) (o p : Object) → Behind k p → Apart o p → Apart (set_field k v o) p
set_field-Apart k v o end b h = tt
set_field-Apart k v o (field j w p) b h =
    (set_field-AllBefore j k v o h.0 b.0, set_field-Apart k v o p b.1 h.1)

end-Apart : (p : Object) → Apart end p
end-Apart end = tt
end-Apart (field k v p) = (tt, end-Apart p)

module _ (rt : Runtime) (memory : (n : ℕ) → rt.malloc n ≡ true) where
  pub block_lem : (l : List ℕ) → create rt.malloc (some l) (length l) ≡ some (of_bytes l)
  block_lem l =
      create-some rt.malloc l (length l) (memory (length l)) (omega arith)
      ∙ ap (λ m. some (of_bytes m)) (take-all (length l) l (omega arith))

  of_real_lem :
      (t : UbjType) (n : ℕ) (l : List ℕ)
      → (t ≡ float32) ⊎ (t ≡ float64)
      → length l ≡ n
      → of_real rt t n l ≡ value t (buffered (of_bytes l))
  unfolding set_buffer
  of_real_lem t n l k e = ground (arith, e, block_lem l)

  of_string_lem : (s : List ℕ) → IsText s → of_string rt s ≡ value string (buffered (of_bytes s))
  unfolding of_string
  of_string_lem [] h = absurd h
  of_string_lem (c ∷ s) h =
      rw
        (
          lt→ltb 0 (suc (length s)) (omega arith),
          suc_eq_zero (length s),
          create_null rt.malloc (length (c ∷ s)) (memory (length (c ∷ s))),
          write-replicate (c ∷ s) (omega arith),
        )
        refl

  mutual
    unfolding read_dynamic read_object read_array tree pairs_of pairs items_of dynamics to_int
        to_long to_str

    pub read_dynamic-tree : (v : Value) → IsStorable v → read_dynamic rt (tree rt v) null ≡ v
    read_dynamic-tree (value null_type nothing) h = refl
    read_dynamic-tree (value bool_true nothing) h = refl
    read_dynamic-tree (value bool_false nothing) h = refl
    read_dynamic-tree (value int32 (buffered b)) (x, h, e) =
        rw (e, signed-word4 x h, of_int_lem rt memory x) refl
    read_dynamic-tree (value int64 (buffered b)) (x, h, e) =
        rw (e, signed-word8 x h, of_long_lem rt memory x) refl
    read_dynamic-tree (value float32 (buffered b)) (l, h, e) =
        rw e (of_real_lem float32 4 l (inl refl) h)
    read_dynamic-tree (value float64 (buffered b)) (l, h, e) =
        rw e (of_real_lem float64 8 l (inr refl) h)
    read_dynamic-tree (value string (buffered b)) (c ∷ s, h, e) =
        rw (e, c_str_lem (c ∷ s) h) (of_string_lem (c ∷ s) h)
    read_dynamic-tree (value string (buffered b)) ([], h, e) = absurd h
    read_dynamic-tree (value array (buffered b)) (c ∷ l, full, e) =
        rw (e, suc_eq_zero (length l), block_lem (c ∷ l)) refl
    read_dynamic-tree (value array (buffered b)) ([], full, e) = absurd (omega arith)
    read_dynamic-tree (value object (fields o)) (e, s, all) =
        rw (read_object-pairs o end s all (end-Apart o)) refl
    read_dynamic-tree (value array (items a)) (e, each) = rw (read_array-dynamics a nil each) refl
    read_dynamic-tree (value t p) h = grind arith

    read_object-pairs :
        (o res : Object)
        → IsSorted o
        → AllStorable o
        → Apart res o
        → read_object rt (pairs rt o) res ≡ with_fields res o
    read_object-pairs end res s all far = sym (with_fields_end res)
    read_object-pairs (field k v o) res s (text, one, all) far =
        rw (find-AllBefore k res far.0, read_dynamic-tree v one)
          (read_object-pairs o (set_field k v res) s.1 all (set_field-Apart k v res o s.0 far.1)
            ∙ with_fields-set_field k v res o far.0)

    read_array-dynamics :
        (a res : Array) → EachStorable a → read_array rt (dynamics rt a) res ≡ with_items res a
    read_array-dynamics nil res h = sym (with_items_nil res)
    read_array-dynamics (cons v a) res (one, each) =
        rw (read_dynamic-tree v one)
          (read_array-dynamics a (push_back res v) each ∙ with_items-push_back res a v)
