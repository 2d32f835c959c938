-- ===== src/Ubj/Store/Bind/Order.antt =====
-- Parameters and values of a bound statement (src/ubj/store/action.cpp).
use zway_lib.Base.{
  ℕ, suc, ◌+◌, ◌≡◌, refl, ap, ◌∙◌, Bool, false, Option, none, some, List, [], ◌∷◌, arith, length,
}
use zway_lib.Buffer.{MemoryBuffer}
use zway_lib.Ubj.Value.{Runtime, Value, of_array, Array}
use zway_lib.Ubj.Store.Bind.{Binding, bind_value, bind_all, bind_ubj_to_stmt, serialized}

module _ (rt : Runtime) (vtab : Bool) (serialize : Value → Option MemoryBuffer) where
  -- Each value has its call.
  abbrev pub AllBind : List Value → List Binding → Type 0
  AllBind [] [] = Unit {0}
  AllBind (v ∷ vs) (b ∷ bs) = (bind_value rt vtab serialize v ≡ some b) × AllBind vs bs
  AllBind _ _ = ⊥

  -- Calls for the parameters `i + 1`, `i + 2`, ….
  abbrev pub numbered : ℕ → List Binding → List (ℕ × Binding)
  numbered i [] = []
  numbered i (b ∷ bs) = (suc i, b) ∷ numbered (suc i) bs

  -- How many values have no call.
  abbrev pub skipped : List Value → ℕ
  skipped [] = 0
  skipped (v ∷ vs) = elim (bind_value rt vtab serialize v) [ none ↦ 1 | some b ↦ 0 ] + skipped vs

  all_bound :
      (vs : List Value) (bs : List Binding) (i : ℕ)
      → AllBind vs bs
      → bind_all rt vtab serialize vs i ≡ (numbered i bs, i + length vs)
  unfolding bind_all
  all_bound [] [] i h = ap (λ n. ([], n)) (omega arith)
  all_bound [] (b ∷ bs) i h = absurd h
  all_bound (v ∷ vs) [] i h = absurd h
  all_bound (v ∷ vs) (b ∷ bs) i h =
      rw (h.0, all_bound vs bs (suc i) h.1)
        (ap (λ n. ((suc i, b) ∷ numbered (suc i) bs, n)) (omega arith))

  count_bound :
      (vs : List Value) (i : ℕ) → (bind_all rt vtab serialize vs i).1 + skipped vs ≡ i + length vs
  unfolding bind_all
  count_bound [] i = omega arith
  count_bound (v ∷ vs) i = ground (arith, count_bound vs i, count_bound vs (suc i))

-- If each value has its call, the parameters 1 to n get the values in their order.
pub bind_ubj_to_stmt_lem :
    (rt : Runtime) (vtab : Bool) (serialize : Value → Option MemoryBuffer) (bound : List Value)
    (bs : List Binding)
    → AllBind rt vtab serialize bound bs
    → bind_ubj_to_stmt rt vtab serialize bound ≡ (numbered rt vtab serialize 0 bs, length bound)
unfolding bind_ubj_to_stmt
bind_ubj_to_stmt_lem rt vtab serialize bound bs h =
    all_bound rt vtab serialize bound bs 0 h
    ∙ ap (λ n. (numbered rt vtab serialize 0 bs, n)) (omega arith)

-- The number returned falls short of the number of values by just as many as have no call.
pub bind_ubj_to_stmt-skipped :
    (rt : Runtime) (vtab : Bool) (serialize : Value → Option MemoryBuffer) (bound : List Value)
    → (bind_ubj_to_stmt rt vtab serialize bound).1 + skipped rt vtab serialize bound ≡ length bound
unfolding bind_ubj_to_stmt
bind_ubj_to_stmt-skipped rt vtab serialize bound =
    omega (arith, count_bound rt vtab serialize bound 0)

-- For a table that is not virtual an array of values has no call: if the value behind it has one,
-- it goes to the array's parameter.
pub array_shifts :
    (rt : Runtime) (serialize : Value → Option MemoryBuffer) (a : Array) (w : Value) (b : Binding)
    (vs : List Value)
    → bind_value rt false serialize w ≡ some b
    → bind_ubj_to_stmt rt false serialize (of_array a ∷ w ∷ vs)
      ≡ ((1, b) ∷ (bind_all rt false serialize vs 1).0, (bind_all rt false serialize vs 1).1)
unfolding bind_ubj_to_stmt serialized
array_shifts rt serialize a w b vs h = rw (unbound, h)
  where
    unbound : bind_value rt false serialize (of_array a) ≡ none
    unbound = unfold bind_value serialized in refl
