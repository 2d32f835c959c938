-- ===== src/Ubj/Key.antt =====
-- The keys of objects: `std::string`, as the list of its bytes, in the order of `std::map`.
use Prim.Native.Nat.{compare, Ordering}
use zway_lib.Base.{ℕ, ◌≡◌, refl, Bool, true, false, List, [], ◌∷◌, arith}

abbrev pub Key : Type 0
Key = List ℕ

abbrev then_by : Ordering → Ordering → Ordering
then_by Ordering.eq c = c
then_by Ordering.lt c = Ordering.lt
then_by Ordering.gt c = Ordering.gt

-- `std::string::compare`: by the first byte that differs, then by length.
unfoldable pub cmp : Key → Key → Ordering
cmp [] [] = Ordering.eq
cmp [] (y ∷ b) = Ordering.lt
cmp (x ∷ a) [] = Ordering.gt
cmp (x ∷ a) (y ∷ b) = then_by (compare x y) (cmp a b)

abbrev pub is_eq : Ordering → Bool
is_eq Ordering.eq = true
is_eq Ordering.lt = false
is_eq Ordering.gt = false

abbrev pub same_key : Key → Key → Bool
same_key a b = is_eq (cmp a b)

pub cmp_refl : (a : Key) → cmp a a ≡ Ordering.eq
unfolding cmp
cmp_refl [] = refl
cmp_refl (x ∷ a) = ground (arith, cmp_refl a)

pub eq_of_cmp : (a b : Key) → cmp a b ≡ Ordering.eq → a ≡ b
unfolding cmp
eq_of_cmp [] [] h = refl
eq_of_cmp [] (y ∷ b) h = cc
eq_of_cmp (x ∷ a) [] h = cc
eq_of_cmp (x ∷ a) (y ∷ b) h = ground (arith, eq_of_cmp a b)

pub cmp_gt : (a b : Key) → cmp a b ≡ Ordering.gt → cmp b a ≡ Ordering.lt
unfolding cmp
cmp_gt [] [] h = cc
cmp_gt [] (y ∷ b) h = cc
cmp_gt (x ∷ a) [] h = refl
cmp_gt (x ∷ a) (y ∷ b) h = ground (arith, cmp_gt a b)

pub cmp_lt : (a b : Key) → cmp a b ≡ Ordering.lt → cmp b a ≡ Ordering.gt
unfolding cmp
cmp_lt [] [] h = cc
cmp_lt [] (y ∷ b) h = refl
cmp_lt (x ∷ a) [] h = cc
cmp_lt (x ∷ a) (y ∷ b) h = ground (arith, cmp_lt a b)

pub cmp_trans :
    (a b c : Key) → cmp a b ≡ Ordering.lt → cmp b c ≡ Ordering.lt → cmp a c ≡ Ordering.lt
unfolding cmp
cmp_trans [] [] c h k = cc
cmp_trans [] (y ∷ b) [] h k = cc
cmp_trans [] (y ∷ b) (z ∷ c) h k = refl
cmp_trans (x ∷ a) [] c h k = cc
cmp_trans (x ∷ a) (y ∷ b) [] h k = cc
cmp_trans (x ∷ a) (y ∷ b) (z ∷ c) h k = ground (arith, cmp_trans a b c)
