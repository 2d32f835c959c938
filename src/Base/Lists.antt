-- ===== src/Base/Lists.antt =====
-- Lists measured and indexed by native numbers, under the library's names.
use Prim.Native.Nat.{ℕ, zero, suc, ◌+◌, ◌-◌, ◌<◌, ◌≤◌, min}
use mathlib.Core.Path.{◌≡◌, refl, ap, sym, ◌∙◌}
use mathlib.Core.Logic.{◌≢◌}
use mathlib.Core.List.{List, [], ◌∷◌, ◌++◌, map, append_assoc}
use mathlib.Core.Option.{Option, none, some}
use native.Mathlib.Omega.{arith}

module _ {ℓ} {A : Type ℓ} where
  abbrev pub length : List A → ℕ
  length [] = 0
  length (x ∷ xs) = suc (length xs)

  abbrev pub get_elem? : List A → ℕ → Option A
  get_elem? [] i = none
  get_elem? (x ∷ xs) zero = some x
  get_elem? (x ∷ xs) (suc i) = get_elem? xs i

  -- A write out of bounds changes nothing.
  abbrev pub set : List A → ℕ → A → List A
  set [] i v = []
  set (x ∷ xs) zero v = v ∷ xs
  set (x ∷ xs) (suc i) v = x ∷ set xs i v

  pub length-append : (xs ys : List A) → length (xs ++ ys) ≡ length xs + length ys
  length-append [] ys = omega arith
  length-append (x ∷ xs) ys = omega (arith, length-append xs ys)

module _ {ℓ} {A : Type ℓ} where
  pub length-set : (xs : List A) (i : ℕ) (v : A) → length (set xs i v) ≡ length xs
  length-set [] i v = refl
  length-set (x ∷ xs) zero v = refl
  length-set (x ∷ xs) (suc i) v = ap suc (length-set xs i v)

  pub get_elem?-set_self :
      (xs : List A) (i : ℕ) (v : A) → i < length xs → get_elem? (set xs i v) i ≡ some v
  get_elem?-set_self [] i v h = elim h [ ]
  get_elem?-set_self (x ∷ xs) zero v h = refl
  get_elem?-set_self (x ∷ xs) (suc i) v h = get_elem?-set_self xs i v (omega arith)

  pub get_elem?-set_ne :
      (xs : List A) {i j : ℕ} (v : A) → i ≢ j → get_elem? (set xs i v) j ≡ get_elem? xs j
  get_elem?-set_ne [] v h = refl
  get_elem?-set_ne (x ∷ xs) {i = zero} {j = zero} v h = absurd (h refl)
  get_elem?-set_ne (x ∷ xs) {i = zero} {j = suc j} v h = refl
  get_elem?-set_ne (x ∷ xs) {i = suc i} {j = zero} v h = refl
  get_elem?-set_ne (x ∷ xs) {i = suc i} {j = suc j} v h = get_elem?-set_ne xs v (λ e. h (ap suc e))

module _ {ℓ} {A : Type ℓ} where
  abbrev pub get_or : List A → ℕ → A → A
  get_or [] i d = d
  get_or (x ∷ xs) zero d = x
  get_or (x ∷ xs) (suc i) d = get_or xs i d

  abbrev pub take : ℕ → List A → List A
  take zero xs = []
  take (suc n) [] = []
  take (suc n) (x ∷ xs) = x ∷ take n xs

  abbrev pub drop : ℕ → List A → List A
  drop zero xs = xs
  drop (suc n) [] = []
  drop (suc n) (x ∷ xs) = drop n xs

  unfoldable pub replicate : ℕ → A → List A
  replicate zero a = []
  replicate (suc n) a = a ∷ replicate n a

  pub take-append-drop : (n : ℕ) (xs : List A) → take n xs ++ drop n xs ≡ xs
  take-append-drop zero xs = refl
  take-append-drop (suc n) [] = refl
  take-append-drop (suc n) (x ∷ xs) = rw (take-append-drop n xs)

  pub length-take : (n : ℕ) (xs : List A) → length (take n xs) ≡ min n (length xs)
  length-take zero xs = omega arith
  length-take (suc n) [] = omega arith
  length-take (suc n) (x ∷ xs) = omega (arith, length-take n xs)

  pub length-drop : (n : ℕ) (xs : List A) → length (drop n xs) ≡ length xs - n
  length-drop zero xs = omega arith
  length-drop (suc n) [] = omega arith
  length-drop (suc n) (x ∷ xs) = omega (arith, length-drop n xs)

  pub length-replicate : (n : ℕ) (a : A) → length (replicate n a) ≡ n
  unfolding replicate
  length-replicate zero a = refl
  length-replicate (suc n) a = ap suc (length-replicate n a)

  pub length-map {κ} : {B : Type κ} (xs : List A) (f : A → B) → length (map f xs) ≡ length xs
  length-map [] f = refl
  length-map (x ∷ xs) f = ap suc (length-map xs f)

-- `memcpy` into a block: `src` over `dst` from index `i` on. What would fall outside is dropped.
module _ {ℓ} {A : Type ℓ} where
  unfoldable pub overwrite : List A → ℕ → List A → List A
  overwrite [] i src = []
  overwrite (x ∷ dst) (suc i) src = x ∷ overwrite dst i src
  overwrite (x ∷ dst) zero [] = x ∷ dst
  overwrite (x ∷ dst) zero (y ∷ src) = y ∷ overwrite dst zero src

  pub length-overwrite :
      (dst : List A) (i : ℕ) (src : List A) → length (overwrite dst i src) ≡ length dst
  unfolding overwrite
  length-overwrite [] i src = refl
  length-overwrite (x ∷ dst) (suc i) src = ap suc (length-overwrite dst i src)
  length-overwrite (x ∷ dst) zero [] = refl
  length-overwrite (x ∷ dst) zero (y ∷ src) = ap suc (length-overwrite dst zero src)

  pub drop_zero : (xs : List A) → drop 0 xs ≡ xs
  drop_zero xs = refl

  drop_nil : (k : ℕ) → drop {A = A} k [] ≡ []
  drop_nil zero = refl
  drop_nil (suc k) = refl

  pub drop-drop : (m n : ℕ) (xs : List A) → drop m (drop n xs) ≡ drop (n + m) xs
  drop-drop m zero xs = let e : m ≡ 0 + m = omega arith in ap (λ k. drop k xs) e
  drop-drop m (suc n) [] = drop_nil m ∙ sym (drop_nil (suc n + m))
  drop-drop m (suc n) (x ∷ xs) =
      let e : suc (n + m) ≡ suc n + m = omega arith in
      drop-drop m n xs ∙ ap (λ k. drop k (x ∷ xs)) e

  pub overwrite-nil : (dst : List A) (i : ℕ) → overwrite dst i [] ≡ dst
  unfolding overwrite
  overwrite-nil [] i = refl
  overwrite-nil (x ∷ dst) zero = refl
  overwrite-nil (x ∷ dst) (suc i) = ap (◌∷◌ x) (overwrite-nil dst i)

  pub take-overwrite :
      (dst : List A) (i : ℕ) (src : List A) (m : ℕ)
      → m ≡ i + length src
      → m ≤ length dst
      → take m (overwrite dst i src) ≡ take i dst ++ src
  unfolding overwrite
  take-overwrite [] zero [] zero e h = refl
  take-overwrite [] zero (y ∷ src) zero e h = absurd (omega arith)
  take-overwrite [] (suc i) src zero e h = absurd (omega arith)
  take-overwrite [] i src (suc m) e h = absurd (omega arith)
  take-overwrite (x ∷ dst) (suc i) src zero e h = absurd (omega arith)
  take-overwrite (x ∷ dst) (suc i) src (suc m) e h =
      ap (◌∷◌ x) (take-overwrite dst i src m (omega arith) (omega arith))
  take-overwrite (x ∷ dst) zero [] zero e h = refl
  take-overwrite (x ∷ dst) zero [] (suc m) e h = absurd (omega arith)
  take-overwrite (x ∷ dst) zero (y ∷ src) zero e h = absurd (omega arith)
  take-overwrite (x ∷ dst) zero (y ∷ src) (suc m) e h =
      ap (◌∷◌ y) (take-overwrite dst zero src m (omega arith) (omega arith))

  pub drop-overwrite :
      (dst : List A) (i : ℕ) (src : List A) (m : ℕ)
      → i + length src ≤ m
      → drop m (overwrite dst i src) ≡ drop m dst
  unfolding overwrite
  drop-overwrite [] i src m h = refl
  drop-overwrite (x ∷ dst) (suc i) src zero h = absurd (omega arith)
  drop-overwrite (x ∷ dst) (suc i) src (suc m) h = drop-overwrite dst i src m (omega arith)
  drop-overwrite (x ∷ dst) zero [] m h = refl
  drop-overwrite (x ∷ dst) zero (y ∷ src) zero h = absurd (omega arith)
  drop-overwrite (x ∷ dst) zero (y ∷ src) (suc m) h = drop-overwrite dst zero src m (omega arith)

  -- Inside the block the result is the part before, the source, and the part behind.
  pub overwrite_within :
      (dst : List A) (i : ℕ) (src : List A)
      → i + length src ≤ length dst
      → overwrite dst i src ≡ take i dst ++ (src ++ drop (i + length src) dst)
  overwrite_within dst i src h =
      sym (take-append-drop (i + length src) (overwrite dst i src))
      ∙ rw
          (
            take-overwrite dst i src (i + length src) refl h,
            drop-overwrite dst i src (i + length src) (omega arith),
          )
          (append_assoc (take i dst) src (drop (i + length src) dst))

  pub take-all : (n : ℕ) (xs : List A) → length xs ≤ n → take n xs ≡ xs
  take-all zero [] h = refl
  take-all zero (x ∷ xs) h = absurd (omega arith)
  take-all (suc n) [] h = refl
  take-all (suc n) (x ∷ xs) h = ap (◌∷◌ x) (take-all n xs (omega arith))

  pub take-take : (m n : ℕ) (xs : List A) → m ≤ n → take m (take n xs) ≡ take m xs
  take-take zero n xs h = refl
  take-take (suc m) zero xs h = absurd (omega arith)
  take-take (suc m) (suc n) [] h = refl
  take-take (suc m) (suc n) (x ∷ xs) h = ap (◌∷◌ x) (take-take m n xs (omega arith))

  pub take-add : (i n m : ℕ) (xs : List A) → m ≡ i + n → take m xs ≡ take i xs ++ take n (drop i xs)
  take-add zero n m xs e = ap (λ k. take k xs) (omega arith)
  take-add (suc i) n zero xs e = absurd (omega arith)
  take-add (suc i) zero (suc m) [] e = refl
  take-add (suc i) (suc n) (suc m) [] e = refl
  take-add (suc i) n (suc m) (x ∷ xs) e = ap (◌∷◌ x) (take-add i n m xs (omega arith))

  -- A `take` of more than there is.
  pub take-min : (m : ℕ) (xs : List A) (n : ℕ) → length xs ≡ n → take (min m n) xs ≡ take m xs
  take-min zero xs n e = let s : min 0 n ≡ 0 = omega arith in ap (λ k. take k xs) s
  take-min (suc m) [] zero e = let s : min (suc m) 0 ≡ 0 = omega arith in ap (λ k. take k []) s
  take-min (suc m) [] (suc n) e = absurd (omega arith)
  take-min (suc m) (x ∷ xs) zero e = absurd (omega arith)
  take-min (suc m) (x ∷ xs) (suc n) e =
      let s : min (suc m) (suc n) ≡ suc (min m n) = omega arith in
      ap (λ k. take k (x ∷ xs)) s ∙ ap (◌∷◌ x) (take-min m xs n (omega arith))

  pub take_append_length : (xs ys : List A) → take (length xs) (xs ++ ys) ≡ xs
  take_append_length [] ys = refl
  take_append_length (x ∷ xs) ys = ap (◌∷◌ x) (take_append_length xs ys)

  pub drop_append_length : (xs ys : List A) → drop (length xs) (xs ++ ys) ≡ ys
  drop_append_length [] ys = refl
  drop_append_length (x ∷ xs) ys = drop_append_length xs ys

  -- Writing a whole block over zeros, or over anything of that length.
  pub overwrite_all : (dst src : List A) → length src ≡ length dst → overwrite dst 0 src ≡ src
  unfolding overwrite
  overwrite_all [] [] h = refl
  overwrite_all [] (y ∷ src) h = absurd (omega arith)
  overwrite_all (x ∷ dst) [] h = absurd (omega arith)
  overwrite_all (x ∷ dst) (y ∷ src) h = ap (◌∷◌ y) (overwrite_all dst src (omega arith))

  -- What was copied in is read back.
  pub take-drop-overwrite :
      (dst : List A) (i : ℕ) (src : List A) (k : ℕ)
      → length src ≡ k
      → k ≤ length dst - i
      → take k (drop i (overwrite dst i src)) ≡ src
  unfolding overwrite
  take-drop-overwrite dst i [] zero e h = refl
  take-drop-overwrite dst i [] (suc k) e h = absurd (omega arith)
  take-drop-overwrite dst i (y ∷ src) zero e h = absurd (omega arith)
  take-drop-overwrite [] i (y ∷ src) (suc k) e h = absurd (omega arith)
  take-drop-overwrite (x ∷ dst) (suc i) (y ∷ src) (suc k) e h =
      take-drop-overwrite dst i (y ∷ src) (suc k) e (omega arith)
  take-drop-overwrite (x ∷ dst) zero (y ∷ src) (suc k) e h = ap (◌∷◌ y) (
      ap (take k) (sym (drop_zero (overwrite dst zero src)))
      ∙ take-drop-overwrite dst zero src k (omega arith) (omega arith))

  -- A second write over the first, of as many bytes.
  pub overwrite-overwrite :
      (dst : List A) (i : ℕ) (a b : List A)
      → length a ≡ length b
      → overwrite (overwrite dst i a) i b ≡ overwrite dst i b
  unfolding overwrite
  overwrite-overwrite [] i a b e = refl
  overwrite-overwrite (x ∷ dst) (suc i) a b e = ap (◌∷◌ x) (overwrite-overwrite dst i a b e)
  overwrite-overwrite (x ∷ dst) zero [] [] e = refl
  overwrite-overwrite (x ∷ dst) zero [] (z ∷ b) e = absurd (omega arith)
  overwrite-overwrite (x ∷ dst) zero (y ∷ a) [] e = absurd (omega arith)
  overwrite-overwrite (x ∷ dst) zero (y ∷ a) (z ∷ b) e =
      ap (◌∷◌ z) (overwrite-overwrite dst zero a b (omega arith))

  pub overwrite_start :
      (dst src : List A) (k : ℕ)
      → length src ≡ k
      → k ≤ length dst
      → overwrite dst 0 src ≡ src ++ drop k dst
  overwrite_start dst src k e h =
      overwrite_within dst 0 src (omega arith) ∙ ap (λ m. src ++ drop m dst) (omega arith)

  pub take_exact : (xs ys : List A) (n : ℕ) → length xs ≡ n → take n (xs ++ ys) ≡ xs
  take_exact [] ys zero e = refl
  take_exact [] ys (suc n) e = absurd (omega arith)
  take_exact (x ∷ xs) ys zero e = absurd (omega arith)
  take_exact (x ∷ xs) ys (suc n) e = ap (◌∷◌ x) (take_exact xs ys n (omega arith))

  pub drop_exact : (xs ys : List A) (n : ℕ) → length xs ≡ n → drop n (xs ++ ys) ≡ ys
  drop_exact [] ys zero e = refl
  drop_exact [] ys (suc n) e = absurd (omega arith)
  drop_exact (x ∷ xs) ys zero e = absurd (omega arith)
  drop_exact (x ∷ xs) ys (suc n) e = drop_exact xs ys n (omega arith)
