-- ===== src/Crypto/Aes/Toy.antt =====
-- A cipher for tests, in counter mode: a context is a key and a position, and a byte at a position that
-- the key makes odd has its lowest bit changed.
use zway_lib.Base.{
  ℕ, suc, ◌+◌, ◌-◌, ◌%◌, ◌≡◌, refl, ap, ap₂, List, [], ◌∷◌, ◌++◌, ◌∙◌, length, length-append, ◌==◌,
  if◌then◌else◌, arith,
}
use zway_lib.Crypto.Aes.{Nettle, IsCounterMode}

abbrev sum : List ℕ → ℕ
sum [] = 0
sum (x ∷ l) = x + sum l

abbrev flip : ℕ → ℕ
flip x = if x % 2 == 0 then x + 1 else x - 1

abbrev mask : ℕ → ℕ → ℕ
mask k x = if k % 2 == 0 then x else flip x

unfoldable pub stream : ℕ → ℕ → List ℕ → List ℕ
stream k p [] = []
stream k p (x ∷ l) = mask (k + p) x ∷ stream k (suc p) l

abbrev pub toy_nettle : Nettle
toy_nettle = record {
  Context = ℕ × ℕ;
  set_encrypt_key = λ c l. (sum l, c.1);
  set_counter = λ c l. (c.0, sum l);
  ctr_crypt = λ c l. (stream c.0 c.1 l, (c.0, c.1 + length l));
}

mask-mask : (k x : ℕ) → mask k (mask k x) ≡ x
mask-mask k x = ground arith

length-stream : (k p : ℕ) (l : List ℕ) → length (stream k p l) ≡ length l
unfolding stream
length-stream k p [] = refl
length-stream k p (x ∷ l) = ap suc (length-stream k (suc p) l)

stream-stream : (k p : ℕ) (l : List ℕ) → stream k p (stream k p l) ≡ l
unfolding stream
stream-stream k p [] = refl
stream-stream k p (x ∷ l) = ap₂ (◌∷◌) (mask-mask (k + p) x) (stream-stream k (suc p) l)

stream-append :
    (k p : ℕ) (x y : List ℕ) → stream k p (x ++ y) ≡ stream k p x ++ stream k (p + length x) y
unfolding stream
stream-append k p [] y = ap (λ q. stream k q y) (omega arith)
stream-append k p (a ∷ x) y =
    ap (◌∷◌ (mask (k + p) a))
      (stream-append k (suc p) x y ∙ ap (λ q. stream k (suc p) x ++ stream k q y) (omega arith))

pub toy_nettle-IsCounterMode : IsCounterMode toy_nettle
unfolding stream
toy_nettle-IsCounterMode = record {
  length-crypt = λ c x. length-stream c.0 c.1 x;
  crypt-crypt = λ c x. stream-stream c.0 c.1 x;
  crypt-context = λ c x y e. ap (λ n. (c.0, c.1 + n)) e;
  crypt-nil = λ c. ap (λ n. ([], (c.0, n))) (omega arith);
  crypt-append = λ c x y h. ap₂ (λ a n. (a, (c.0, n))) (stream-append c.0 c.1 x y) (more c.1 x y);
  key-counter = λ c c' key counter e f. refl;
}
  where
    more : (p : ℕ) (x y : List ℕ) → p + length (x ++ y) ≡ (p + length x) + length y
    more p x y = let e = length-append x y in omega arith
