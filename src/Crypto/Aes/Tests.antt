-- ===== src/Crypto/Aes/Tests.antt =====
-- A run of the cipher over more than one chunk.
use zway_lib.Base.{ℕ, ◌≡◌, refl, true, none, some, List, ◌∷◌, length, replicate}
use zway_lib.Crypto.Aes.{encrypt}
use zway_lib.Crypto.Aes.Toy.{toy_nettle, toy_nettle-IsCounterMode}
use zway_lib.Crypto.Aes.Chunks.{encrypt-encrypt}

abbrev text : List ℕ
text = 7 ∷ replicate 1030 65

encrypt-encrypt_example :
    (e : List ℕ) × (length e ≡ length text)
    × (encrypt toy_nettle Unit (λ n. true) true none (3, 0) text tt
        ≡ some (true, (toy_nettle.ctr_crypt (3, 0) text).1, e, tt))
    × (encrypt toy_nettle Unit (λ n. true) true none (3, 0) e tt
        ≡ some (true, (toy_nettle.ctr_crypt (3, 0) text).1, text, tt))
encrypt-encrypt_example =
    encrypt-encrypt toy_nettle toy_nettle-IsCounterMode (λ n. true) (3, 0) text refl
