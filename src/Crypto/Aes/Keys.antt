-- ===== src/Crypto/Aes/Keys.antt =====
-- `AES::setKey` and `AES::setCtr` (src/crypto/aes.cpp) on two contexts: the constructor leaves its context
-- as the memory was.
use zway_lib.Base.{◌≡◌, ◌∙◌, some, length, take, length-take, arith}
use zway_lib.Buffer.{MemoryBuffer, bytes}
use zway_lib.Crypto.Aes.{Nettle, IsCounterMode, set_key, set_ctr}

module _ (N : Nettle) (law : IsCounterMode N) (c c' : N.Context) (key counter : MemoryBuffer) where
  -- A whole key and a whole counter make any two contexts the same.
  pub set_ctr-set_key :
      length (bytes key) ≡ 32
      → length (bytes counter) ≡ 16
      → set_ctr N (set_key N c (some key)) (some counter)
        ≡ set_ctr N (set_key N c' (some key)) (some counter)
  set_ctr-set_key e f =
      law.key-counter c c' (take 32 (bytes key)) (take 16 (bytes counter))
        (length-take 32 (bytes key) ∙ omega (arith, e))
        (length-take 16 (bytes counter) ∙ omega (arith, f))
