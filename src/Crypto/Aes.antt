-- ===== src/Crypto/Aes.antt =====
-- `Crypto::AES` of src/crypto/aes.cpp: AES in counter mode, in chunks of 1024 bytes.
-- `ctr_crypt` with `aes_encrypt`, `aes_set_encrypt_key` and `CTR_SET_COUNTER` are the nettle library's:
-- parameters.
pub mod Chunks
pub mod Keys
pub mod Toy
mod Tests
use zway_lib.Base.{
  ℕ, zero, suc, ◌+◌, ◌%◌, ◌≡◌, Bool, true, false, not, ◌&&◌, Option, none, some, List, [], ◌∷◌,
  ◌++◌, if◌then◌else◌, length, take, drop,
}
use zway_lib.Buffer.{MemoryBuffer, bytes}

pub record Nettle : Type 1 where
  pub Context : Type 0
  pub set_encrypt_key : Context → List ℕ → Context
  pub set_counter : Context → List ℕ → Context
  pub ctr_crypt : Context → List ℕ → List ℕ × Context

-- What the code relies on: counter mode gives as many bytes as it takes, undoes itself from the same
-- context, moves the context on by the length alone, and can be continued behind whole blocks. A whole key
-- and a whole counter leave nothing of what the context held before.
pub record IsCounterMode (N : Nettle) : Type 0 where
  pub length-crypt : (c : N.Context) (x : List ℕ) → length (N.ctr_crypt c x).0 ≡ length x
  pub crypt-crypt : (c : N.Context) (x : List ℕ) → (N.ctr_crypt c (N.ctr_crypt c x).0).0 ≡ x
  pub crypt-context :
      (c : N.Context) (x y : List ℕ)
      → length x ≡ length y
      → (N.ctr_crypt c x).1 ≡ (N.ctr_crypt c y).1
  pub crypt-nil : (c : N.Context) → N.ctr_crypt c [] ≡ ([], c)
  pub crypt-append :
      (c : N.Context) (x y : List ℕ)
      → length x % 16 ≡ 0
      → N.ctr_crypt c (x ++ y)
        ≡ (let a = N.ctr_crypt c x in let b = N.ctr_crypt a.1 y in (a.0 ++ b.0, b.1))
  pub key-counter :
      (c c' : N.Context) (key counter : List ℕ)
      → length key ≡ 32
      → length counter ≡ 16
      → N.set_counter (N.set_encrypt_key c key) counter
        ≡ N.set_counter (N.set_encrypt_key c' key) counter

-- `AES_KEY_SIZE` and `AES_BLOCK_SIZE`.
abbrev pub key_size : ℕ
key_size = 32

abbrev pub block_size : ℕ
block_size = 16

abbrev pub chunk_size : ℕ
chunk_size = 1024

module _ (N : Nettle) where
  -- A null pointer sets nothing. `AES_KEY_SIZE` bytes of the key are read, and a block of the counter; past
  -- the end of a shorter one nothing is known, and here there is nothing.
  abbrev pub set_key : N.Context → Option MemoryBuffer → N.Context
  set_key c none = c
  set_key c (some key) = N.set_encrypt_key c (take key_size (bytes key))

  abbrev pub set_ctr : N.Context → Option MemoryBuffer → N.Context
  set_ctr c none = c
  set_ctr c (some ctr) = N.set_counter c (take block_size (bytes ctr))

  module _ (St : Type 0) where
    -- What a call leaves: its result, the context, the bytes that it made, and the callback's state.
    abbrev pub Crypted : Type 0
    Crypted = Bool × N.Context × List ℕ × St

    -- The callback gets a chunk and the number of bytes up to its end.
    abbrev pub Callback : Type 0
    Callback = Option (St → List ℕ → ℕ → Bool × St)

    abbrev pub called : Callback → St → List ℕ → ℕ → Bool × St
    called none st d total = (true, st)
    called (some f) st d total = f st d total

    abbrev pub go_on : N.Context → List ℕ → (St → Option Crypted) → Bool × St → Option Crypted
    go_on c out next (false, st) = some (false, c, out, st)
    go_on c out next (true, st) = next st

    -- The loop of `encrypt` and of `decrypt`, which is the same. `none`: out of fuel.
    unfoldable pub crypt_chunks :
        (chunk fuel : ℕ) → Callback → N.Context → List ℕ → ℕ → List ℕ → St → Option Crypted
    crypt_chunks chunk zero f c rest total out st = none
    crypt_chunks chunk (suc fuel) f c [] total out st = some (true, c, out, st)
    crypt_chunks chunk (suc fuel) f c (x ∷ xs) total out st =
        let s = take chunk (x ∷ xs) in
        let d = N.ctr_crypt c s in
        go_on d.1 (out ++ d.0)
          (λ st'.
            crypt_chunks chunk fuel f d.1 (drop chunk (x ∷ xs)) (total + length s) (out ++ d.0) st')
          (called f st d.0 (total + length s))

    -- `encrypt` and `decrypt` of `src`. Without a destination, a chunk's memory is allocated, and only
    -- the callback sees what was made.
    unfoldable pub encrypt : (ℕ → Bool) → Bool → Callback → N.Context → List ℕ → St → Option Crypted
    unfolding crypt_chunks
    encrypt malloc has_dst f c src st =
        if not has_dst && not (malloc chunk_size)
        then some (false, c, [], st)
        else crypt_chunks chunk_size (suc (length src)) f c src 0 [] st
