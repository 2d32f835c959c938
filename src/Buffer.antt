-- ===== src/Buffer.antt =====
-- src/buffer.cpp and src/memorybuffer.cpp (include/Zway/buffer.h, include/Zway/memorybuffer.h,
-- include/Zway/crypto/erase_from_memory.h): a block of bytes with its size.
-- `malloc` is the C library's, an argument: whether an allocation of so many bytes succeeds. A block
-- is `none` where the source has a null pointer. A method that returns false is `none`.
pub mod Laws
mod Tests
use zway_lib.Base.{
  ℕ, ◌-◌, ◌≡◌, Bool, true, false, not, ◌&&◌, Option, none, some, List, ltb, ◌==◌, if◌then◌else◌,
  length, take, drop, replicate, overwrite,
}

-- What a pointer points to: `none` is the null pointer.
abbrev pub Pointer : Type 0
Pointer = Option (List ℕ)

pub record MemoryBuffer : Type 0 where
  pub m_data : Pointer
  pub m_size : ℕ

-- The constructor: no block, no size.
abbrev pub blank : MemoryBuffer
blank = record { m_data = none; m_size = 0 }

abbrev pub is_set {ℓ} : {A : Type ℓ} → Option A → Bool
is_set none = false
is_set (some a) = true

abbrev pub size : MemoryBuffer → ℕ
size b = b.m_size

unfoldable pub empty : MemoryBuffer → Bool
empty b = not (is_set b.m_data && not (b.m_size == 0))

-- The first `size_to_remove` bytes become 0, `size_data` at most.
unfoldable pub erase_from_memory : List ℕ → ℕ → ℕ → List ℕ
erase_from_memory p size_data size_to_remove =
    overwrite p 0 (replicate (if ltb size_data size_to_remove then size_data else size_to_remove) 0)

-- `memcpy(dst + at, src, n)`
abbrev pub memcpy : List ℕ → ℕ → List ℕ → ℕ → List ℕ
memcpy dst at src n = overwrite dst at (take n src)

-- How many of `n` bytes at `offset` there are in a block of `m_size`.
unfoldable pub available : ℕ → ℕ → ℕ → ℕ
available m_size n offset =
    if ltb offset m_size then (if ltb n (m_size - offset) then n else m_size - offset) else 0

abbrev pub on_block {ℓ} : {A : Type ℓ} → Pointer → A → (List ℕ → A) → A
on_block none null_case f = null_case
on_block (some p) null_case f = f p

-- The result: the destination after the copy, and `*bytesRead`.
unfoldable pub read : MemoryBuffer → Pointer → ℕ → ℕ → Option (List ℕ × ℕ)
unfolding empty available
read b dst n offset =
    if empty b
    then none
    else on_block dst none λ d. on_block b.m_data none λ block.
      let bytes_to_read = available b.m_size n offset in
      some (
        if bytes_to_read == 0 then d else memcpy d 0 (drop offset block) bytes_to_read,
        bytes_to_read,
      )

-- The result: the buffer after the copy, and `*bytesWritten`.
unfoldable pub write : MemoryBuffer → Pointer → ℕ → ℕ → Option (MemoryBuffer × ℕ)
unfolding empty available
write b src n offset =
    if empty b
    then none
    else on_block src none λ s. on_block b.m_data none λ block.
      let bytes_to_write = available b.m_size n offset in
      some (
        if bytes_to_write == 0
            then b
            else record b { m_data = some (memcpy block offset s bytes_to_write) },
        bytes_to_write,
      )

unfoldable pub clear : MemoryBuffer → MemoryBuffer
unfolding empty erase_from_memory
clear b =
    if empty b
    then b
    else on_block b.m_data b λ p. record b { m_data = some (erase_from_memory p b.m_size b.m_size) }

-- What `free` gives back is no longer in the model.
pub release : MemoryBuffer → MemoryBuffer
release b = record b { m_data = none; m_size = 0 }

-- What a `write` leaves whose result is not read.
abbrev written : MemoryBuffer → Option (MemoryBuffer × ℕ) → MemoryBuffer
written b none = b
written b (some (b', _)) = b'

module _ (malloc : ℕ → Bool) where
  unfoldable pub init : MemoryBuffer → Pointer → ℕ → Option MemoryBuffer
  init b src n =
      if malloc n
      then (let zeroed : MemoryBuffer = record b { m_data = some (replicate n 0); m_size = n } in
          on_block src (some zeroed) (λ s. some (written zeroed (write zeroed (some s) n 0))))
      else none

  unfoldable pub create : Pointer → ℕ → Option MemoryBuffer
  unfolding init
  create src n = init blank src n

  -- `create` from another buffer, which may be null.
  pub create_from : Option MemoryBuffer → Option MemoryBuffer
  create_from none = none
  create_from (some b) = create b.m_data (size b)

  unfoldable pub copy : MemoryBuffer → Option MemoryBuffer
  unfolding empty
  copy b = if empty b then none else create b.m_data b.m_size

-- The block of the given size is there, or there is none and the size is 0.
abbrev pub IsValid : MemoryBuffer → Type 0
IsValid b = elim b.m_data [ none ↦ b.m_size ≡ 0 | some p ↦ length p ≡ b.m_size ]

-- The bytes that a buffer holds.
abbrev pub bytes : MemoryBuffer → List ℕ
bytes b = elim b.m_data [ none ↦ List.[] | some p ↦ p ]

-- A buffer whose block is `p`.
abbrev pub of_bytes : List ℕ → MemoryBuffer
of_bytes p = record { m_data = some p; m_size = length p }
