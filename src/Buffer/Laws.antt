-- ===== src/Buffer/Laws.antt =====
-- What `read`, `write`, `create`, `copy` and `clear` of src/memorybuffer.cpp do to the bytes.
use zway_lib.Base.{
  ℕ, ◌+◌, ◌-◌, ◌≡◌, ◌≤◌, ◌<◌, refl, sym, ap, ◌∙◌, min, Bool, true, false, Option, none, some, List,
  [], ◌∷◌, ◌++◌, arith, length, take, drop, replicate, overwrite, length-overwrite, length-take,
  length-replicate, take-all, overwrite_all, overwrite_within, overwrite-nil, overwrite_start,
  take-drop-overwrite, ◌==◌, suc_eq_zero, ltb_irrefl, zero, suc, if◌then◌else◌,
}
use zway_lib.Buffer.{
  MemoryBuffer, IsValid, bytes, available, read, write, empty, create, copy, clear,
  erase_from_memory, of_bytes, Pointer,
}

pub available_lem : (m n offset : ℕ) → available m n offset ≡ min n (m - offset)
unfolding available
available_lem m n offset = ground arith

-- A valid buffer with a block is `of_bytes` of it.
pub eq_of_bytes : (b : MemoryBuffer) (p : List ℕ) → IsValid b → b.m_data ≡ some p → b ≡ of_bytes p
eq_of_bytes b p v e = ground arith

pub empty-of_bytes : (p : List ℕ) → 0 < length p → empty (of_bytes p) ≡ false
unfolding empty
empty-of_bytes p h = ground arith

-- A copy of no bytes is left out.
read_skip :
    (k : ℕ) (dst src : List ℕ)
    → (if k == 0 then dst else overwrite dst 0 (take k src)) ≡ overwrite dst 0 (take k src)
read_skip zero dst src = sym (overwrite-nil dst 0)
read_skip (suc k) dst src = rw (suc_eq_zero k)

write_skip :
    (k i : ℕ) (p src : List ℕ)
    → (if k == 0
        then of_bytes p
        else record { m_data = some (overwrite p i (take k src)); m_size = length p })
      ≡ of_bytes (overwrite p i (take k src))
write_skip zero i p src = ap of_bytes (sym (overwrite-nil p i))
write_skip (suc k) i p src = rw (suc_eq_zero k) (
    ap {B = MemoryBuffer}
      (λ m. record { m_data = some (overwrite p i (take (suc k) src)); m_size = m })
      (sym (length-overwrite p i (take (suc k) src))))

module _ (p s : List ℕ) (n offset : ℕ) (full : 0 < length p) where
  pub write-some :
      write (of_bytes p) (some s) n offset
      ≡ some (
        of_bytes (overwrite p offset (take (min n (length p - offset)) s)),
        min n (length p - offset),
      )
  unfolding write
  write-some =
      rw (empty-of_bytes p full, available_lem)
        (ap (λ b. some (b, min n (length p - offset)))
          (write_skip (min n (length p - offset)) offset p s))

  pub read-some :
      read (of_bytes p) (some s) n offset
      ≡ some (
        overwrite s 0 (take (min n (length p - offset)) (drop offset p)),
        min n (length p - offset),
      )
  unfolding read
  read-some =
      rw (empty-of_bytes p full, available_lem)
        (ap (λ d. some (d, min n (length p - offset)))
          (read_skip (min n (length p - offset)) s (drop offset p)))

-- A write into a valid buffer that is not empty, at an offset within its block and from a source
-- that is long enough, copies as many bytes as fit: they stand at the offset, what stood before
-- and behind them stays, and the size does too.
pub write_lem :
    (b : MemoryBuffer) (p s : List ℕ) (n offset : ℕ)
    → IsValid b
    → b.m_data ≡ some p
    → 0 < b.m_size
    → n ≤ length s
    → offset ≤ b.m_size
    → let k = min n (b.m_size - offset) in
      write b (some s) n offset
      ≡ some (record b { m_data = some (take offset p ++ (take k s ++ drop (offset + k) p)) }, k)
write_lem b p s n offset v e full enough inside =
    rw (eq_of_bytes b p v e) (write-some p s n offset (ground arith) ∙ same)
  where
    k : ℕ
    k = min n (length p - offset)

    copied : length (take k s) ≡ k
    copied = omega (arith, length-take k s)

    parts : overwrite p offset (take k s) ≡ take offset p ++ (take k s ++ drop (offset + k) p)
    parts =
        overwrite_within p offset (take k s) (ground (arith, copied))
        ∙ ap (λ m. take offset p ++ (take k s ++ drop (offset + m) p)) copied

    same :
        ◌≡◌ {A = Option (MemoryBuffer × ℕ)} (some (of_bytes (overwrite p offset (take k s)), k)) (
          some (
            record {
              m_data = some (take offset p ++ (take k s ++ drop (offset + k) p));
              m_size = length p;
            },
            k,
          ))
    same = λ i.
        some
          (record { m_data = some (parts i); m_size = length-overwrite p offset (take k s) i }, k)

-- In a valid buffer that is not empty, what was written, `n` bytes or as many as there are behind
-- the offset, is read back from the same place, whatever the destination held; source and
-- destination have `n` bytes at least.
pub read-write :
    (b : MemoryBuffer) (p s d : List ℕ) (n offset : ℕ)
    → IsValid b
    → b.m_data ≡ some p
    → 0 < b.m_size
    → n ≤ length s
    → n ≤ length d
    → let k = min n (b.m_size - offset) in
      (c : MemoryBuffer) × (write b (some s) n offset ≡ some (c, k))
      × (read c (some d) n offset ≡ some (take k s ++ drop k d, k))
read-write b p s d n offset v e full enough room = rw (eq_of_bytes b p v e) (
  of_bytes (overwrite p offset (take k s)),
  write-some p s n offset (ground arith),
  read-some (overwrite p offset (take k s)) d n offset (omega (arith, same_length, full'))
      ∙ rw (
        same_length,
        take-drop-overwrite p offset (take k s) k copied (omega arith),
        overwrite_start d (take k s) k copied (omega arith),
      ),
)
  where
    k : ℕ
    k = min n (length p - offset)

    full' : 0 < length p
    full' = ground arith

    same_length : length (overwrite p offset (take k s)) ≡ length p
    same_length = length-overwrite p offset (take k s)

    copied : length (take k s) ≡ k
    copied = omega (arith, length-take k s)

zeroed : (n : ℕ) → record { m_data = some (replicate n 0); m_size = n } ≡ of_bytes (replicate n 0)
zeroed n =
    λ i. record { m_data = some (replicate n 0); m_size = sym (length-replicate {A = ℕ} n 0) i }

write-zeroed :
    (s : List ℕ) (n : ℕ)
    → 0 < n
    → n ≤ length s
    → write (record { m_data = some (replicate n 0); m_size = n }) (some s) n 0
      ≡ some (of_bytes (take n s), n)
write-zeroed s n full enough = rw (zeroed n) (
    write-some (replicate n 0) s n 0 (omega (arith, zeros)) ∙ λ i.
    some (of_bytes (filled i), same i))
  where
    zeros : length (replicate {A = ℕ} n 0) ≡ n
    zeros = length-replicate n 0

    same : min n (length (replicate {A = ℕ} n 0) - 0) ≡ n
    same = omega (arith, zeros)

    filled :
        overwrite (replicate n 0) 0 (take (min n (length (replicate {A = ℕ} n 0) - 0)) s) ≡ take n s
    filled =
        rw same (overwrite_all (replicate n 0) (take n s) (omega (arith, zeros, length-take n s)))

-- Writing a whole source over as many zeros.
pub write-replicate :
    (s : List ℕ)
    → 0 < length s
    → write (of_bytes (replicate (length s) 0)) (some s) (length s) 0 ≡ some (of_bytes s, length s)
write-replicate s full = rw (sym (zeroed (length s))) (
    write-zeroed s (length s) full (omega arith)
    ∙ ap (λ p. some (of_bytes p, length s)) (take-all (length s) s (omega arith)))

pub create_null :
    (malloc : ℕ → Bool) (n : ℕ)
    → malloc n ≡ true
    → create malloc none n ≡ some (of_bytes (replicate n 0))
unfolding create
create_null malloc n h = rw h (ap some (zeroed n))

create_pos :
    (malloc : ℕ → Bool) (s : List ℕ) (n : ℕ)
    → malloc n ≡ true
    → n ≤ length s
    → 0 < n
    → create malloc (some s) n ≡ some (of_bytes (take n s))
unfolding create
create_pos malloc s n h enough full = rw (h, write-zeroed s n full enough)

pub create-some :
    (malloc : ℕ → Bool) (s : List ℕ) (n : ℕ)
    → malloc n ≡ true
    → n ≤ length s
    → create malloc (some s) n ≡ some (of_bytes (take n s))
unfolding create write replicate
create-some malloc s zero h enough = rw h
create-some malloc s (suc n) h enough = create_pos malloc s (suc n) h enough (omega arith)

-- `create` holds a copy of the first `n` bytes of a source that has as many, and `n` zeros
-- without one; it fails exactly when the allocation does.
pub create_lem :
    (malloc : ℕ → Bool) (s : List ℕ) (n : ℕ)
    → n ≤ length s
    → (create malloc (some s) n ≡ (if malloc n then some (of_bytes (take n s)) else none))
      × (create malloc none n ≡ (if malloc n then some (of_bytes (replicate n 0)) else none))
create_lem malloc s n enough = by_malloc (malloc n) refl
  where
    by_malloc :
        (c : Bool)
        → malloc n ≡ c
        → (create malloc (some s) n ≡ (if malloc n then some (of_bytes (take n s)) else none))
          × (create malloc none n ≡ (if malloc n then some (of_bytes (replicate n 0)) else none))
    by_malloc true h =
        (create-some malloc s n h enough ∙ rw h refl, create_null malloc n h ∙ rw h refl)
    by_malloc false h = unfold create in (rw h, rw h)

-- A valid buffer that is not empty is copied whole, if its size can be allocated.
pub copy_lem :
    (malloc : ℕ → Bool) (b : MemoryBuffer)
    → IsValid b
    → malloc b.m_size ≡ true
    → 0 < b.m_size
    → copy malloc b ≡ some b
unfolding copy
copy_lem malloc b v h full = copied b.m_data refl
  where
    copied : (q : Pointer) → b.m_data ≡ q → copy malloc b ≡ some b
    copied none e = absurd (ground (arith, e))
    copied (some p) e =
        rw (eq_of_bytes b p v e, empty-of_bytes p (ground (arith, e)))
          (create-some malloc p (length p) (ground (arith, e)) (omega arith)
            ∙ ap (λ q. some (of_bytes q)) (take-all (length p) p (omega arith)))

erased : (p : List ℕ) (n : ℕ) → length p ≡ n → erase_from_memory p n n ≡ replicate n 0
unfolding erase_from_memory
erased p n e =
    rw (ltb_irrefl n)
      (overwrite_all p (replicate n 0) (omega (arith, length-replicate {A = ℕ} n 0)))

pub clear-of_bytes : (p : List ℕ) → clear (of_bytes p) ≡ of_bytes (replicate (length p) 0)
unfolding clear empty
clear-of_bytes [] = unfold replicate in refl
clear-of_bytes (x ∷ p) =
    rw (suc_eq_zero (length p), erased (x ∷ p) (suc (length p)) refl) (zeroed (suc (length p)))

-- `clear` of a valid buffer leaves the size and zeroes every byte.
pub clear_lem :
    (b : MemoryBuffer)
    → IsValid b
    → (bytes (clear b) ≡ replicate b.m_size 0) × ((clear b).m_size ≡ b.m_size)
clear_lem b v = cleared b.m_data refl
  where
    cleared :
        (q : Pointer)
        → b.m_data ≡ q
        → (bytes (clear b) ≡ replicate b.m_size 0) × ((clear b).m_size ≡ b.m_size)
    cleared none e = unfold clear empty replicate in ground (arith, e)
    cleared (some p) e =
        rw (eq_of_bytes b p v e, clear-of_bytes p) (refl, length-replicate {A = ℕ} (length p) 0)
