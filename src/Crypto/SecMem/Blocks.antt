-- ===== src/Crypto/SecMem/Blocks.antt =====
-- The pool as the set of its bytes in use (src/crypto/secmem.cpp).
use zway_lib.Base.{
  ℕ, ◌+◌, ◌%◌, ◌≡◌, ◌≤◌, ◌<◌, refl, Bool, true, false, not, ◌&&◌, ◌||◌, Option, none, some, List,
  [], ◌∷◌, ltb, leb, ◌==◌, arith, leb→le, length, take, drop, overwrite, replicate,
  take-drop-overwrite, length-replicate,
}
use zway_lib.Packet.{u32}
use zway_lib.Crypto.SecMem.{
  SecMem, Mallocs, offset_from, get_offset, gap, gap_at, put, find, erase, malloc_in, free_in,
  entered, erased,
}
use zway_lib.Crypto.SecMem.Fit.{Fits, IsValid, Fits-le, FitsNew, offset_from-FitsNew}

-- Byte `i` is one of the `n` from `p` on.
abbrev pub within : ℕ → ℕ → ℕ → Bool
within p n i = leb p i && ltb i (p + n)

unfoldable pub in_use : Mallocs → ℕ → Bool
in_use [] i = false
in_use ((p, n) ∷ l) i = within p n i || in_use l i

before-in_use : (hi lo i : ℕ) (l : Mallocs) → Fits hi lo l → i < lo → in_use l i ≡ false
unfolding in_use
before-in_use hi lo i [] h e = refl
before-in_use hi lo i ((p, n) ∷ l) h e = ground (arith, before-in_use hi (p + n) i l h.2)

-- The bytes of an offset that was found are not in use.
abbrev IsFree : ℕ → Mallocs → ℕ → Option ℕ → Type 0
IsFree size l i none = Unit {0}
IsFree size l i (some p) = (in_use l i && within p size i) ≡ false

gap-IsFree :
    (hi lo size p n i : ℕ) (l : Mallocs)
    → 0 < size
    → size ≤ gap lo p
    → Fits hi lo ((p, n) ∷ l)
    → IsFree size ((p, n) ∷ l) i (some (gap_at lo p n))
unfolding in_use
gap-IsFree hi lo size p n i l s g h = ground (arith, before-in_use hi (p + n) i l h.2)

behind-IsFree :
    (hi size p n i : ℕ) (l : Mallocs) (q : Option ℕ)
    → FitsNew hi (p + n) size l q
    → IsFree size l i q
    → IsFree size ((p, n) ∷ l) i q
unfolding in_use
behind-IsFree hi size p n i l none f h = tt
behind-IsFree hi size p n i l (some q) f h = ground arith

offset_from-IsFree :
    (hi lo size i : ℕ) (l : Mallocs)
    → hi < u32
    → 0 < size
    → Fits hi lo l
    → IsFree size l i (offset_from hi size lo l)
unfolding offset_from in_use
offset_from-IsFree hi lo size i [] b s h = ground arith
offset_from-IsFree hi lo size i ((p, n) ∷ l) b s h =
    by_gap _ refl (offset_from-IsFree hi (p + n) size i l b s h.2)
  where
    no_wrap : (p + n) % u32 ≡ p + n
    no_wrap = omega (arith, Fits-le hi (p + n) l h.2)

    by_gap :
        (c : Bool)
        → leb size (gap lo p) ≡ c
        → IsFree size l i (offset_from hi size (p + n) l)
        → IsFree size ((p, n) ∷ l) i (offset_from hi size lo ((p, n) ∷ l))
    by_gap true e ih = rw e (gap-IsFree hi lo size p n i l s (leb→le size (gap lo p) e) h)
    by_gap false e ih =
        rw (e, no_wrap)
          (behind-IsFree hi size p n i l _ (offset_from-FitsNew hi (p + n) size l b s h.2) ih)

-- A block at a byte that is not in use adds its bytes.
in_use-put :
    (hi lo p size i : ℕ) (l : Mallocs)
    → Fits hi lo l
    → in_use l p ≡ false
    → in_use (put p size l) i ≡ (in_use l i || within p size i)
unfolding in_use put
in_use-put hi lo p size i [] h e = ground arith
in_use-put hi lo p size i ((q, n) ∷ l) h e = ground (arith, in_use-put hi (q + n) p size i l h.2)

find_bounds :
    (hi lo p n : ℕ) (l : Mallocs) → Fits hi lo l → find p l ≡ some n → (lo ≤ p) × (p + n ≤ hi)
unfolding find
find_bounds hi lo p n [] h e = cc
find_bounds hi lo p n ((q, k) ∷ l) h e =
    ground (arith, find_bounds hi (q + k) p n l h.2, Fits-le hi (q + k) l h.2)

in_use-erase :
    (hi lo p n i : ℕ) (l : Mallocs)
    → Fits hi lo l
    → find p l ≡ some n
    → in_use (erase p l) i ≡ (in_use l i && not (within p n i))
unfolding in_use erase find
in_use-erase hi lo p n i [] h e = cc
in_use-erase hi lo p n i ((q, k) ∷ l) h e = ground (
  arith,
  in_use-erase hi (q + k) p n i l h.2,
  before-in_use hi (q + k) i l h.2,
  find_bounds hi (q + k) p n l h.2,
)

-- What an allocation in a valid pool gives: just these bytes come into use, none of them was, and all
-- are locked.
abbrev pub Allocates : SecMem → ℕ → ℕ → Option ℕ × SecMem → Type 0
Allocates m size i (none, m') = m' ≡ m
Allocates m size i (some p, m') =
    (in_use m'.m_locked_mallocs i ≡ (in_use m.m_locked_mallocs i || within p size i))
    × ((in_use m.m_locked_mallocs i && within p size i) ≡ false)
    × (p + size ≤ m.m_locked_size)

entered-Allocates :
    (m : SecMem) (size i : ℕ) (q : Option ℕ)
    → IsValid m
    → 0 < size
    → FitsNew m.m_locked_size 0 size m.m_locked_mallocs q
    → ((j : ℕ) → IsFree size m.m_locked_mallocs j q)
    → Allocates m size i (entered m size q)
entered-Allocates m size i none v s f h = refl
entered-Allocates m size i (some p) v s f h =
    (in_use-put m.m_locked_size 0 p size i m.m_locked_mallocs v.1 (ground (arith, h p)), h i, f.1)

-- An allocation of at least one byte from a valid pool gives bytes that are locked and that were not
-- in use, and just these come into use; or nothing, and nothing changes.
pub malloc_in-Allocates :
    (m : SecMem) (size i : ℕ) → IsValid m → 0 < size → Allocates m size i (malloc_in m size)
unfolding malloc_in get_offset
malloc_in-Allocates m size i v s = by_size _ refl
  where
    by_size : (c : Bool) → (m.m_locked_size == 0) ≡ c → Allocates m size i (malloc_in m size)
    by_size true e = rw e refl
    by_size false e = rw e (
        entered-Allocates m size i (get_offset m size) v s
          (offset_from-FitsNew m.m_locked_size 0 size m.m_locked_mallocs v.0 s v.1)
          (λ j. offset_from-IsFree m.m_locked_size 0 size j m.m_locked_mallocs v.0 s v.1))

-- `n` bytes from `q` on, all locked, of which one is in use.
abbrev pub IsBlocked : SecMem → ℕ → ℕ → Type 0
IsBlocked m q n = (i : ℕ) × (q ≤ i) × (i < q + n) × (in_use m.m_locked_mallocs i ≡ true)

no_gap :
    (hi lo size p n : ℕ) (l : Mallocs)
    → hi < u32
    → Fits hi lo ((p, n) ∷ l)
    → offset_from hi size lo ((p, n) ∷ l) ≡ none
    → (gap lo p < size) × (offset_from hi size (p + n) l ≡ none)
unfolding offset_from
no_gap hi lo size p n l b h e = by_gap _ refl e
  where
    no_wrap : (p + n) % u32 ≡ p + n
    no_wrap = omega (arith, Fits-le hi (p + n) l h.2)

    by_gap :
        (c : Bool)
        → leb size (gap lo p) ≡ c
        → offset_from hi size lo ((p, n) ∷ l) ≡ none
        → (gap lo p < size) × (offset_from hi size (p + n) l ≡ none)
    by_gap true f g = absurd (ground (arith, f, g))
    by_gap false f g = (ground (arith, f), ground (arith, f, g, no_wrap))

blocked_from :
    (hi lo size q : ℕ) (l : Mallocs)
    → hi < u32
    → 0 < size
    → Fits hi lo l
    → lo ≤ q
    → q + size ≤ hi
    → offset_from hi size lo l ≡ none
    → (i : ℕ) × (q ≤ i) × (i < q + size) × (in_use l i ≡ true)
unfolding offset_from in_use
blocked_from hi lo size q [] b s h le fits e = absurd (ground arith)
blocked_from hi lo size q ((p, n) ∷ l) b s h le fits e =
    let full : (gap lo p < size) × (offset_from hi size (p + n) l ≡ none) =
      no_gap hi lo size p n l b h e in
    by_place (ltb q p) (ltb q (p + n)) refl refl full.0
      (λ le'. blocked_from hi (p + n) size q l b s h.2 le' fits full.1)
  where
    by_place :
        (c d : Bool)
        → ltb q p ≡ c
        → ltb q (p + n) ≡ d
        → gap lo p < size
        → (p + n ≤ q → (i : ℕ) × (q ≤ i) × (i < q + size) × (in_use l i ≡ true))
        → (i : ℕ) × (q ≤ i) × (i < q + size) × (in_use ((p, n) ∷ l) i ≡ true)
    by_place true d f g small ih = (p, ground arith, ground arith, ground arith)
    by_place false true f g small ih = (q, omega arith, omega arith, ground arith)
    by_place false false f g small ih =
        let rest = ih (ground arith) in (rest.0, rest.1, rest.2, rw rest.3 (ground arith))

-- An allocation fails only if there is no room: any run of so many bytes in the locked memory of a
-- valid pool has one that is in use.
pub malloc_in-IsBlocked :
    (m : SecMem) (size q : ℕ)
    → IsValid m
    → 0 < size
    → (malloc_in m size).0 ≡ none
    → q + size ≤ m.m_locked_size
    → IsBlocked m q size
unfolding malloc_in get_offset
malloc_in-IsBlocked m size q v s e fits =
    blocked_from m.m_locked_size 0 size q m.m_locked_mallocs v.0 s v.1 (omega arith) fits
      (ground arith)

abbrev pub pool_bytes : SecMem → List ℕ
pool_bytes m = elim m.m_locked_data [ none ↦ [] | some d ↦ d ]

-- What a release from a valid pool does: it takes out the block at `p`, just its bytes are no longer
-- in use, and they are zero.
abbrev pub Releases : SecMem → ℕ → ℕ → Bool × SecMem → Type 0
Releases m p i (false, m') = (m' ≡ m) × (find p m.m_locked_mallocs ≡ none)
Releases m p i (true, m') =
    (n : ℕ) × (find p m.m_locked_mallocs ≡ some n)
    × (in_use m'.m_locked_mallocs i ≡ (in_use m.m_locked_mallocs i && not (within p n i)))
    × (take n (drop p (pool_bytes m')) ≡ replicate n 0)

zeroed-zero :
    (d : List ℕ) (p n : ℕ)
    → p + n ≤ length d
    → take n (drop p (overwrite d p (replicate n 0))) ≡ replicate n 0
zeroed-zero d p n fits =
    take-drop-overwrite d p (replicate n 0) n (length-replicate {A = ℕ} n 0) (omega arith)

erased-Releases :
    (m : SecMem) (d : List ℕ) (p i : ℕ) (q : Option ℕ)
    → IsValid m
    → m.m_locked_data ≡ some d
    → m.m_locked_size ≤ length d
    → find p m.m_locked_mallocs ≡ q
    → Releases m p i (erased m p q)
erased-Releases m d p i none v e big f = (refl, f)
erased-Releases m d p i (some n) v e big f = (
  n,
  f,
  in_use-erase m.m_locked_size 0 p n i m.m_locked_mallocs v.1 f,
  rw e (
      zeroed-zero d p n
        (omega (arith, find_bounds m.m_locked_size 0 p n m.m_locked_mallocs v.1 f))),
)

-- A release from a valid pool of which some memory is locked succeeds just if a block begins at the
-- pointer. Then just its bytes go out of use, and they are zero; otherwise nothing changes.
pub free_in-Releases :
    (m : SecMem) (d : List ℕ) (p i : ℕ)
    → IsValid m
    → 0 < m.m_locked_size
    → m.m_locked_data ≡ some d
    → m.m_locked_size ≤ length d
    → Releases m p i (free_in m p)
unfolding free_in
free_in-Releases m d p i v some_locked e big =
    rw is_locked (erased-Releases m d p i (find p m.m_locked_mallocs) v e big refl)
  where
    is_locked : (m.m_locked_size == 0) ≡ false
    is_locked = ground arith
