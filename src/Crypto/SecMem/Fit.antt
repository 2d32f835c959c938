-- ===== src/Crypto/SecMem/Fit.antt =====
-- The blocks of the pool lie side by side within the locked memory (src/crypto/secmem.cpp).
use zway_lib.Base.{
  ℕ, ◌+◌, ◌%◌, ◌≡◌, ◌≤◌, ◌<◌, refl, Bool, true, false, Option, none, some, [], ◌∷◌, leb, arith,
  leb→le,
}
use zway_lib.Packet.{u32}
use zway_lib.Crypto.SecMem.{
  SecMem, Mallocs, offset_from, gap, gap_at, put, erase, malloc_in, free_in,
}

-- From `lo` on, in order and apart from one another, none empty, all below `hi`.
abbrev pub Fits : ℕ → ℕ → Mallocs → Type 0
Fits hi lo [] = lo ≤ hi
Fits hi lo ((p, n) ∷ l) = (lo ≤ p) × (0 < n) × Fits hi (p + n) l

abbrev pub IsValid : SecMem → Type 0
IsValid m = (m.m_locked_size < u32) × Fits m.m_locked_size 0 m.m_locked_mallocs

pub Fits-le : (hi lo : ℕ) (l : Mallocs) → Fits hi lo l → lo ≤ hi
Fits-le hi lo [] h = h
Fits-le hi lo ((p, n) ∷ l) h = omega (arith, Fits-le hi (p + n) l h.2)

-- The block of an offset that was found fits in too.
abbrev pub FitsNew : ℕ → ℕ → ℕ → Mallocs → Option ℕ → Type 0
FitsNew hi lo size l none = Unit {0}
FitsNew hi lo size l (some p) = (lo ≤ p) × (p + size ≤ hi) × Fits hi lo (put p size l)

behind-FitsNew :
    (hi lo size p n : ℕ) (l : Mallocs) (q : Option ℕ)
    → lo ≤ p
    → 0 < n
    → FitsNew hi (p + n) size l q
    → FitsNew hi lo size ((p, n) ∷ l) q
unfolding put
behind-FitsNew hi lo size p n l none a b h = tt
behind-FitsNew hi lo size p n l (some q) a b h = ground arith

before-Fits :
    (hi lo size p n : ℕ) (l : Mallocs)
    → 0 < size
    → size ≤ gap lo p
    → Fits hi lo ((p, n) ∷ l)
    → FitsNew hi lo size ((p, n) ∷ l) (some (gap_at lo p n))
unfolding put
before-Fits hi lo size p n l s g h = ground (arith, Fits-le hi (p + n) l h.2)

pub offset_from-FitsNew :
    (hi lo size : ℕ) (l : Mallocs)
    → hi < u32
    → 0 < size
    → Fits hi lo l
    → FitsNew hi lo size l (offset_from hi size lo l)
unfolding offset_from put
offset_from-FitsNew hi lo size [] b s h = ground arith
offset_from-FitsNew hi lo size ((p, n) ∷ l) b s h =
    by_gap _ refl (offset_from-FitsNew hi (p + n) size l b s h.2)
  where
    no_wrap : (p + n) % u32 ≡ p + n
    no_wrap = omega (arith, Fits-le hi (p + n) l h.2)

    by_gap :
        (c : Bool)
        → leb size (gap lo p) ≡ c
        → FitsNew hi (p + n) size l (offset_from hi size (p + n) l)
        → FitsNew hi lo size ((p, n) ∷ l) (offset_from hi size lo ((p, n) ∷ l))
    by_gap true e ih = rw e (before-Fits hi lo size p n l s (leb→le size (gap lo p) e) h)
    by_gap false e ih = rw (e, no_wrap) (behind-FitsNew hi lo size p n l _ h.0 h.1 ih)

Fits-from : (hi lo lo' : ℕ) (l : Mallocs) → lo ≤ lo' → Fits hi lo' l → Fits hi lo l
Fits-from hi lo lo' [] e h = omega arith
Fits-from hi lo lo' ((p, n) ∷ l) e h = (omega arith, h.1, h.2)

erase-Fits : (hi lo q : ℕ) (l : Mallocs) → Fits hi lo l → Fits hi lo (erase q l)
unfolding erase
erase-Fits hi lo q [] h = h
erase-Fits hi lo q ((p, n) ∷ l) h =
    ground (arith, erase-Fits hi (p + n) q l h.2, Fits-from hi lo (p + n) l)

-- Allocations of at least one byte and releases, failed ones too, leave the blocks of the pool side by
-- side: in order, apart from one another, none empty, all within the locked memory.
pub malloc_free-IsValid :
    (m : SecMem) (size p : ℕ)
    → IsValid m
    → 0 < size
    → IsValid (malloc_in m size).1 × IsValid (free_in m p).1
unfolding malloc_in free_in
malloc_free-IsValid m size p v s = (
  ground (arith, offset_from-FitsNew m.m_locked_size 0 size m.m_locked_mallocs),
  ground (arith, erase-Fits m.m_locked_size 0 p m.m_locked_mallocs),
)
