-- ===== src/Crypto/SecMem.antt =====
-- src/crypto/secmem.cpp: a pool of locked memory. A pointer into the pool is its offset from
-- `m_lockedData`, the null pointer is `none`. `m_lockedMallocs` is the `std::map` from a block's
-- pointer to its size, in the order of the pointers. The static `instance` is an option.
-- What the system does is a parameter: the size of a page, the limit of locked memory, and which
-- pages `mlock` locks. `new` does not fail. Numbers are `uint32_t`.
pub mod Fit
pub mod Blocks
mod Tests
use Prim.Native.Nat.{compare, Ordering}
use zway_lib.Base.{
  ℕ, zero, suc, ◌+◌, ◌-◌, ◌*◌, ◌/◌, ◌%◌, Bool, true, false, not, Option, none, some, List, [], ◌∷◌,
  ltb, leb, ◌==◌, if◌then◌else◌, replicate, overwrite,
}
use zway_lib.Packet.{u32}

abbrev pub Mallocs : Type 0
Mallocs = List (ℕ × ℕ)

pub record SecMem : Type 0 where
  pub m_locked_data : Option (List ℕ)
  pub m_locked_size : ℕ
  pub m_locked_mallocs : Mallocs

abbrev pub Instance : Type 0
Instance = Option SecMem

pub record System : Type 0 where
  pub page_size : ℕ
  pub memlock_limit : ℕ
  pub mlock : ℕ → Bool

-- How many of the next `n` pages are locked before `mlock` fails.
unfoldable pub pages_locked : System → ℕ → ℕ → ℕ
pages_locked sys zero i = 0
pages_locked sys (suc n) i =
    let more = suc (pages_locked sys n (i + 1)) in if sys.mlock i then more else 0

abbrev pub blank : SecMem
blank = record { m_locked_data = none; m_locked_size = 0; m_locked_mallocs = [] }

abbrev pub locked : System → ℕ → SecMem
locked sys size = record {
  m_locked_data = some (replicate size 0);
  m_locked_size = pages_locked sys (size / sys.page_size) 0 * sys.page_size;
  m_locked_mallocs = [];
}

-- A size that is no number of pages fails, but leaves the instance.
unfoldable pub setup : System → Instance → ℕ → Bool × Instance
setup sys (some m) size = (false, some m)
setup sys none size =
    if size == 0
    then (true, some (locked sys sys.memlock_limit))
    else if size % sys.page_size == 0
    then (true, some (locked sys size))
    else (false, some blank)

-- The memory is zeroed and given back; the instance stays.
unfoldable pub cleanup : Instance → Bool × Instance
cleanup none = (false, none)
cleanup (some m) = (true, some blank)

-- The size that is left behind `o`, modulo 2^32.
abbrev pub left_behind : ℕ → ℕ → ℕ
left_behind size o = (size + u32 - o) % u32

-- The gap before a block that begins at `tmp`, and where it begins: behind the block, if there is
-- none.
abbrev pub gap : ℕ → ℕ → ℕ
gap o tmp = if ltb o tmp then tmp - o else 0

abbrev pub gap_at : ℕ → ℕ → ℕ → ℕ
gap_at o tmp n = if ltb o tmp then o else (tmp + n) % u32

-- `getOffset` from the blocks at `o` and behind. The source's `s` is 0 where a round begins.
unfoldable pub offset_from : ℕ → ℕ → ℕ → Mallocs → Option ℕ
offset_from locked_size size o [] =
    let s = left_behind locked_size o in
    if not (s == 0) then (if leb size s then some o else none) else none
offset_from locked_size size o ((tmp, n) ∷ l) =
    let rest = offset_from locked_size size ((tmp + n) % u32) l in
    if leb size (gap o tmp) then some (gap_at o tmp n) else rest

unfoldable pub get_offset : SecMem → ℕ → Option ℕ
unfolding offset_from
get_offset m size = offset_from m.m_locked_size size 0 m.m_locked_mallocs

-- `mallocs[ptr] = size`
abbrev put_at : ℕ → ℕ → ℕ → ℕ → Mallocs → Mallocs → Ordering → Mallocs
put_at p size q n l rest Ordering.eq = (p, size) ∷ l
put_at p size q n l rest Ordering.lt = (p, size) ∷ (q, n) ∷ l
put_at p size q n l rest Ordering.gt = (q, n) ∷ rest

unfoldable pub put : ℕ → ℕ → Mallocs → Mallocs
put p size [] = (p, size) ∷ []
put p size ((q, n) ∷ l) = put_at p size q n l (put p size l) (compare p q)

-- The block is entered at the offset that was found.
abbrev pub entered : SecMem → ℕ → Option ℕ → Option ℕ × SecMem
entered m size none = (none, m)
entered m size (some p) = (some p, record m { m_locked_mallocs = put p size m.m_locked_mallocs })

unfoldable pub malloc_in : SecMem → ℕ → Option ℕ × SecMem
unfolding get_offset
malloc_in m size = if m.m_locked_size == 0 then (none, m) else entered m size (get_offset m size)

-- `mallocs.find`
unfoldable pub find : ℕ → Mallocs → Option ℕ
find p [] = none
find p ((q, n) ∷ l) = let rest = find p l in if q == p then some n else rest

unfoldable pub erase : ℕ → Mallocs → Mallocs
erase p [] = []
erase p ((q, n) ∷ l) = let rest = erase p l in if q == p then l else (q, n) ∷ rest

-- `memset(ptr, 0, n)` in the pool.
abbrev pub zeroed : Option (List ℕ) → ℕ → ℕ → Option (List ℕ)
zeroed none p n = none
zeroed (some d) p n = some (overwrite d p (replicate n 0))

abbrev pub erased : SecMem → ℕ → Option ℕ → Bool × SecMem
erased m p none = (false, m)
erased m p (some n) = (
  true,
  record m {
    m_locked_data = zeroed m.m_locked_data p n;
    m_locked_mallocs = erase p m.m_locked_mallocs;
  },
)

unfoldable pub free_in : SecMem → ℕ → Bool × SecMem
unfolding find erase
free_in m p = if m.m_locked_size == 0 then (false, m) else erased m p (find p m.m_locked_mallocs)

-- `SecMem::malloc` and `SecMem::free`: without an instance there is no memory.
abbrev beside : Option ℕ × SecMem → Option ℕ × Instance
beside (p, m) = (p, some m)

unfoldable pub malloc : Instance → ℕ → Option ℕ × Instance
unfolding malloc_in
malloc none size = (none, none)
malloc (some m) size = beside (malloc_in m size)

abbrev beside_flag : Bool × SecMem → Bool × Instance
beside_flag (b, m) = (b, some m)

unfoldable pub free : Instance → ℕ → Bool × Instance
unfolding free_in
free none p = (false, none)
free (some m) p = beside_flag (free_in m p)

-- `getLockedSize`, `getLockedSizeUsed`, `getLockedSizeAvailable`.
unfoldable pub get_locked_size : Instance → ℕ
get_locked_size none = 0
get_locked_size (some m) = m.m_locked_size

unfoldable pub sum_sizes : Mallocs → ℕ → ℕ
sum_sizes [] acc = acc
sum_sizes ((q, n) ∷ l) acc = sum_sizes l ((acc + n) % u32)

unfoldable pub get_locked_size_used : Instance → ℕ
unfolding sum_sizes
get_locked_size_used none = 0
get_locked_size_used (some m) = sum_sizes m.m_locked_mallocs 0

unfoldable pub get_locked_size_available : Instance → ℕ
unfolding get_locked_size get_locked_size_used
get_locked_size_available i = (get_locked_size i + u32 - get_locked_size_used i) % u32
