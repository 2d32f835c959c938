-- ===== src/Crypto/SecMem/Tests.antt =====
-- A pool of two pages with three blocks and a gap.
use zway_lib.Base.{◌≡◌, refl, true, false, some, none, [], ◌∷◌, arith, replicate, ltb}
use zway_lib.Crypto.SecMem.{
  SecMem, System, setup, pages_locked, malloc_in, free_in, get_offset, put, blank, locked,
}
use zway_lib.Crypto.SecMem.Fit.{IsValid, malloc_free-IsValid}
use zway_lib.Crypto.SecMem.Blocks.{Allocates, Releases, malloc_in-Allocates, free_in-Releases}

-- Two pages of eight bytes can be locked.
abbrev small_system : System
small_system = record { page_size = 8; memlock_limit = 16; mlock = λ i. ltb i 2 }

abbrev pool : SecMem
pool = record {
  m_locked_data = some (replicate 24 7);
  m_locked_size = 16;
  m_locked_mallocs = (0, 2) ∷ (4, 4) ∷ (8, 6) ∷ [];
}

pool-IsValid : IsValid pool
pool-IsValid = omega arith

two_pages :
    setup small_system none 24
    ≡ (true, some (record (locked small_system 24) { m_locked_size = 16 }))
unfolding setup pages_locked
two_pages = refl

-- A size that is no number of pages: the instance is there, and a second call fails as well.
odd_size : setup small_system none 13 ≡ (false, some blank)
unfolding setup
odd_size = refl

after_odd_size : setup small_system (some blank) 16 ≡ (false, some blank)
unfolding setup
after_odd_size = refl

first_gap : get_offset pool 2 ≡ some 2
unfolding get_offset
first_gap = refl

behind_all : get_offset pool 3 ≡ none
unfolding get_offset
behind_all = refl

-- An allocation of no bytes behind a block that ends where another begins replaces that block, whose
-- bytes count as free from then on.
zero_bytes :
    malloc_in (record pool { m_locked_mallocs = (0, 4) ∷ (4, 4) ∷ [] }) 0
    ≡ (some 4, record pool { m_locked_mallocs = (0, 4) ∷ (4, 0) ∷ [] })
unfolding malloc_in put
zero_bytes = refl

malloc_free-IsValid_example : IsValid (malloc_in pool 2).1 × IsValid (free_in pool 4).1
malloc_free-IsValid_example = malloc_free-IsValid pool 2 4 pool-IsValid (omega arith)

malloc_in-Allocates_example : Allocates pool 2 3 (malloc_in pool 2)
malloc_in-Allocates_example = malloc_in-Allocates pool 2 3 pool-IsValid (omega arith)

free_in-Releases_example : Releases pool 4 5 (free_in pool 4)
unfolding replicate
free_in-Releases_example =
    free_in-Releases pool (replicate 24 7) 4 5 pool-IsValid (omega arith) refl (omega arith)
