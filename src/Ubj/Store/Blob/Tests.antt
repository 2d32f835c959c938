-- ===== src/Ubj/Store/Blob/Tests.antt =====
-- A blob in a database in memory, with a cipher for tests.
use zway_lib.Base.{
  ℕ, ◌≡◌, refl, true, false, none, some, List, [], ◌∷◌, ◌+◌, length, length-replicate, replicate,
  arith,
}
use zway_lib.Base.Text.{codes}
use zway_lib.Buffer.{of_bytes}
use zway_lib.Ubj.Fixture.{some_runtime}
use zway_lib.Ubj.Value.{Object, of_object}
use zway_lib.Ubj.Format.{Library}
use zway_lib.Ubj.Format.RoundTrip.{tree}
use zway_lib.Ubj.Store.Blob.Unlock.{main_table, root_of, store_root, load_key}
use zway_lib.Ubj.Store.Blob.Unlocked.{load_key-store_root}
use zway_lib.Crypto.Aes.Toy.{toy_nettle, toy_nettle-IsCounterMode}
use zway_lib.Ubj.Store.Blob.Memory.{memory_database, memory_database-IsKept, no_rows}
use zway_lib.Ubj.Store.Blob.Calls.{first_row}

abbrev secret : List ℕ
secret = 1 ∷ 2 ∷ 3 ∷ []

abbrev first : ℕ × memory_database.State
first = memory_database.insert no_rows (codes "b") (first_row none true)

-- A derivation of 32 bytes for tests.
abbrev derive : List ℕ → List ℕ → List ℕ
derive p s = replicate 32 (length p + length s)

abbrev store_key : List ℕ
store_key = replicate 32 9

abbrev root : Object
root = root_of toy_nettle (λ n. true) derive (0, 0) secret (4 ∷ []) store_key

-- Any list of calls is one byte, and any byte reads as the tree of the root.
abbrev root_library : Library
root_library = record {
  written = λ l. 1 ∷ [];
  read_dynamic = λ l. tree some_runtime (of_object root);
}

-- The store after the first object of `__main`.
abbrev with_main : memory_database.State
with_main = (memory_database.insert no_rows main_table (first_row none false)).1

load_key-store_root_example :
    load_key some_runtime root_library toy_nettle memory_database derive
      (0, 0)
      (store_root some_runtime root_library toy_nettle memory_database derive
        (0, 0)
        with_main
        secret
        (4 ∷ [])
        store_key).1
      secret
    ≡ some (of_bytes store_key)
load_key-store_root_example =
    load_key-store_root some_runtime root_library toy_nettle memory_database derive (0, 0)
      toy_nettle-IsCounterMode memory_database-IsKept (λ n. refl) (λ s. (replicate 12 5, refl))
      (λ p s. length-replicate 32 (length p + length s)) with_main secret (4 ∷ []) store_key
      (length-replicate 32 9) (omega arith) (omega arith, refl) refl
