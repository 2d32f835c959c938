-- ===== src/Ubj/Store/Blob/Memory.antt =====
-- A database in memory, for tests: the last rowid, and the rows.
use zway_lib.Base.{
  ℕ, suc, ◌≡◌, ◌∙◌, ap, ◌&&◌, Option, none, some, List, if◌then◌else◌, ◌==◌, replicate, arith,
}
use zway_lib.Ubj.Key.{Key, same_key, cmp_refl}
use zway_lib.Ubj.Store.Blob.{Row, Database, IsKept}

abbrev Rows : Type 0
Rows = Key → ℕ → Option Row

abbrev put : Rows → Key → ℕ → Option Row → Rows
put f t id r u j = if same_key u t && (j == id) then r else f u j

abbrev with_content : List ℕ → Option Row → Option Row
with_content d none = none
with_content d (some r) = some (record r { content = some d })

abbrev pub no_rows : ℕ × Rows
no_rows = (0, λ u j. none)

abbrev pub memory_database : Database
memory_database = record {
  State = ℕ × Rows;
  row = λ s t id. s.1 t id;
  insert = λ s t r. (suc s.0, (suc s.0, put s.1 t (suc s.0) (some r)));
  update = λ s t id r. (s.0, put s.1 t id (some r));
  remove = λ s t id. (s.0, put s.1 t id none);
  write = λ s t id d. (s.0, put s.1 t id (with_content d (s.1 t id)));
  random = λ s n. some (replicate n 5);
}

put_same : (f : Rows) (t : Key) (id : ℕ) (r : Option Row) → put f t id r t id ≡ r
put_same f t id r = ground (arith, cmp_refl t)

pub memory_database-IsKept : IsKept memory_database
memory_database-IsKept = record {
  row-insert = λ s t r b n. put_same s.1 t (suc s.0) (some r);
  row-update = λ s t id old new b e. put_same s.1 t id (some new);
  row-write =
      λ s t id old d e. put_same s.1 t id (with_content d (s.1 t id)) ∙ ap (with_content d) e;
}
