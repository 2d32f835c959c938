-- ===== src/Ubj/Store/Actions/Tests.antt =====
-- Runs of actions over a database that prepares what begins with `I`.
use zway_lib.Base.{ℕ, ◌≡◌, refl, Bool, true, false, Option, some, none, List, [], ◌∷◌, ◌==◌}
use zway_lib.Base.Text.{codes}
use zway_lib.Buffer.{MemoryBuffer}
use zway_lib.Ubj.Fixture.{some_runtime}
use zway_lib.Ubj.Value.{Value}
use zway_lib.Ubj.Store.Sql.{Sql, lit}
use zway_lib.Ubj.Store.Actions.{
  Database, done, action, execute_insert, execute_update, execute_remove, execute_count,
  prepare_stmt,
}
use zway_lib.Ubj.Store.Actions.Runs.{reported, execute_lem}

abbrev begins_with_i : List ℕ → Bool
begins_with_i [] = false
begins_with_i (c ∷ s) = c == 73

abbrev db : Database
db = record {
  prepare_v2 = begins_with_i;
  step = λ s. done;
  last_insert_rowid = λ s. 7;
  changes = λ s. 2;
  column_int64 = λ s. 5;
}

abbrev no_bytes : Value → Option MemoryBuffer
no_bytes v = none

abbrev insert : Sql
insert = lit (codes "INSERT")

abbrev other : Sql
other = lit (codes "SELECT")

-- Without a callback a refused statement notifies nobody.
refused_silently :
    execute_update db some_runtime false no_bytes (action other false)
    ≡ (false, record (action other false) { m_failed = true })
unfolding execute_update prepare_stmt
refused_silently = refl

execute_lem_example :
    (execute_insert db some_runtime false no_bytes (action insert true)
      ≡ reported insert true true true (some 7))
    × (execute_update db some_runtime false no_bytes (action insert true)
        ≡ reported insert true true true 2)
    × (execute_remove db some_runtime false no_bytes (action insert true)
        ≡ reported insert true true true 2)
    × (execute_count db some_runtime false no_bytes (action insert true)
        ≡ reported insert true true false 0)
execute_lem_example = execute_lem db some_runtime false no_bytes insert true
