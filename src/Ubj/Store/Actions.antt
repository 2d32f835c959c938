-- ===== src/Ubj/Store/Actions.antt =====
-- `Action::prepareStmt`, `step`, `finish` and `notify` of src/ubj/store/action.cpp, and the `execute`
-- methods of src/ubj/store/action/.
-- SQLite is a parameter: whether it prepares a statement, and what the first step and the calls behind
-- it give. A callback is the list of its calls, newest first, each with its error flag and what else
-- it gets, if a callback is set.
pub mod Runs
mod Tests
use zway_lib.Base.{ℕ, Bool, true, false, Option, none, some, List, [], ◌∷◌, if◌then◌else◌}
use zway_lib.Buffer.{MemoryBuffer}
use zway_lib.Ubj.Value.{Runtime, Value}
use zway_lib.Ubj.Store.Bind.{Binding, bind_ubj_to_stmt}
use zway_lib.Ubj.Store.Sql.{Sql, Text}

-- What `sqlite3_step` returns; any code of an error is `failed`.
pub data Code : Type 0 where
  done row failed : Code

-- A prepared statement: its text and the calls that bound its parameters.
pub record Stmt : Type 0 where
  pub sql : Text
  pub calls : List (ℕ × Binding)

-- The documented behaviour of SQLite that the actions use: `sqlite3_prepare_v2`, `sqlite3_step`,
-- `sqlite3_last_insert_rowid`, `sqlite3_changes` and `sqlite3_column_int64` after the step.
pub record Database : Type 0 where
  pub prepare_v2 : Text → Bool
  pub step : Stmt → Code
  pub last_insert_rowid : Stmt → ℕ
  pub changes : Stmt → ℕ
  pub column_int64 : Stmt → ℕ

-- The state of an action whose callback gets an `R` beside the error flag. `m_failed` tells that
-- `m_err` of the store was set.
pub record Action (R : Type 0) : Type 0 where
  pub m_sql : Sql
  pub m_stmt : Option Stmt
  pub m_callback : Bool
  pub m_done : Bool
  pub m_failed : Bool
  pub calls : List (Bool × R)

abbrev pub result_of : Database → Option Stmt → Code
result_of db none = failed
result_of db (some stmt) = db.step stmt

abbrev pub is_done : Code → Bool
is_done done = true
is_done row = false
is_done failed = false

abbrev pub is_row : Code → Bool
is_row row = true
is_row done = false
is_row failed = false

module _ {R : Type 0} where
  -- The constructor, with the statement that a subclass makes.
  abbrev pub action : Sql → Bool → Action R
  action sql callback = record {
    m_sql = sql;
    m_stmt = none;
    m_callback = callback;
    m_done = false;
    m_failed = false;
    calls = [];
  }

  abbrev pub finish : Action R → Action R
  finish a = record a { m_stmt = none }

  abbrev pub notify : Action R → Action R
  notify a = record a { m_done = true }

  abbrev pub invoke_callback : Action R → Bool → R → Action R
  invoke_callback a error r = record a {
    calls = if a.m_callback then (error, r) ∷ a.calls else a.calls;
  }

  -- The statement cannot be prepared: who waits is notified only if there is a callback.
  abbrev pub refused : R → Action R → Bool × Action R
  refused nothing a = (false, if a.m_callback then notify (invoke_callback a true nothing) else a)

  -- After the step.
  abbrev pub stepped : R → R → Action R → Bool → Bool × Action R
  stepped r nothing a true = (true, notify (invoke_callback (finish a) false r))
  stepped r nothing a false = (false, notify (invoke_callback (finish a) true nothing))

-- What the call behind a successful step gives.
abbrev pub of_stmt : (Stmt → ℕ) → Option Stmt → ℕ
of_stmt f none = 0
of_stmt f (some stmt) = f stmt

module _ (db : Database) (rt : Runtime) (vtab : Bool)
    (serialize : Value → Option MemoryBuffer) where
  -- The statement of an action with all its values bound.
  abbrev pub bound_stmt : Sql → Stmt
  bound_stmt sql = record {
    sql = sql.text;
    calls = (bind_ubj_to_stmt rt vtab serialize sql.bound).0;
  }

  -- An action that has a statement is not prepared again.
  abbrev pub prepare_new : {R : Type 0} → Action R → Option Stmt → Bool → Bool × Action R
  prepare_new a (some stmt) ok = (false, a)
  prepare_new a none false = (false, record a { m_failed = true })
  prepare_new a none true = (true, record a { m_stmt = some (bound_stmt a.m_sql) })

  unfoldable pub prepare_stmt : {R : Type 0} → Action R → Bool × Action R
  prepare_stmt a = prepare_new a a.m_stmt (db.prepare_v2 a.m_sql.text)

  -- `InsertAction::execute`. The callback gets the list of the new row's id, or the empty list.
  abbrev inserted : Bool × Action (Option ℕ) → Bool × Action (Option ℕ)
  inserted (false, a) = refused none a
  inserted (true, a) =
      stepped (some (of_stmt db.last_insert_rowid a.m_stmt)) none a
        (is_done (result_of db a.m_stmt))

  unfoldable pub execute_insert : Action (Option ℕ) → Bool × Action (Option ℕ)
  unfolding prepare_stmt
  execute_insert a = inserted (prepare_stmt a)

  abbrev changed : Bool × Action ℕ → Bool × Action ℕ
  changed (false, a) = refused 0 a
  changed (true, a) = stepped (of_stmt db.changes a.m_stmt) 0 a (is_done (result_of db a.m_stmt))

  -- `UpdateAction::execute`
  unfoldable pub execute_update : Action ℕ → Bool × Action ℕ
  unfolding prepare_stmt
  execute_update a = changed (prepare_stmt a)

  -- `RemoveAction::execute`
  unfoldable pub execute_remove : Action ℕ → Bool × Action ℕ
  unfolding prepare_stmt
  execute_remove a = changed (prepare_stmt a)

  abbrev counted : Bool × Action ℕ → Bool × Action ℕ
  counted (false, a) = refused 0 a
  counted (true, a) =
      stepped (of_stmt db.column_int64 a.m_stmt) 0 a (is_row (result_of db a.m_stmt))

  -- `CountAction::execute`
  unfoldable pub execute_count : Action ℕ → Bool × Action ℕ
  unfolding prepare_stmt
  execute_count a = counted (prepare_stmt a)

  -- A query is not stepped: its callback gets a cursor over the live statement.
  abbrev queried : Bool × Action (Option Stmt) → Bool × Action (Option Stmt)
  queried (false, a) = refused none a
  queried (true, a) = (true, notify (finish (invoke_callback a false a.m_stmt)))

  -- `QueryAction::execute`
  unfoldable pub execute_query : Action (Option Stmt) → Bool × Action (Option Stmt)
  unfolding prepare_stmt
  execute_query a = queried (prepare_stmt a)
