-- ===== src/Ubj/Store/Actions/Runs.antt =====
-- What a run of a new action reports (src/ubj/store/action/).
use zway_lib.Base.{
  ◌≡◌, refl, Bool, true, false, not, ◌&&◌, ◌||◌, Option, none, some, [], ◌∷◌, if◌then◌else◌,
}
use zway_lib.Buffer.{MemoryBuffer}
use zway_lib.Ubj.Value.{Runtime, Value}
use zway_lib.Ubj.Store.Sql.{Sql}
use zway_lib.Ubj.Store.Actions.{
  Stmt, Database, Action, action, is_done, is_row, bound_stmt, execute_insert, execute_update,
  execute_remove, execute_count, execute_query, prepare_stmt,
}

-- The run returns `ok` and leaves no statement; the callback, if there is one, was called once, with
-- the error flag `not ok` and `r`; and who waits was notified if the statement was prepared or there
-- is a callback.
abbrev pub reported : {R : Type 0} → Sql → Bool → Bool → Bool → R → Bool × Action R
reported sql callback prepares ok r = (
  ok,
  record (action sql callback) {
    calls = if callback then (not ok, r) ∷ [] else [];
    m_done = prepares || callback;
    m_failed = not prepares;
  },
)

module _ (db : Database) (rt : Runtime) (vtab : Bool) (serialize : Value → Option MemoryBuffer)
    (sql : Sql) where
  -- The statement is prepared.
  abbrev pub prepares : Bool
  prepares = db.prepare_v2 sql.text

  abbrev pub stmt : Stmt
  stmt = bound_stmt db rt vtab serialize sql

  -- The statement is prepared and runs to its end, or to a row.
  abbrev pub runs : Bool
  runs = prepares && is_done (db.step stmt)

  abbrev pub has_row : Bool
  has_row = prepares && is_row (db.step stmt)

  insert_reports :
      (callback p k : Bool)
      → prepares ≡ p
      → is_done (db.step stmt) ≡ k
      → execute_insert db rt vtab serialize (action sql callback)
        ≡ reported sql callback p
            (p && k)
            (if p && k then some (db.last_insert_rowid stmt) else none)
  unfolding execute_insert prepare_stmt
  insert_reports callback true true e f = rw (e, f)
  insert_reports callback true false e f = rw (e, f)
  insert_reports true false k e f = rw e
  insert_reports false false k e f = rw e

  update_reports :
      (callback p k : Bool)
      → prepares ≡ p
      → is_done (db.step stmt) ≡ k
      → execute_update db rt vtab serialize (action sql callback)
        ≡ reported sql callback p (p && k) (if p && k then db.changes stmt else 0)
  unfolding execute_update prepare_stmt
  update_reports callback true true e f = rw (e, f)
  update_reports callback true false e f = rw (e, f)
  update_reports true false k e f = rw e
  update_reports false false k e f = rw e

  remove_reports :
      (callback p k : Bool)
      → prepares ≡ p
      → is_done (db.step stmt) ≡ k
      → execute_remove db rt vtab serialize (action sql callback)
        ≡ reported sql callback p (p && k) (if p && k then db.changes stmt else 0)
  unfolding execute_remove prepare_stmt
  remove_reports callback true true e f = rw (e, f)
  remove_reports callback true false e f = rw (e, f)
  remove_reports true false k e f = rw e
  remove_reports false false k e f = rw e

  count_reports :
      (callback p k : Bool)
      → prepares ≡ p
      → is_row (db.step stmt) ≡ k
      → execute_count db rt vtab serialize (action sql callback)
        ≡ reported sql callback p (p && k) (if p && k then db.column_int64 stmt else 0)
  unfolding execute_count prepare_stmt
  count_reports callback true true e f = rw (e, f)
  count_reports callback true false e f = rw (e, f)
  count_reports true false k e f = rw e
  count_reports false false k e f = rw e

  query_reports :
      (callback p : Bool)
      → prepares ≡ p
      → execute_query db rt vtab serialize (action sql callback)
        ≡ reported sql callback p p (if p then some stmt else none)
  unfolding execute_query prepare_stmt
  query_reports callback true e = rw e
  query_reports true false e = rw e
  query_reports false false e = rw e

-- A new insert, update or remove succeeds just if its statement is prepared and runs to its end, and
-- a count if it gives a row. The callback gets the id of the row, the number of rows, or the count;
-- otherwise the error and nothing. No statement is left over. Only an action without a callback whose
-- statement cannot be prepared does not notify.
pub execute_lem :
    (db : Database) (rt : Runtime) (vtab : Bool) (serialize : Value → Option MemoryBuffer)
    (sql : Sql) (callback : Bool)
    → let p = prepares db rt vtab serialize sql in
      let ok = runs db rt vtab serialize sql in
      let counts = has_row db rt vtab serialize sql in
      let s = stmt db rt vtab serialize sql in
      (execute_insert db rt vtab serialize (action sql callback)
        ≡ reported sql callback p ok (if ok then some (db.last_insert_rowid s) else none))
      × (execute_update db rt vtab serialize (action sql callback)
          ≡ reported sql callback p ok (if ok then db.changes s else 0))
      × (execute_remove db rt vtab serialize (action sql callback)
          ≡ reported sql callback p ok (if ok then db.changes s else 0))
      × (execute_count db rt vtab serialize (action sql callback)
          ≡ reported sql callback p counts (if counts then db.column_int64 s else 0))
execute_lem db rt vtab serialize sql callback = (
  insert_reports db rt vtab serialize sql callback _ _ refl refl,
  update_reports db rt vtab serialize sql callback _ _ refl refl,
  remove_reports db rt vtab serialize sql callback _ _ refl refl,
  count_reports db rt vtab serialize sql callback _ _ refl refl,
)

-- A new query succeeds just if its statement is prepared. Its callback gets a cursor over the live
-- statement, which is gone when the query returns. Only a query without a callback whose statement
-- cannot be prepared does not notify.
pub execute_query_lem :
    (db : Database) (rt : Runtime) (vtab : Bool) (serialize : Value → Option MemoryBuffer)
    (sql : Sql) (callback : Bool)
    → let p = prepares db rt vtab serialize sql in
      execute_query db rt vtab serialize (action sql callback)
      ≡ reported sql callback p p (if p then some (stmt db rt vtab serialize sql) else none)
execute_query_lem db rt vtab serialize sql callback =
    query_reports db rt vtab serialize sql callback _ refl
