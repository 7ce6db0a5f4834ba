-- ===== src/Conn/Session/Invalid.antt =====
-- conn.go, conn_query.go, tx.go, savepoint.go, twophase.go, stmt.go, batch.go, rows.go, sessionattr.go
-- and updatable.go: any calls over a connection that is closed or broken.
use go_hsql.Base.{ℕ, ◌≡◌, ◌⊎◌, Bool, true, false, List}
use go_hsql.Base.Int.{ℤ}
use go_hsql.Proto.Const.{mode_disconnect}
use go_hsql.Proto.Utf8.{Text}
use go_hsql.Proto.Types.Value.{Value}
use go_hsql.Proto.Result.{Result, new_result}
use go_hsql.Conn.{Conn, Reply, Context, requested}
use go_hsql.Conn.Session.{
  ping, reset_session, close, exec_context, savepoint, savepoint_end, prepare_commit,
}
use go_hsql.Conn.Tx.{begin_tx, finish}
use go_hsql.Conn.Stmt.{Stmt, prepare_context, close_stmt, exec_batch}
use go_hsql.Conn.Rows.{Rows, next_row, close_rows, next_result_set}
use go_hsql.Conn.Cursor.{Updates, UpdatableRows, update_row, delete_row, insert_row}
use go_hsql.Conn.Info.{session_info}
use go_hsql.Conn.Out.{Argument}
use go_hsql.Conn.Results.{query_context, execute, exec_prepared_batch}

-- Closed by a Close: the DISCONNECT is made.
abbrev pub left : Conn → Conn
left c = requested (new_result mode_disconnect) (record c { closed = true })

-- Nothing has happened to a connection, or one that was broken but not closed has been closed.
abbrev pub IsQuiet : Conn → Conn → Type 0
IsQuiet c d = (d ≡ c) ⊎ ((c.closed ≡ false) × (d ≡ left c))

module _ (equal_fold : Text → Text → Bool) (exchange : List Result → Result → Reply) where
  -- The calls over a connection, with whatever they return.
  pub data Step (c : Conn) : Conn → Type 0 where
    pinged : (ctx : Context) → Step c (ping exchange ctx c).1
    reset : (ctx : Context) → Step c (reset_session exchange ctx c).1
    executed :
        (ctx : Context) (query : Text) (args : List Value)
        → Step c (exec_context exchange ctx query args c).1
    queried :
        (ctx : Context) (query : Text) (args : List Value)
        → Step c (query_context exchange ctx query args c).1
    began :
        (ctx : Context) (level : ℕ) (read_only : Bool)
        → Step c (begin_tx exchange ctx level read_only c).1
    finished : (tx_type : ℤ) → Step c (finish exchange tx_type c).1
    saved : (ctx : Context) (name : Text) → Step c (savepoint exchange ctx name c).1
    save_ended :
        (ctx : Context) (tx_type : ℤ) (name : Text)
        → Step c (savepoint_end exchange ctx tx_type name c).1
    commit_prepared : (ctx : Context) → Step c (prepare_commit exchange ctx c).1
    asked : (ctx : Context) → Step c (session_info exchange ctx c).1
    prepared_by : (ctx : Context) (query : Text) → Step c (prepare_context exchange ctx query c).1
    stmt_executed :
        (ctx : Context) (s : Stmt) (args : List Argument) → Step c (execute exchange ctx s args c).1
    stmt_closed : (s : Stmt) → Step c (close_stmt exchange s c).2
    batched : (ctx : Context) (sqls : List Text) → Step c (exec_batch exchange ctx sqls c).1
    batch_prepared :
        (ctx : Context) (query : Text) (rows : List (List Value))
        → Step c (exec_prepared_batch exchange ctx query rows c).1
    row_taken : (r : Rows) → Step c (next_row exchange r c).2
    rows_closed : (r : Rows) → Step c (close_rows exchange r c).2
    rows_advanced : (r : Rows) → Step c (next_result_set exchange r c).2
    row_updated :
        (ctx : Context) (updates : Updates) (u : UpdatableRows)
        → Step c (update_row equal_fold exchange ctx updates u c).2
    row_deleted :
        (ctx : Context) (u : UpdatableRows) → Step c (delete_row equal_fold exchange ctx u c).2
    row_inserted :
        (ctx : Context) (values : Updates) (u : UpdatableRows)
        → Step c (insert_row equal_fold exchange ctx values u c).2
    closed_by : Step c (close exchange c)

  pub data Steps (c : Conn) : Conn → Type 0 where
    here : Steps c c
    then_step : {d e : Conn} → Steps c d → Step d e → Steps c e
