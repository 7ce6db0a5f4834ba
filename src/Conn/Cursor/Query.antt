-- ===== src/Conn/Cursor/Query.antt =====
-- updatable.go: QueryUpdatable and Close.
pub mod Opened
use go_hsql.Base.{
  ℕ, ◌+◌, ◌/◌, ◌%◌, ◌⊎◌, inl, inr, Bool, true, false, ◌||◌, Option, some, List, ◌==◌, if◌then◌else◌,
}
use go_hsql.Base.Int.{pos, ltb_ℤ, eqb_ℤ}
use go_hsql.Proto.Const.{
  mode_prepare, mode_prepare_ack, mode_execute, mode_close_result, statement_return_result,
  return_no_generated_keys, rs_updatable, rs_scrollable, rs_holdable,
}
use go_hsql.Proto.Utf8.{Text}
use go_hsql.Proto.Types.Value.{Value}
use go_hsql.Proto.Metadata.{Metadata}
use go_hsql.Proto.Result.{RowSet, Result, Response, new_result}
use go_hsql.Conn.{Conn, Reply, ConnError, bad_conn, Returned, Context, background, exec_ctx}
use go_hsql.Conn.Rows.{is_rows_result}
use go_hsql.Conn.Stmt.{Stmt, OnStmt, close_stmt}
use go_hsql.Conn.Cursor.{UpdatableRows, new_updatable_rows}

pub data QueryError : Type 0 where
  query_failed : ConnError → QueryError
  unexpected_prepare unexpected_response : ℕ → QueryError
  not_updatable no_cursor_metadata : QueryError

-- The rows with the statement that they hold.
abbrev pub Queried : Type 0
Queried = (QueryError ⊎ (UpdatableRows × Stmt)) × Conn

abbrev pub updatable_properties : ℕ
updatable_properties = rs_updatable + rs_scrollable + rs_holdable

-- RSProperties & RSUpdatable != 0.
unfoldable pub is_updatable : Result → Bool
is_updatable res = res.rs_properties / rs_updatable % 2 == 1

unfoldable pub prepare_updatable : Text → Result
prepare_updatable query = record (new_result mode_prepare) {
  sql = query;
  statement_return_type = statement_return_result;
  rs_properties = updatable_properties;
  generate_keys = return_no_generated_keys;
}

-- A fetch size of 0 asks for all rows.
unfoldable pub execute_updatable : Stmt → List Value → Result
execute_updatable s args = record (new_result mode_execute) {
  statement_id = s.id;
  statement_return_type = statement_return_result;
  rs_properties = updatable_properties;
  fetch_size = pos 0;
  param_meta = s.param_meta;
  param_values = args;
}

abbrev pub stmt_of : Result → Stmt
stmt_of res = record {
  id = res.statement_id;
  meta = res.meta;
  param_meta = res.param_meta;
  closed = false;
}

unfoldable pub has_extension : Metadata → Bool
has_extension m = ltb_ℤ m.column_count m.extended_count

-- The rows of an answer that is a result set with the columns of a cursor.
unfoldable pub cursor_of : Result → Option Metadata → Option RowSet → QueryError ⊎ UpdatableRows
unfolding has_extension
cursor_of res (some m) (some rs) =
    if is_rows_result res
    then (if has_extension m then inr (new_updatable_rows m rs) else inl no_cursor_metadata)
    else inl (unexpected_response res.mode)
cursor_of res m rs = inl (unexpected_response res.mode)

-- The open cursor, or the error behind the closing of its statement.
unfoldable pub opened_or :
    (Stmt → Conn → OnStmt Unit) → Stmt → QueryError ⊎ UpdatableRows → Conn → Queried
opened_or close s (inl e) c = let (r, t, d) = close s c in (inl e, d)
opened_or close s (inr u) c = (inr (u, s), c)

unfoldable pub after_execute : (Stmt → Conn → OnStmt Unit) → Stmt → Returned Response → Queried
unfolding opened_or cursor_of
after_execute close s (inl e, c) = opened_or close s (inl (query_failed e)) c
after_execute close s (inr res, c) =
    opened_or close s (cursor_of res.main res.main.meta res.main.row_set) c

abbrev pub Failable : Type 0
Failable = ConnError ⊎ Unit

-- What CLOSE_RESULT and FREE_STMT return together: the first error.
unfoldable pub first_error : Failable → Failable → Failable
first_error (inl e) r = inl e
first_error (inr u) r = r

unfoldable pub no_answer : Returned Response → Returned Unit
no_answer (inl e, c) = (inl e, c)
no_answer (inr res, c) = (inr tt, c)

module _ (exchange : List Result → Result → Reply) where
  unfoldable pub after_prepare : Context → List Value → Returned Response → Queried
  unfolding after_execute opened_or execute_updatable is_updatable
  after_prepare ctx args (inl e, c) = (inl (query_failed e), c)
  after_prepare ctx args (inr res, c) =
      let s = stmt_of res.main in
      if res.main.mode == mode_prepare_ack
      then (if is_updatable res.main
          then after_execute (close_stmt exchange) s
              (exec_ctx exchange ctx (execute_updatable s args) c)
          else opened_or (close_stmt exchange) s (inl not_updatable) c)
      else (inl (unexpected_prepare res.main.mode), c)

  unfoldable pub query_updatable : Context → Text → List Value → Conn → Queried
  unfolding after_prepare prepare_updatable
  query_updatable ctx query args c =
      if c.closed || c.broken
      then (inl (query_failed bad_conn), c)
      else after_prepare ctx args (exec_ctx exchange ctx (prepare_updatable query) c)

  -- The CLOSE_RESULT of Close, left out where the server keeps no cursor.
  unfoldable pub close_result : UpdatableRows → Conn → Returned Unit
  unfolding no_answer
  close_result u c =
      if c.closed || eqb_ℤ u.result_id (pos 0)
      then (inr tt, c)
      else no_answer (
          exec_ctx exchange background (record (new_result mode_close_result) { id = u.result_id })
            c)

  unfoldable pub close_updatable :
      UpdatableRows → Stmt → Conn → Failable × UpdatableRows × Stmt × Conn
  unfolding close_result first_error
  close_updatable u s c =
      let (r, d) = close_result u c in
      let (q, t, e) = close_stmt exchange s d in
      if u.closed then (inr tt, u, s, c) else (first_error r q, record u { closed = true }, t, e)
