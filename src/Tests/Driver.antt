-- ===== src/Tests/Driver.antt =====
-- The theorems on connections, transactions, result sets and cursors, at a scripted server.
use go_hsql.Base.{
  zero, suc, ◌≡◌, refl, inl, inr, Bool, true, false, some, List, [], ◌∷◌, ◌++◌, arith,
  if◌then◌else◌,
}
use go_hsql.Base.Int.{ℤ, pos, negsuc, eqb_ℤ}
use go_hsql.Proto.Const.{mode_error, mode_data, mode_set_connect_attr, tx_commit}
use go_hsql.Proto.Utf8.{Text}
use go_hsql.Proto.Types.Value.{Value, int64}
use go_hsql.Proto.Metadata.{empty_metadata}
use go_hsql.Proto.Result.{Result, Response, RowSet, new_result}
use go_hsql.Conn.{
  Conn, new_conn, Reply, failed, answered, exchange_error, error_from_result, requested, background,
  is_valid, new_exec_direct, if_valid, next, ◌>>=◌, exec_ctx, settle,
}
use go_hsql.Conn.Session.{reset_session}
use go_hsql.Conn.Session.Properties.{was_reset, reset_session_ok}
use go_hsql.Conn.Session.{ping, close, exec_sql, reset_fields}
use go_hsql.Conn.Tx.{
  begin_tx, finish, end_tran, level_serializable, begin_steps, begin_isolation, set_isolation,
  isolation_sql, begin_read_only, set_altered, set_autocommit, set_session_attr_bool, ended,
  restored,
}
use go_hsql.Conn.Tx.Properties.{begin_tx_ok, finish_ok}
use go_hsql.Conn.Tx.Failure.{ending, restoring, finish_error, finish_lost}
use go_hsql.Conn.Frame.Requests.{Grows}
use go_hsql.Conn.Rows.{new_rows}
use go_hsql.Conn.Rows.Drain.Blocks.{Serves}
use go_hsql.Conn.Rows.Drain.{drain, drain-new_rows}
use go_hsql.Conn.Cursor.{UpdatableRows, new_updatable_rows, update_row, delete_row, insert_row}
use go_hsql.Conn.Cursor.Properties.{IsCursor, new_updatable_rows-IsCursor, changes-IsCursor}

-- A server that acknowledges every request.
abbrev agreeing : List Result → Result → Reply
agreeing requests req = answered (record { main = new_result mode_set_connect_attr; chained = [] })

-- A wire that is cut.
abbrev cut : List Result → Result → Reply
cut requests req = failed

-- Inside a transaction that is read only.
abbrev in_tx : Conn
in_tx = record (new_conn (pos 100)) { autocommit = false; tx_altered_session = true }

abbrev after_begin : Conn
after_begin = (begin_tx agreeing background level_serializable true (new_conn (pos 100))).1

begin_succeeds :
    begin_tx agreeing background level_serializable true (new_conn (pos 100))
    ≡ (inr tt, after_begin)
unfolding begin_tx begin_steps begin_isolation set_isolation isolation_sql begin_read_only
    set_altered set_autocommit set_session_attr_bool if_valid next ◌>>=◌ exec_ctx settle exec_sql
begin_succeeds = refl

begin_tx_ok_example :
    ((new_conn (pos 100)).autocommit ≡ true)
    × (is_valid after_begin ≡ true)
    × (after_begin.autocommit ≡ false)
begin_tx_ok_example =
    begin_tx_ok agreeing background level_serializable true (new_conn (pos 100)) after_begin tt
      begin_succeeds

abbrev after_commit : Conn
after_commit = (finish agreeing tx_commit in_tx).1

commit_succeeds : finish agreeing tx_commit in_tx ≡ (inr tt, after_commit)
unfolding finish ended restored end_tran set_session_attr_bool if_valid next ◌>>=◌ exec_ctx settle
    exec_sql
commit_succeeds = refl

finish_ok_example : (after_commit.autocommit ≡ true) × (after_commit.tx_altered_session ≡ false)
finish_ok_example = finish_ok agreeing tx_commit in_tx after_commit tt commit_succeeds

-- A server that refuses every request.
abbrev refusal : Response
refusal = record { main = record (new_result mode_error) { error_code = negsuc 9 }; chained = [] }

abbrev refusing : List Result → Result → Reply
refusing requests req = answered refusal

in_tx-is_valid : is_valid in_tx ≡ true
unfolding is_valid
in_tx-is_valid = refl

finish_error_example :
    ((finish refusing tx_commit in_tx).0 ≡ inl (error_from_result refusal.main))
    × ((finish refusing tx_commit in_tx).1.autocommit ≡ true)
    × Grows
        ((in_tx.requests ++ (ending tx_commit ∷ [])) ++ (restoring ∷ []))
        (finish refusing tx_commit in_tx).1.requests
finish_error_example = finish_error refusing tx_commit in_tx refusal in_tx-is_valid refl refl

finish_lost_example : finish cut tx_commit in_tx ≡ (
  inl exchange_error,
  record (requested (ending tx_commit) in_tx) { broken = true; autocommit = true },
)
finish_lost_example = finish_lost cut tx_commit in_tx in_tx-is_valid refl

reset_succeeds : reset_session agreeing background in_tx ≡ (inr tt, was_reset in_tx)
unfolding reset_session reset_fields new_exec_direct if_valid next ◌>>=◌ exec_ctx settle exec_sql
reset_succeeds = refl

reset_session_ok_example : (is_valid in_tx ≡ true) × (was_reset in_tx ≡ was_reset in_tx)
reset_session_ok_example =
    reset_session_ok agreeing background in_tx (was_reset in_tx) tt reset_succeeds

abbrev after_close : Conn
after_close = close agreeing (record in_tx { broken = true })

abbrev after_ping : Conn
after_ping = (ping agreeing background after_close).1

abbrev no_fold : Text → Text → Bool
no_fold a b = false

abbrev broken_in_tx : Conn
broken_in_tx = record in_tx { broken = true }

-- Two rows in two blocks.
abbrev first_row : List Value
first_row = int64 (pos 1) ∷ []

abbrev second_row : List Value
second_row = int64 (pos 2) ∷ []

abbrev block_of : ℤ → List (List Value) → RowSet
block_of offset rows = record { id = pos 4; size = pos 2; current_offset = offset; rows = rows }

abbrev data_response : ℤ → List (List Value) → Response
data_response offset rows = record {
  main = record (new_result mode_data) {
    meta = some empty_metadata;
    row_set = some (block_of offset rows);
  };
  chained = [];
}

abbrev paging : List Result → Result → Reply
paging requests req = answered (
    if eqb_ℤ req.update_count (pos 0)
    then data_response (pos 0) (first_row ∷ [])
    else data_response (pos 1) (second_row ∷ []))

paging-Serves : Serves paging (pos 4) (first_row ∷ second_row ∷ [])
paging-Serves requests req zero m i u lt = record {
  response = data_response (pos 0) (first_row ∷ []);
  row_set = block_of (pos 0) (first_row ∷ []);
  first = first_row;
  others = [];
  remaining = second_row ∷ [];
  is_answer = rw (u) refl;
  is_no_error = refl;
  has_row_set = refl;
  has_rows = refl;
  is_part = refl;
}
paging-Serves requests req (suc zero) m i u lt = record {
  response = data_response (pos 1) (second_row ∷ []);
  row_set = block_of (pos 1) (second_row ∷ []);
  first = second_row;
  others = [];
  remaining = [];
  is_answer = rw (u) refl;
  is_no_error = refl;
  has_row_set = refl;
  has_rows = refl;
  is_part = refl;
}
paging-Serves requests req (suc (suc k)) m i u lt = absurd (omega arith)

drain-new_rows_example :
    drain paging 3 (new_rows (data_response (pos 0) (first_row ∷ []))) (new_conn (pos 1))
    ≡ (first_row ∷ second_row ∷ [], true)
drain-new_rows_example =
    drain-new_rows paging (data_response (pos 0) (first_row ∷ [])) empty_metadata
      (block_of (pos 0) (first_row ∷ [])) (first_row ∷ second_row ∷ []) (second_row ∷ [])
      (new_conn (pos 1)) refl refl refl refl paging-Serves (omega arith) refl

abbrev two_rows : UpdatableRows
two_rows = new_updatable_rows empty_metadata (block_of (pos 0) (first_row ∷ second_row ∷ []))

changes-IsCursor_example :
    IsCursor (update_row no_fold agreeing background [] two_rows (new_conn (pos 1))).1
    × IsCursor (delete_row no_fold agreeing background two_rows (new_conn (pos 1))).1
    × IsCursor (insert_row no_fold agreeing background [] two_rows (new_conn (pos 1))).1
changes-IsCursor_example =
    changes-IsCursor no_fold agreeing background [] two_rows (new_conn (pos 1))
      (new_updatable_rows-IsCursor empty_metadata (block_of (pos 0) (first_row ∷ second_row ∷ [])))
