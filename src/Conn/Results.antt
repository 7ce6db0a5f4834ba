-- ===== src/Conn/Results.antt =====
-- conn_query.go and result_exec.go: what the caller gets of a response; stmt.go and batch.go: the
-- requests that execute prepared statements.
use go_hsql.Base.{
  ℕ, ◌⊎◌, inl, inr, true, ◌||◌, Option, none, some, List, [], ◌∷◌, ◌==◌, if◌then◌else◌,
}
use go_hsql.Base.Int.{ℤ, pos}
use go_hsql.Proto.Const.{
  mode_update_count, mode_call_response, mode_execute, mode_batch_execute, statement_return_any,
  default_rs_properties,
}
use go_hsql.Proto.Utf8.{Text}
use go_hsql.Proto.Types.Value.{Value}
use go_hsql.Proto.Metadata.{Metadata, empty_metadata, meta_simple_result}
use go_hsql.Proto.Result.{Result, Response, generated_key, new_result}
use go_hsql.Conn.{
  Conn, Reply, ConnError, bad_conn, skip, Returned, Context, Action, pure, fail, ◌>>=◌, if_valid,
  exec_ctx, new_exec_direct,
}
use go_hsql.Conn.Rows.{Rows, is_rows_result, rows_results, load_result, new_rows}
use go_hsql.Conn.Stmt.{Stmt, OnStmt, counted, prepare_context, close_stmt}
use go_hsql.Conn.Out.{Argument, Out, OutError, split_out_params}

-- execResult.
pub record ExecResult : Type 0 where
  pub rows_affected : ℤ
  pub last_insert_id : Option ℤ

-- The chained results are looked through for a generated key.
unfoldable pub result_from_response : Response → ExecResult
result_from_response res = record {
  rows_affected = if res.main.mode == mode_update_count then res.main.update_count else pos 0;
  last_insert_id = generated_key res.chained;
}

-- &rows{conn: c, done: true}.
abbrev pub no_rows : Rows
no_rows = record {
  meta = none;
  result_id = pos 0;
  total = pos 0;
  block = [];
  block_pos = 0;
  abs_pos = pos 0;
  done = true;
  next_results = [];
}

-- The first of the chained result sets, with the others behind it.
unfoldable pub chained_rows : List Result → Rows
unfolding rows_results
chained_rows [] = no_rows
chained_rows (res ∷ more) =
    let rest = chained_rows more in
    if is_rows_result res then load_result res (rows_results more) else rest

unfoldable pub rows_from_response : Response → Rows
unfolding chained_rows
rows_from_response res =
    if res.main.mode == mode_call_response
    then chained_rows res.chained
    else if is_rows_result res.main
    then new_rows res
    else no_rows

unfoldable pub rows_of : Returned Response → Returned Rows
unfolding rows_from_response
rows_of (inl e, c) = (inl e, c)
rows_of (inr res, c) = (inr (rows_from_response res), c)

-- The EXECUTE of stmt.execute.
unfoldable pub execute_request : Stmt → List Value → Conn → Result
execute_request s values c = record (new_result mode_execute) {
  statement_id = s.id;
  statement_return_type = statement_return_any;
  rs_properties = default_rs_properties;
  fetch_size = c.fetch_size;
  param_meta = s.param_meta;
  param_values = values;
}

-- The BATCHEXECUTE of ExecPreparedBatch, whose metadata is the types of the parameters alone.
unfoldable pub batch_execute_request : Stmt → Metadata → List (List Value) → Result
batch_execute_request s m rows = record (new_result mode_batch_execute) {
  statement_id = s.id;
  meta = some (record empty_metadata {
    meta_type = meta_simple_result;
    column_count = m.column_count;
    types = m.types;
  });
  batch_rows = rows;
}

-- What execute hands to applyOutParams, or its error; a CALL's destinations come back beside it.
pub data Executed : Type 0 where
  executed : Response → List (ℕ × Out) → Executed
  bad_argument : OutError → Executed
  exec_failed : ConnError → Executed

unfoldable pub with_outs : List (ℕ × Out) → Returned Response → Executed × Conn
with_outs outs (inl e, c) = (exec_failed e, c)
with_outs outs (inr res, c) = (executed res outs, c)

-- `defer s.Close()`, whose error is dropped.
unfoldable pub deferred_close : OnStmt Unit → Returned (List ℤ) → Returned (List ℤ)
deferred_close (r, s, c) (counts, d) = (counts, c)

module _ (exchange : List Result → Result → Reply) where
  -- QueryContext of a connection.
  unfoldable pub query_context : {A : Type 0} → Context → Text → List A → Action Rows
  unfolding rows_of
  query_context ctx query [] =
      if_valid (λ c. rows_of (exec_ctx exchange ctx (new_exec_direct query c) c))
  query_context ctx query (a ∷ args) = fail skip

  unfoldable pub execute_split :
      Context → Stmt → OutError ⊎ (List Value × List (ℕ × Out)) → Conn → Executed × Conn
  unfolding execute_request with_outs
  execute_split ctx s (inl e) c = (bad_argument e, c)
  execute_split ctx s (inr (values, outs)) c =
      with_outs outs (exec_ctx exchange ctx (execute_request s values c) c)

  -- stmt.execute of positional arguments, in front of applyOutParams.
  unfoldable pub execute : Context → Stmt → List Argument → Conn → Executed × Conn
  unfolding execute_split
  execute ctx s args c =
      if c.closed || c.broken
      then (exec_failed bad_conn, c)
      else execute_split ctx s (split_out_params 0 args) c

  -- ExecPreparedBatch behind PrepareContext, for the statement's parameter metadata.
  unfoldable pub batch_of : Context → List (List Value) → Metadata → Stmt → Conn → Returned (List ℤ)
  unfolding counted deferred_close batch_execute_request
  batch_of ctx rows m s c =
      let (counts, d) = counted (exec_ctx exchange ctx (batch_execute_request s m rows) c) in
      deferred_close (close_stmt exchange s d) (counts, d)

  -- ExecPreparedBatch: none is the panic at a statement without parameter metadata, which a decoded
  -- PREPARE_ACK always has.
  unfoldable pub exec_prepared_batch : Context → Text → List (List Value) → Action (Option (List ℤ))
  unfolding batch_of
  exec_prepared_batch ctx query rows = if_valid (
      prepare_context exchange ctx query >>= λ s. elim s.param_meta [
        | some m ↦ (batch_of ctx rows m s >>= λ counts. pure (some counts))
        | none ↦ pure none
      ])
