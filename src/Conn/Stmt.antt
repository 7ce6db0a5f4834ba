-- ===== src/Conn/Stmt.antt =====
-- stmt.go and batch.go: prepared statements, their positional arguments, and batches.
pub mod Arguments
use go_hsql.Base.{
  ℕ, zero, suc, ◌⊎◌, inl, inr, Bool, true, false, ◌||◌, Option, none, some, List, [], ◌∷◌, ◌++◌,
  map, ◌==◌, if◌then◌else◌, length, set, replicate,
}
use go_hsql.Base.Int.{ℤ, pos, negsuc}
use go_hsql.Proto.Const.{
  mode_prepare_ack, mode_batch_exec_direct, mode_free_stmt, mode_prepare, statement_return_any,
  return_generated_keys, sql_varchar,
}
use go_hsql.Proto.Utf8.{Text}
use go_hsql.Proto.Types.Kind.{simple_type}
use go_hsql.Proto.Types.Value.{Value, null, int64, int, string}
use go_hsql.Proto.Metadata.{Metadata, empty_metadata, meta_simple_result}
use go_hsql.Proto.Result.{RowSet, Result, Response, new_result}
use go_hsql.Conn.{
  Conn, Reply, ConnError, bad_conn, unexpected_mode, Returned, Context, background, Action,
  exec_ctx, if_valid,
}

pub record Stmt : Type 0 where
  pub id : ℤ
  pub meta : Option Metadata
  pub param_meta : Option Metadata
  pub closed : Bool

-- A method of a statement: what it returns, the statement and the connection.
abbrev pub OnStmt : Type 0 → Type 0
OnStmt A = (ConnError ⊎ A) × Stmt × Conn

-- NumInput.
unfoldable pub num_input : Option Metadata → ℤ
num_input none = pos 0
num_input (some m) = m.column_count

-- driver.NamedValue, whose name is not read.
pub record NamedValue : Type 0 where
  pub ordinal : ℤ
  pub value : Value

-- `out[a.Ordinal-1] = a.Value`, where there is such a place.
unfoldable pub bind_value : ℤ → Value → List Value → List Value
bind_value (pos zero) v out = out
bind_value (pos (suc i)) v out = set out i v
bind_value (negsuc n) v out = out

unfoldable pub bind_values : List NamedValue → List Value → List Value
unfolding bind_value
bind_values [] out = out
bind_values (a ∷ args) out = bind_values args (bind_value a.ordinal a.value out)

unfoldable pub named_to_values : List NamedValue → List Value
named_to_values args = bind_values args (replicate (length args) null)

unfoldable pub named_from : ℕ → List Value → List NamedValue
named_from i [] = []
named_from i (v ∷ vs) = record { ordinal = pos (suc i); value = v } ∷ named_from (suc i) vs

unfoldable pub values_to_named : List Value → List NamedValue
values_to_named = named_from 0

-- The count in the first cell of a row.
unfoldable pub count_of : List Value → List ℤ
count_of (int64 n ∷ row) = n ∷ []
count_of (int n ∷ row) = n ∷ []
count_of row = []

unfoldable pub counts_of : List (List Value) → List ℤ
counts_of [] = []
counts_of (row ∷ rows) = count_of row ++ counts_of rows

unfoldable pub batch_counts : Option RowSet → List ℤ
batch_counts none = []
batch_counts (some rs) = counts_of rs.rows

-- `err != nil` is passed on; a response gives its counts.
unfoldable pub counted : Returned Response → Returned (List ℤ)
counted (inl e, c) = (inl e, c)
counted (inr res, c) = (inr (batch_counts res.main.row_set), c)

unfoldable pub exec_batch_request : List Text → Result
exec_batch_request sqls = record (new_result mode_batch_exec_direct) {
  meta = some (record empty_metadata {
    meta_type = meta_simple_result;
    column_count = pos 1;
    types = simple_type sql_varchar ∷ [];
  });
  batch_rows = map (λ sql. string sql ∷ []) sqls;
}

-- The statement of a PREPARE_ACK.
unfoldable pub prepared : Returned Response → Returned Stmt
prepared (inl e, c) = (inl e, c)
prepared (inr res, c) =
    if res.main.mode == mode_prepare_ack
    then (
      inr (record {
        id = res.main.statement_id;
        meta = res.main.meta;
        param_meta = res.main.param_meta;
        closed = false;
      }),
      c,
    )
    else (inl (unexpected_mode res.main.mode), c)

unfoldable pub told : Returned Response → Returned Unit
told (inl e, c) = (inl e, c)
told (inr res, c) = (inr tt, c)

module _ (exchange : List Result → Result → Reply) where
  unfoldable pub prepare_context : Context → Text → Action Stmt
  unfolding prepared
  prepare_context ctx query c =
      if c.closed
      then (inl bad_conn, c)
      else prepared (
          exec_ctx exchange ctx
            (record (new_result mode_prepare) {
              sql = query;
              statement_return_type = statement_return_any;
              generate_keys = return_generated_keys;
            })
            c)

  unfoldable pub close_stmt : Stmt → Conn → OnStmt Unit
  unfolding told
  close_stmt s c =
      if s.closed || c.closed
      then (inr tt, s, c)
      else (let (r, d) = told (
            exec_ctx exchange background
              (record (new_result mode_free_stmt) { statement_id = s.id }) c) in
          (r, record s { closed = true }, d))

  unfoldable pub exec_batch : Context → List Text → Action (List ℤ)
  unfolding counted
  exec_batch ctx sqls = if_valid (λ c. counted (exec_ctx exchange ctx (exec_batch_request sqls) c))
