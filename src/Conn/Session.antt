-- ===== src/Conn/Session.antt =====
-- conn.go Ping, Close, IsValid and ResetSession, conn_query.go ExecContext, savepoint.go, twophase.go.
pub mod Properties
pub mod Guards
pub mod Invalid
use go_hsql.Base.{inr, true, List, [], ◌∷◌, if◌then◌else◌}
use go_hsql.Base.Int.{ℤ, negsuc}
use go_hsql.Proto.Const.{
  mode_disconnect, mode_end_tran, mode_set_connect_attr, tx_savepoint_name_rollback,
  tx_savepoint_name_release, tx_prepare_commit, connect_attr_savepoint_name, return_generated_keys,
}
use go_hsql.Proto.Utf8.{Text}
use go_hsql.Proto.Result.{Result, Response, new_result}
use go_hsql.Conn.{
  Conn, Reply, skip, empty_savepoint_name, Context, Action, pure, fail, ◌>>=◌, if_valid, requested,
  exec_ctx, new_exec_direct,
}

abbrev pub ping_sql : Text
ping_sql = 86 ∷ 65 ∷ 76 ∷ 85 ∷ 69 ∷ 83 ∷ 40 ∷ 49 ∷ 41 ∷ []

abbrev pub rollback_sql : Text
rollback_sql = 82 ∷ 79 ∷ 76 ∷ 76 ∷ 66 ∷ 65 ∷ 67 ∷ 75 ∷ []

abbrev pub set_autocommit_sql : Text
set_autocommit_sql =
    83 ∷ 69 ∷ 84 ∷ 32 ∷ 65 ∷ 85 ∷ 84 ∷ 79 ∷ 67 ∷ 79 ∷ 77 ∷ 77 ∷ 73 ∷ 84 ∷ 32 ∷ 84 ∷ 82 ∷ 85 ∷ 69
    ∷ []

-- `err == nil` alone is of use.
abbrev pub ignore : {A : Type 0} → Action A → Action Unit
ignore m = m >>= λ a. pure tt

-- c.autocommit = true, c.lobIDSeq = -1.
unfoldable pub reset_fields : Action Unit
reset_fields c = (inr tt, record c { autocommit = true; lob_id_seq = negsuc 0 })

module _ (exchange : List Result → Result → Reply) where
  unfoldable pub exec_sql : Context → Text → Action Unit
  exec_sql ctx sql c = ignore (exec_ctx exchange ctx (new_exec_direct sql c)) c

  unfoldable pub ping : Context → Action Unit
  ping ctx = if_valid (exec_sql ctx ping_sql)

  unfoldable pub reset_session : Context → Action Unit
  reset_session ctx =
      if_valid
        (exec_sql ctx rollback_sql >>= λ a. exec_sql ctx set_autocommit_sql >>= λ b. reset_fields)

  -- The DISCONNECT is sent on a connection that is broken too, past execCtx, and its error is lost.
  unfoldable pub close : Conn → Conn
  close c =
      if c.closed then c else requested (new_result mode_disconnect) (record c { closed = true })

  -- ExecContext: the rows affected and the response's key are read off what it returns.
  unfoldable pub exec_context : {A : Type 0} → Context → Text → List A → Action Response
  exec_context ctx query [] = if_valid (λ c.
      exec_ctx exchange ctx
        (record (new_exec_direct query c) { generate_keys = return_generated_keys }) c)
  exec_context ctx query (a ∷ args) = fail skip

  unfoldable pub savepoint : Context → Text → Action Unit
  savepoint ctx [] = fail empty_savepoint_name
  savepoint ctx (x ∷ name) = if_valid (
      ignore (
        exec_ctx exchange ctx (record (new_result mode_set_connect_attr) {
          connect_attr = connect_attr_savepoint_name;
          savepoint_name = x ∷ name;
        })))

  unfoldable pub savepoint_end : Context → ℤ → Text → Action Unit
  savepoint_end ctx tx_type [] = fail empty_savepoint_name
  savepoint_end ctx tx_type (x ∷ name) = if_valid (
      ignore (
        exec_ctx exchange ctx
          (record (new_result mode_end_tran) { tx_type = tx_type; savepoint_name = x ∷ name })))

  unfoldable pub rollback_to_savepoint : Context → Text → Action Unit
  unfolding savepoint_end
  rollback_to_savepoint ctx = savepoint_end ctx tx_savepoint_name_rollback

  unfoldable pub release_savepoint : Context → Text → Action Unit
  unfolding savepoint_end
  release_savepoint ctx = savepoint_end ctx tx_savepoint_name_release

  unfoldable pub prepare_commit : Context → Action Unit
  prepare_commit ctx = if_valid (
      ignore
        (exec_ctx exchange ctx (record (new_result mode_end_tran) { tx_type = tx_prepare_commit })))
