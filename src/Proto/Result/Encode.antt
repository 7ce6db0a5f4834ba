-- ===== src/Proto/Result/Encode.antt =====
-- internal/proto/result.go EncodePayload, writeSimpleRows and writeParams.
use go_hsql.Base.{
  ℕ, zero, suc, Bool, ◌||◌, Option, none, some, List, [], ◌∷◌, ◌++◌, ◌==◌, if◌then◌else◌, length,
}
use go_hsql.Base.Int.{ℤ, pos, pos_part, eqb_ℤ}
use go_hsql.Base.Words.{Bytes, wrap}
use go_hsql.Proto.Const.{
  mode_sql_cancel, mode_set_session_attr, mode_get_session_attr, mode_batch_exec_direct,
  mode_batch_execute, mode_reset_session, mode_request_data, mode_connect, mode_disconnect,
  mode_end_tran, mode_exec_direct, mode_execute, mode_free_stmt, mode_prepare,
  mode_set_connect_attr, mode_start_tran, mode_close_result, mode_update_result,
  tx_savepoint_name_rollback, tx_savepoint_name_release, connect_attr_savepoint_name,
}
use go_hsql.Proto.Errors.{cannot_encode, Outcome, ok, err, panic, ◌>>=◌}
use go_hsql.Proto.RowOutput.{write_u8, write_int, write_short, write_long, write_string}
use go_hsql.Proto.Types.Kind.{ColumnType}
use go_hsql.Proto.Types.Value.{Value, null}
use go_hsql.Proto.Types.Coerce.{Host}
use go_hsql.Proto.Types.Write.{write_value}
use go_hsql.Proto.Metadata.{Metadata}
use go_hsql.Proto.Metadata.Write.{write_metadata}
use go_hsql.Proto.Result.{Result}

module _ (host : Host) where
  -- `for i := 0; i < n; i++` over Types[i] and the values, nil where there are too few.
  unfoldable pub write_row : ℕ → List ColumnType → List Value → Outcome Bytes
  write_row zero ts vs = ok []
  write_row (suc n) [] vs = panic
  write_row (suc n) (t ∷ ts) [] =
      write_value host t null >>= λ b. write_row n ts [] >>= λ bs. ok (b ++ bs)
  write_row (suc n) (t ∷ ts) (v ∷ vs) =
      write_value host t v >>= λ b. write_row n ts vs >>= λ bs. ok (b ++ bs)

  unfoldable pub write_rows : ℕ → List ColumnType → List (List Value) → Outcome Bytes
  write_rows n ts [] = ok []
  write_rows n ts (row ∷ rows) =
      write_row n ts row >>= λ b. write_rows n ts rows >>= λ bs. ok (b ++ bs)

  unfoldable pub write_simple_rows : Option Metadata → List (List Value) → Outcome Bytes
  write_simple_rows none rows = ok (write_int (pos 0))
  write_simple_rows (some m) rows = write_rows (pos_part m.column_count) m.types rows >>= λ b.
      ok (write_int (wrap 32 (pos (length rows))) ++ b)

  unfoldable pub write_params : Option Metadata → List Value → Outcome Bytes
  write_params none vs = ok (write_int (pos 0))
  write_params (some m) vs =
      write_row (pos_part m.column_count) m.types vs >>= λ b. ok (write_int (pos 1) ++ b)

  -- The case that BATCHEXECDIRECT, BATCHEXECUTE and SETSESSIONATTR share.
  unfoldable pub encode_batch : Result → Outcome Bytes
  encode_batch r = write_metadata r.meta >>= λ m. write_simple_rows r.meta r.batch_rows >>= λ rows.
      ok (
        write_int r.update_count
        ++ (write_int r.fetch_size
            ++ (write_long r.statement_id ++ (write_short r.query_timeout ++ (m ++ rows)))))

  abbrev is_savepoint_end : ℤ → Bool
  is_savepoint_end t = eqb_ℤ t tx_savepoint_name_release || eqb_ℤ t tx_savepoint_name_rollback

  -- The switch on the mode of a request.
  unfoldable pub encode_payload : Result → Outcome Bytes
  encode_payload r =
      if r.mode == mode_connect
      then ok (
          write_string r.database_name
          ++ (write_string r.user
              ++ (write_string r.password
                  ++ (write_string r.zone_string ++ write_int r.time_zone_seconds))))
      else if (r.mode == mode_disconnect || r.mode == mode_reset_session)
          || r.mode == mode_start_tran
      then ok []
      else if r.mode == mode_exec_direct
      then ok (
          write_int r.update_count
          ++ (write_int r.fetch_size
              ++ (write_u8 r.statement_return_type
                  ++ (write_string r.sql
                      ++ (write_u8 r.rs_properties
                          ++ (write_short r.query_timeout ++ write_u8 r.generate_keys))))))
      else if r.mode == mode_prepare
      then ok (
          write_u8 r.statement_return_type
          ++ (write_string r.sql ++ (write_u8 r.rs_properties ++ write_u8 r.generate_keys)))
      else if r.mode == mode_execute
      then (write_params r.param_meta r.param_values >>= λ params. ok (
          write_int r.update_count
          ++ (write_int r.fetch_size
              ++ (write_long r.statement_id
                  ++ (write_u8 r.rs_properties ++ (write_short r.query_timeout ++ params))))))
      else if (r.mode == mode_batch_exec_direct || r.mode == mode_batch_execute)
          || r.mode == mode_set_session_attr
      then encode_batch r
      else if r.mode == mode_end_tran
      then ok (
          write_int r.tx_type
          ++ (if is_savepoint_end r.tx_type then write_string r.savepoint_name else []))
      else if r.mode == mode_close_result
      then ok (write_long r.id)
      else if r.mode == mode_free_stmt
      then ok (write_long r.statement_id)
      else if r.mode == mode_sql_cancel
      then ok (
          write_int r.database_id
          ++ (write_long r.session_id
              ++ (write_long r.statement_id ++ (write_int r.random_id ++ write_string r.sql))))
      else if r.mode == mode_set_connect_attr
      then ok (
          write_int r.connect_attr
          ++ (if eqb_ℤ r.connect_attr connect_attr_savepoint_name
              then write_string r.savepoint_name
              else []))
      else if r.mode == mode_request_data
      then ok (write_long r.id ++ (write_int r.update_count ++ write_int r.fetch_size))
      else if r.mode == mode_update_result
      then (write_metadata r.meta >>= λ m. write_simple_rows r.meta r.batch_rows >>= λ rows.
          ok (write_long r.id ++ (write_int r.action_type ++ (m ++ rows))))
      else if r.mode == mode_get_session_attr
      then ok (write_u8 r.statement_return_type)
      else err (cannot_encode r.mode)
