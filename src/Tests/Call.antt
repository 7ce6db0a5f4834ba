-- ===== src/Tests/Call.antt =====
-- The theorems on column types, OUT parameters and responses, at small inputs.
use go_hsql.Base.{◌≡◌, refl, inl, inr, some, List, [], ◌∷◌, arith, ◌==◌, if◌then◌else◌}
use go_hsql.Base.Int.{pos}
use go_hsql.Proto.Const.{mode_set_connect_attr, mode_prepare, mode_prepare_ack, mode_data}
use go_hsql.Proto.Result.{Result, RowSet, new_result}
use go_hsql.Proto.Result.Decode.{decode_result, decode_body, finish_decode}
use go_hsql.Conn.{Conn, new_conn, Reply, answered, background, exec_ctx, settle}
use go_hsql.Conn.Rows.{is_rows_result}
use go_hsql.Conn.Cursor.{new_updatable_rows}
use go_hsql.Conn.Cursor.Query.{
  stmt_of, is_updatable, has_extension, cursor_of, opened_or, after_execute, after_prepare,
  query_updatable,
}
use go_hsql.Conn.Cursor.Query.Opened.{IsOpened, query_updatable-IsOpened}
use go_hsql.Proto.Metadata.{Metadata, empty_metadata}
use go_hsql.Conn.Out.{OutHost, cannot_assign}
use go_hsql.Wire.{response, receive}
use go_hsql.Wire.Receive.{Frame, IsFrame, transmission, receive-transmission}

abbrev plain_host : OutHost
plain_host = record {
  int64_of_float = λ x. pos x;
  float_of_int64 = λ n. 0;
  float32_of = λ x. x;
  text_of_bytes = λ b. b;
  bytes_of_text = λ s. s;
  sprint = λ v. [];
  scan = λ v. inl cannot_assign;
}

-- Two frames of a message without a payload.
abbrev done_frame : Frame
done_frame = record {
  mode = mode_set_connect_attr;
  payload = [];
  result = new_result mode_set_connect_attr;
}

done_frame-IsFrame : IsFrame done_frame
unfolding decode_result decode_body finish_decode
done_frame-IsFrame = record { not_none = ground arith; fits = omega arith; decodes = refl }

receive-transmission_example :
    receive (transmission (done_frame ∷ done_frame ∷ []) (9 ∷ []))
    ≡ response
        (record {
          main = new_result mode_set_connect_attr;
          chained = new_result mode_set_connect_attr ∷ [];
        })
        (9 ∷ [])
receive-transmission_example =
    receive-transmission done_frame (done_frame ∷ []) (done_frame-IsFrame, (done_frame-IsFrame, tt))
      (9 ∷ [])

-- A server that opens a cursor of one row.
abbrev cursor_metadata : Metadata
cursor_metadata = record empty_metadata { extended_count = pos 1 }

abbrev one_row : RowSet
one_row = record { id = pos 4; size = pos 1; current_offset = pos 0; rows = [] ∷ [] }

abbrev acknowledgement : Result
acknowledgement = record (new_result mode_prepare_ack) { statement_id = pos 3; rs_properties = 8 }

abbrev scrolling : List Result → Result → Reply
scrolling requests req = answered (record {
  main =
      if req.mode == mode_prepare
      then acknowledgement
      else record (new_result mode_data) { meta = some cursor_metadata; row_set = some one_row };
  chained = [];
})

abbrev queried : Conn
queried = (query_updatable scrolling background [] [] (new_conn (pos 0))).1

query_succeeds :
    query_updatable scrolling background [] [] (new_conn (pos 0))
    ≡ (inr (new_updatable_rows cursor_metadata one_row, stmt_of acknowledgement), queried)
unfolding query_updatable after_prepare after_execute opened_or cursor_of has_extension is_updatable
    is_rows_result exec_ctx settle
query_succeeds = refl

query_updatable-IsOpened_example :
    IsOpened (new_updatable_rows cursor_metadata one_row) (stmt_of acknowledgement)
query_updatable-IsOpened_example =
    query_updatable-IsOpened scrolling background [] [] (new_conn (pos 0)) queried
      (new_updatable_rows cursor_metadata one_row) (stmt_of acknowledgement) query_succeeds
