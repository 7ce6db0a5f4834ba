-- ===== src/Tests/Message.antt =====
-- The theorems on intervals, session attribute requests, arguments and batches, at concrete inputs.
use go_hsql.Base.{ℕ, ◌+◌, ◌*◌, ◌<◌, ◌≡◌, false, none, some, List, [], ◌∷◌, arith}
use go_hsql.Base.Int.{pos, negsuc}
use go_hsql.Base.Words.{Bytes}
use go_hsql.Proto.Const.{mode_set_session_attr, attr_autocommit}
use go_hsql.Proto.Errors.{ok}
use go_hsql.Proto.Types.Value.{Value, int64, string, null}
use go_hsql.Proto.Types.Coerce.{Host}
use go_hsql.Proto.Types.Interval.{parts_of}
use go_hsql.Proto.Types.Interval.Clock.{clock_parts, parts_of_lem}
use go_hsql.Proto.Result.{RowSet, empty_row_set}
use go_hsql.Proto.Result.Encode.{encode_payload}
use go_hsql.Proto.Result.Decode.{decode_result}
use go_hsql.Proto.Result.SessionAttr.{session_attr_metadata, new_session_attr_request}
use go_hsql.Proto.Result.RoundTrip.{batch_message}
use go_hsql.Proto.Result.RoundTrip.Attribute.{attr_row, decode_result-new_session_attr_request}
use go_hsql.Conn.Stmt.{named_to_values, values_to_named}
use go_hsql.Conn.Stmt.Arguments.{named_to_values-values_to_named}

abbrev plain_host : Host
plain_host = record {
  sprint = λ v. [];
  int64_of_float = λ x. pos 0;
  float_of_int64 = λ n. 0;
  float_of_float32 = λ x. x;
  text_of_bytes = λ b. b;
  bytes_of_text = λ s. s;
}

parts_of_lem_example :
    (d : ℕ) × (h : ℕ) × (m : ℕ) × (s : ℕ) × (parts_of (pos 93784) ≡ clock_parts d h m s)
    × (((d * 24 + h) * 60 + m) * 60 + s ≡ 93784)
    × (h < 24)
    × (m < 60)
    × (s < 60)
parts_of_lem_example = parts_of_lem 93784

-- SET AUTOCOMMIT FALSE as a session attribute.
decode_result-new_session_attr_request_example :
    (bs : Bytes) × (encode_payload plain_host
        (new_session_attr_request attr_autocommit none (some false) none)
      ≡ ok bs)
    × (decode_result mode_set_session_attr bs
        ≡ ok
            (record (batch_message mode_set_session_attr
              (pos 0)
              (pos 0)
              (pos 0)
              (pos 0)
              session_attr_metadata) {
                row_set = some (record empty_row_set {
                  rows = attr_row attr_autocommit none (some false) none ∷ [];
                });
              }))
decode_result-new_session_attr_request_example =
    decode_result-new_session_attr_request plain_host attr_autocommit none (some false) none
      (omega arith) tt tt

abbrev two_values : List Value
two_values = int64 (pos 4) ∷ string (97 ∷ []) ∷ []

named_to_values-values_to_named_example : named_to_values (values_to_named two_values) ≡ two_values
named_to_values-values_to_named_example = named_to_values-values_to_named two_values

abbrev two_counts : RowSet
two_counts = record empty_row_set {
  rows = (int64 (pos 3) ∷ int64 (pos 9) ∷ []) ∷ (null ∷ []) ∷ (int64 (negsuc 1) ∷ []) ∷ [];
}
