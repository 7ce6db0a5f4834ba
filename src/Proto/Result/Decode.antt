-- ===== src/Proto/Result/Decode.antt =====
-- internal/proto/result.go DecodeResult, readRowSet and readRowSetSimple.
use go_hsql.Base.{ℕ, zero, suc, ◌||◌, none, some, List, [], ◌∷◌, ◌==◌, if◌then◌else◌, length}
use go_hsql.Base.Int.{ℤ, pos, negsuc}
use go_hsql.Base.Words.{Bytes}
use go_hsql.Proto.Const.{
  mode_update_count, mode_error, mode_data, mode_prepare_ack, mode_set_session_attr,
  mode_get_session_attr, mode_connect_acknowledge, mode_data_rows, mode_data_head,
  mode_batch_exec_response, mode_warning, mode_generated, mode_set_connect_attr, mode_call_response,
}
use go_hsql.Proto.Errors.{cannot_decode, decoding, Outcome, ok, err, panic}
use go_hsql.Proto.RowInput.{
  RowInput, Reader, pure, ◌>>=◌, new_row_input, read_u8, read_int, read_short, read_long,
  read_string,
}
use go_hsql.Proto.Types.Kind.{ColumnType}
use go_hsql.Proto.Types.Value.{Value}
use go_hsql.Proto.Types.Read.{read_value}
use go_hsql.Proto.Metadata.{Metadata}
use go_hsql.Proto.Metadata.Read.{read_metadata, ◌>=>◌}
use go_hsql.Proto.Result.{RowSet, empty_row_set, Result, new_result}

-- `for j := range types { row[j] = in.ReadValue(types[j]) }`.
unfoldable pub read_row : List ColumnType → Reader (List Value)
read_row [] = pure []
read_row (t ∷ ts) = do v ← read_value t; vs ← read_row ts; pure (v ∷ vs)

-- The end of a round of the loop over the rows, which stops behind the first error.
unfoldable pub next_row :
    Reader (List (List Value)) → List Value × RowInput → List (List Value) × RowInput
next_row more (row, s) = elim s.err [
  | some e ↦ (row ∷ [], s)
  | none ↦ let (rows, t) = more s in (row ∷ rows, t)
]

unfoldable pub read_rows : ℕ → List ColumnType → Reader (List (List Value))
unfolding next_row
read_rows zero ts r = ([], r)
read_rows (suc n) ts r = next_row (read_rows n ts) (read_row ts r)

-- The rows behind their number: none where it is negative or the input is broken.
unfoldable pub read_counted_rows : List ColumnType → ℤ × RowInput → List (List Value) × RowInput
read_counted_rows ts (negsuc n, r) = ([], r)
read_counted_rows ts (pos n, r) = elim r.err [ some e ↦ ([], r) | none ↦ read_rows n ts r ]

unfoldable pub read_row_set_simple : Metadata → Reader RowSet
unfolding read_counted_rows
read_row_set_simple m r =
    let (rows, s) = read_counted_rows m.types (read_int r) in
    (record empty_row_set { rows = rows }, s)

unfoldable pub read_row_set : Metadata → Reader RowSet
unfolding read_counted_rows
read_row_set m = do
  id ← read_long
  size ← read_int
  offset ← read_int
  rows ← (λ r. read_counted_rows m.types (read_int r))
  pure (record { id = id; size = size; current_offset = offset; rows = rows })

unfoldable pub decode_acknowledge : Reader Result
decode_acknowledge = do
  database_id ← read_int
  session_id ← read_long
  name ← read_string
  props ← read_string
  random_id ← read_int
  pure (record (new_result mode_connect_acknowledge) {
    database_id = database_id;
    session_id = session_id;
    database_name = name;
    client_props = props;
    random_id = random_id;
  })

unfoldable pub decode_error : ℕ → Reader Result
decode_error mode = do
  message ← read_string
  state ← read_string
  code ← read_int
  pure (record (new_result mode) { message = message; sql_state = state; error_code = code })

unfoldable pub decode_update_count : Reader Result
decode_update_count = do
  n ← read_int
  pure (record (new_result mode_update_count) { update_count = n })

-- The fields in front of the metadata, case by case.
unfoldable pub data_fields : ℕ → Reader Result
data_fields mode = do
  id ← read_long
  n ← read_int
  fetch ← read_int
  props ← read_u8
  pure (record (new_result mode) {
    id = id;
    update_count = n;
    fetch_size = fetch;
    rs_properties = props;
  })

unfoldable pub prepare_fields : Reader Result
prepare_fields = do
  kind ← read_u8
  id ← read_long
  props ← read_u8
  pure (record (new_result mode_prepare_ack) {
    statement_return_type = kind;
    statement_id = id;
    rs_properties = props;
  })

unfoldable pub call_fields : Reader Result
call_fields = do
  n ← read_int
  fetch ← read_int
  id ← read_long
  kind ← read_u8
  props ← read_u8
  pure (record (new_result mode_call_response) {
    update_count = n;
    fetch_size = fetch;
    statement_id = id;
    statement_return_type = kind;
    rs_properties = props;
  })

unfoldable pub batch_fields : ℕ → Reader Result
batch_fields mode = do
  n ← read_int
  fetch ← read_int
  id ← read_long
  timeout ← read_short
  pure (record (new_result mode) {
    update_count = n;
    fetch_size = fetch;
    statement_id = id;
    query_timeout = timeout;
  })

-- r.Meta and r.RowSet, behind the fields.
unfoldable pub with_rows :
    (Metadata → Reader RowSet) → Result × RowInput → Outcome (Result × RowInput)
with_rows read (r, s) = read_metadata s >=> λ m t.
    (let (rs, u) = read m t in ok (record r { meta = some m; row_set = some rs }, u))

unfoldable pub with_metadata : Result × RowInput → Outcome (Result × RowInput)
with_metadata (r, s) = read_metadata s >=> λ m t.
    read_metadata t >=> λ p u. ok (record r { meta = some m; param_meta = some p }, u)

-- The switch on the mode of a response.
unfoldable pub decode_body : ℕ → Bytes → Outcome (Result × RowInput)
decode_body mode payload =
    let r = new_row_input payload in
    if mode == mode_connect_acknowledge
    then ok (decode_acknowledge r)
    else if mode == mode_error || mode == mode_warning
    then ok (decode_error mode r)
    else if mode == mode_update_count
    then ok (decode_update_count r)
    else if (mode == mode_data || mode == mode_data_head) || mode == mode_generated
    then with_rows read_row_set (data_fields mode r)
    else if mode == mode_data_rows
    then with_rows read_row_set (new_result mode, r)
    else if mode == mode_prepare_ack
    then with_metadata (prepare_fields r)
    else if mode == mode_call_response
    then with_rows read_row_set_simple (call_fields r)
    else if mode == mode_batch_exec_response
    then with_rows read_row_set_simple (batch_fields mode r)
    else if mode == mode_set_session_attr
    then (if length payload == 0
        then ok (new_result mode, r)
        else with_rows read_row_set_simple (batch_fields mode r))
    else if mode == mode_set_connect_attr || mode == mode_get_session_attr
    then ok (new_result mode, r)
    else err (cannot_decode mode)

-- The result, unless the input has broken.
unfoldable pub finish_decode : ℕ → Outcome (Result × RowInput) → Outcome Result
finish_decode mode (ok (r, s)) = elim s.err [ none ↦ ok r | some e ↦ err (decoding mode e) ]
finish_decode mode (err e) = err e
finish_decode mode panic = panic

unfoldable pub decode_result : ℕ → Bytes → Outcome Result
unfolding finish_decode
decode_result mode payload = finish_decode mode (decode_body mode payload)
