-- ===== src/Tests/Wire.antt =====
-- internal/proto: the theorems on frames, values, metadata and messages, at concrete inputs.
use go_hsql.Base.{◌<◌, ◌≡◌, refl, inl, true, false, some, List, [], ◌∷◌, ◌++◌, arith, All}
use go_hsql.Base.Int.{pos, negsuc}
use go_hsql.Base.Words.{Bytes}
use go_hsql.Proto.Const.{mode_set_session_attr, sql_integer, sql_boolean, sql_array}
use go_hsql.Proto.Errors.{Error, short_buffer, invalid_frame_length, ok}
use go_hsql.Proto.BigInt.{big_int_to_twos_complement, twos_complement_to_big_int}
use go_hsql.Proto.BigInt.RoundTrip.{twos_complement_to_big_int-big_int_to_twos_complement}
use go_hsql.Proto.Utf8.{Text, IsRune, encode_modified_utf8, decode_modified_utf8, decode_loop}
use go_hsql.Proto.Utf8.RoundTrip.{
  decode_modified_utf8-encode_modified_utf8, encode_modified_utf8_bytes, decode_loop_fuel,
}
use go_hsql.Proto.RowOutput.{write_int, write_bytes}
use go_hsql.Proto.RowInput.{
  RowInput, new_row_input, read_u8, read_bool, read_short, read_int, read_long, read_double,
  read_bytes, read_string, read_decimal,
}
use go_hsql.Proto.RowInput.Sticky.{failed, reads_after_error, IsShort, bytes_field, reads-IsShort}
use go_hsql.Proto.Frame.{Stream, got, write_frame, read_frame}
use go_hsql.Proto.Frame.RoundTrip.{
  read_frame-write_frame, read_frame_truncated, read_frame_bad_length,
}
use go_hsql.Proto.Types.Kind.{ColumnType, simple_type, kind_of}
use go_hsql.Proto.Types.Value.{Value, null, int64, bool, array_value, nil, cons, size}
use go_hsql.Proto.Types.Coerce.{Host}
use go_hsql.Proto.Types.Decimal.{parse_decimal, format_decimal}
use go_hsql.Proto.Types.Decimal.RoundTrip.{parse_decimal-format_decimal}
use go_hsql.Proto.Types.Write.{write_value}
use go_hsql.Proto.Types.Read.{read_value, read_value_with, read_value_at}
use go_hsql.Proto.Types.Read.Fuel.{read_value_fuel}
use go_hsql.Proto.Types.Sends.{
  Sends, scalar, arrays, missing, integers, booleans, no_more, one_more,
}
use go_hsql.Proto.Types.RoundTrip.{read_value-write_value}
use go_hsql.Proto.Metadata.{meta_simple_result}
use go_hsql.Proto.Metadata.RoundTrip.Wire.{IsWireMetadata, simple, types_metadata, ReadsBack}
use go_hsql.Proto.Metadata.RoundTrip.{read_metadata-write_metadata}
use go_hsql.Proto.Result.{empty_row_set}
use go_hsql.Proto.Result.Encode.{encode_payload}
use go_hsql.Proto.Result.Decode.{decode_result}
use go_hsql.Proto.Result.RoundTrip.{
  no_cells, cell, SendsRows, no_rows, row, batch_message, decode_result-encode_payload,
}

-- A host that the inputs below ask nothing of.
abbrev silent_host : Host
silent_host = record {
  sprint = λ v. [];
  int64_of_float = λ x. pos 0;
  float_of_int64 = λ n. 0;
  float_of_float32 = λ x. x;
  text_of_bytes = λ b. b;
  bytes_of_text = λ s. s;
}

-- INTEGER ARRAY, and its value {7, nil}.
abbrev array_type : ColumnType
array_type = record { code = sql_array; base_code = sql_integer; precision = pos 0; scale = pos 0 }

abbrev two_elements : Value
two_elements = array_value (cons (int64 (pos 7)) (cons null nil)) sql_integer

two_elements-Sends : Sends array_type two_elements two_elements
unfolding kind_of size
two_elements-Sends =
    arrays refl (omega arith) (one_more (integers refl (omega arith)) (one_more missing no_more))

read_value-write_value_example :
    (b : Bytes) × (write_value silent_host array_type two_elements ≡ ok b)
    × ((rest : Bytes)
        → read_value array_type (new_row_input (b ++ rest)) ≡ (two_elements, new_row_input rest))
read_value-write_value_example =
    read_value-write_value silent_host array_type two_elements two_elements two_elements-Sends

abbrev int_bool_types : List ColumnType
int_bool_types = simple_type sql_integer ∷ simple_type sql_boolean ∷ []

int_bool-IsWireMetadata : IsWireMetadata (types_metadata meta_simple_result int_bool_types)
int_bool-IsWireMetadata = simple int_bool_types (omega arith) (
  (
    record {
      code_fits = omega arith;
      base_fits = omega arith;
      base_zero = λ h. refl;
      precision_fits = omega arith;
      scale_fits = omega arith;
    },
    refl,
  ),
  (
    (
      record {
        code_fits = omega arith;
        base_fits = omega arith;
        base_zero = λ h. refl;
        precision_fits = omega arith;
        scale_fits = omega arith;
      },
      refl,
    ),
    tt,
  ),
)

read_metadata-write_metadata_example : ReadsBack (types_metadata meta_simple_result int_bool_types)
read_metadata-write_metadata_example =
    read_metadata-write_metadata (types_metadata meta_simple_result int_bool_types)
      int_bool-IsWireMetadata

abbrev one_row : List (List Value)
one_row = (int64 (pos 5) ∷ bool true ∷ []) ∷ []

one_row-SendsRows : SendsRows int_bool_types one_row one_row
unfolding kind_of
one_row-SendsRows =
    row (cell (scalar (integers refl (omega arith))) (cell (scalar (booleans refl)) no_cells))
      no_rows

decode_result-encode_payload_example :
    (b : Bytes) × (encode_payload silent_host
        (record (batch_message mode_set_session_attr
          (pos 1)
          (pos 0)
          (pos 9)
          (pos 0)
          (types_metadata meta_simple_result int_bool_types)) { batch_rows = one_row })
      ≡ ok b)
    × (decode_result mode_set_session_attr b
        ≡ ok
            (record (batch_message mode_set_session_attr
              (pos 1)
              (pos 0)
              (pos 9)
              (pos 0)
              (types_metadata meta_simple_result int_bool_types)) {
                row_set = some (record empty_row_set { rows = one_row });
              }))
decode_result-encode_payload_example =
    decode_result-encode_payload silent_host (pos 1) (pos 0) (pos 9) (pos 0)
      (types_metadata meta_simple_result int_bool_types) one_row one_row (omega arith) (omega arith)
      (omega arith) (omega arith) int_bool-IsWireMetadata refl (omega arith) one_row-SendsRows

read_frame-write_frame_example :
    read_frame (write_frame 2 (1 ∷ 2 ∷ []) ++ 9 ∷ []) ≡ got (2, 1 ∷ 2 ∷ []) (9 ∷ [])
read_frame-write_frame_example =
    read_frame-write_frame 2 (1 ∷ 2 ∷ []) (9 ∷ []) (omega arith) (omega arith)

short_frame_lem : write_frame 2 (7 ∷ []) ≡ (2 ∷ 0 ∷ 0 ∷ 0 ∷ 5 ∷ []) ++ 7 ∷ []
unfolding write_frame write_int
short_frame_lem = refl

read_frame_truncated_example : (e : Error) × (read_frame (2 ∷ 0 ∷ 0 ∷ 0 ∷ 5 ∷ []) ≡ Stream.failed e)
read_frame_truncated_example =
    read_frame_truncated 2 7 (7 ∷ []) (2 ∷ 0 ∷ 0 ∷ 0 ∷ 5 ∷ []) [] (omega arith) (omega arith)
      short_frame_lem

read_frame_bad_length_example :
    read_frame (2 ∷ write_int (pos 3) ++ 1 ∷ []) ≡ Stream.failed (invalid_frame_length (pos 3) 2)
read_frame_bad_length_example =
    read_frame_bad_length 2 (pos 3) (1 ∷ []) (omega arith) (omega arith) (omega arith)

parse_decimal-format_decimal_example :
    parse_decimal (format_decimal (negsuc 1234) (pos 2)) (pos 2)
    ≡ inl (record { unscaled = negsuc 1234; scale = pos 2 })
parse_decimal-format_decimal_example = parse_decimal-format_decimal (negsuc 1234) 2

twos_complement_to_big_int-big_int_to_twos_complement_example :
    twos_complement_to_big_int (big_int_to_twos_complement (negsuc 127)) ≡ negsuc 127
twos_complement_to_big_int-big_int_to_twos_complement_example =
    twos_complement_to_big_int-big_int_to_twos_complement (negsuc 127)

-- "é€" and a zero code point.
abbrev three_runes : Text
three_runes = 233 ∷ 8364 ∷ 0 ∷ []

three_runes-IsRune : All IsRune three_runes
three_runes-IsRune = ground arith

decode_modified_utf8-encode_modified_utf8_example :
    decode_modified_utf8 (encode_modified_utf8 three_runes) ≡ three_runes
decode_modified_utf8-encode_modified_utf8_example =
    decode_modified_utf8-encode_modified_utf8 three_runes three_runes-IsRune

encode_modified_utf8_bytes_example :
    All (λ c. (0 < c) × (c < 256)) (encode_modified_utf8 three_runes)
encode_modified_utf8_bytes_example = encode_modified_utf8_bytes three_runes three_runes-IsRune

decode_loop_fuel_example : decode_loop 3 (195 ∷ 169 ∷ []) ≡ decode_loop 9 (195 ∷ 169 ∷ [])
decode_loop_fuel_example = decode_loop_fuel 3 9 (195 ∷ 169 ∷ []) (omega arith) (omega arith)

read_value_fuel_example :
    (read_value array_type (new_row_input [])
      ≡ read_value_with array_type (read_value (simple_type sql_integer)) (new_row_input []))
    × (read_value_at 5 array_type (new_row_input []) ≡ read_value array_type (new_row_input []))
read_value_fuel_example = read_value_fuel array_type 2 (new_row_input [])

reads-IsShort_example : IsShort (bytes_field (7 ∷ [])) (new_row_input (0 ∷ 0 ∷ []))
unfolding write_bytes write_int
reads-IsShort_example = reads-IsShort (bytes_field (7 ∷ [])) 2 (omega arith) (omega arith)

abbrev broken_input : RowInput
broken_input = failed (1 ∷ 2 ∷ []) short_buffer

reads_after_error_example :
    (read_u8 broken_input ≡ (0, broken_input))
    × (read_bool broken_input ≡ (false, broken_input))
    × (read_short broken_input ≡ (pos 0, broken_input))
    × (read_int broken_input ≡ (pos 0, broken_input))
    × (read_long broken_input ≡ (pos 0, broken_input))
    × (read_double broken_input ≡ (0, broken_input))
    × (read_bytes broken_input ≡ ([], broken_input))
    × (read_string broken_input ≡ ([], broken_input))
    × (read_decimal broken_input ≡ ((pos 0, pos 0), broken_input))
reads_after_error_example = reads_after_error (1 ∷ 2 ∷ []) short_buffer
