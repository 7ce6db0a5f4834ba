-- ===== src/Proto/Result/RoundTrip/Attribute.antt =====
-- internal/proto/result.go NewSessionAttrRequest: what a server that reads the message's layout sees.
use go_hsql.Base.{◌≡◌, refl, Bool, Option, none, some, List, [], ◌∷◌, arith}
use go_hsql.Base.Int.{ℤ, pos}
use go_hsql.Base.Words.{Bytes, IsInt}
use go_hsql.Proto.Const.{mode_set_session_attr, sql_integer, sql_varchar, sql_boolean}
use go_hsql.Proto.Utf8.{Text, encode_modified_utf8}
use go_hsql.Proto.Errors.{ok}
use go_hsql.Proto.Types.Kind.{ColumnType, simple_type, kind_of}
use go_hsql.Proto.Types.Value.{Value, int64, bool, string}
use go_hsql.Proto.Types.Coerce.{Host}
use go_hsql.Proto.Types.Sends.{Sends, scalar, missing, integers, booleans, texts}
use go_hsql.Proto.Metadata.RoundTrip.Wire.{IsWireMetadata, visible}
use go_hsql.Proto.Metadata.RoundTrip.Parts.{IsColumnType, IsWireText, IsWireColumn}
use go_hsql.Proto.Metadata.Read.{column_of}
use go_hsql.Proto.Result.{empty_row_set}
use go_hsql.Proto.Result.Encode.{encode_payload}
use go_hsql.Proto.Result.Decode.{decode_result}
use go_hsql.Proto.Result.SessionAttr.{
  session_attr_types, session_attr_metadata, given, new_session_attr_request,
}
use go_hsql.Proto.Result.RoundTrip.{
  SendsRow, no_cells, cell, no_rows, row, batch_message, decode_result-encode_payload,
}

-- What holds of a value where it is given.
abbrev pub IfGiven : {A : Type 0} → (A → Type 0) → Option A → Type 0
IfGiven P none = Unit
IfGiven P (some a) = P a

given-Sends :
    {A : Type 0} (t : ColumnType) (f : A → Value) (P : A → Type 0) (o : Option A)
    → ((a : A) → P a → Sends t (f a) (f a))
    → IfGiven P o
    → Sends t (given f o) (given f o)
unfolding given
given-Sends t f P none sends h = scalar missing
given-Sends t f P (some a) sends h = sends a h

abbrev pub attr_row : ℤ → Option ℤ → Option Bool → Option Text → List Value
attr_row attr n b s = int64 attr ∷ given int64 n ∷ given bool b ∷ given string s ∷ []

any_given : (b : Option Bool) → IfGiven {A = Bool} (λ a. Unit) b
any_given none = tt
any_given (some a) = tt

attr_row-SendsRow :
    (attr : ℤ) (n : Option ℤ) (b : Option Bool) (s : Option Text)
    → IsInt 32 attr
    → IfGiven (IsInt 32) n
    → IfGiven IsWireText s
    → SendsRow session_attr_types (attr_row attr n b s) (attr_row attr n b s)
unfolding kind_of
attr_row-SendsRow attr n b s ha hn hs = cell (scalar (integers refl ha)) (
    cell
      (given-Sends (simple_type sql_integer) int64 (IsInt 32) n (λ a h. scalar (integers refl h))
        hn)
      (cell
        (given-Sends (simple_type sql_boolean) bool (λ a. Unit) b (λ a h. scalar (booleans refl))
          (any_given b))
        (cell
          (given-Sends (simple_type sql_varchar) string IsWireText s
            (λ a h. scalar (texts refl h.0 h.1)) hs)
          no_cells)))

empty_fits : IsWireText []
unfolding encode_modified_utf8
empty_fits = (tt, omega arith)

column_fits : (t : ColumnType) → IsWireColumn (column_of t [] 0)
column_fits t = record {
  label_fits = empty_fits;
  catalog_fits = empty_fits;
  schema_fits = empty_fits;
  table_fits = empty_fits;
  name_fits = empty_fits;
  attrs_fits = omega arith;
}

type_fits : (code : ℤ) → IsInt 16 code → IsColumnType (simple_type code)
type_fits code h = record {
  code_fits = h;
  base_fits = omega arith;
  base_zero = λ e. refl;
  precision_fits = omega arith;
  scale_fits = omega arith;
}

session_attr-IsWireMetadata : IsWireMetadata session_attr_metadata
session_attr-IsWireMetadata =
    visible session_attr_metadata.columns (omega arith)
      (
        column_fits (simple_type sql_integer),
        (
          column_fits (simple_type sql_integer),
          (column_fits (simple_type sql_boolean), (column_fits (simple_type sql_varchar), tt)),
        ),
      )
      (
        type_fits sql_integer (omega arith),
        (
          type_fits sql_integer (omega arith),
          (type_fits sql_boolean (omega arith), (type_fits sql_varchar (omega arith), tt)),
        ),
      )

-- A request for a session attribute, whose id and integer are int32s and whose text fits the wire,
-- is encoded without an error, and who decodes the bytes finds one row: the attribute's id and the
-- integer, the boolean and the text that were given, nil for those that were not.
pub decode_result-new_session_attr_request :
    (host : Host) (attr : ℤ) (n : Option ℤ) (b : Option Bool) (s : Option Text)
    → IsInt 32 attr
    → IfGiven (IsInt 32) n
    → IfGiven IsWireText s
    → (bs : Bytes) × (encode_payload host (new_session_attr_request attr n b s) ≡ ok bs)
      × (decode_result mode_set_session_attr bs
          ≡ ok
              (record (batch_message mode_set_session_attr
                (pos 0)
                (pos 0)
                (pos 0)
                (pos 0)
                session_attr_metadata) {
                  row_set = some (record empty_row_set { rows = attr_row attr n b s ∷ [] });
                }))
unfolding new_session_attr_request
decode_result-new_session_attr_request host attr n b s ha hn hs =
    decode_result-encode_payload host (pos 0) (pos 0) (pos 0) (pos 0) session_attr_metadata
      (attr_row attr n b s ∷ []) (attr_row attr n b s ∷ []) (omega arith) (omega arith)
      (omega arith) (omega arith) session_attr-IsWireMetadata refl (omega arith)
      (row (attr_row-SendsRow attr n b s ha hn hs) no_rows)
