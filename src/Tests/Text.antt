-- ===== src/Tests/Text.antt =====
-- The theorems on the text of arrays, the DSN and the maps of names, at small inputs.
use go_hsql.Proto.Const.{sql_array, sql_integer}
use go_hsql.Proto.Types.Kind.{ColumnType, simple_type, kind_of}
use go_hsql.Proto.RowInput.{new_row_input, read_u8, read_int}
use go_hsql.Proto.Types.Read.{
  read_value, read_value_at, read_value_with, read_kind, read_array, read_array_of, read_elements,
}
use go_hsql.Conn.ColumnTypes.{GoType, any_type, scan_type}
use go_hsql.Lob.Fetch.{LobRequest, fetched, and_then}
use go_hsql.Lob.Fetch.Content.{ready}
use go_hsql.Lob.Resolve.{resolve_value, resolve_elements}
use go_hsql.Lob.Resolve.Types.{IsOf, resolve_value-scan_type}
use go_hsql.Base.{
  ◌⊎◌, Option, ℕ, ◌≡◌, refl, ap, ◌∙◌, inl, inr, true, false, ◌||◌, Option, none, some, List, [],
  ◌∷◌, ◌++◌, arith, ◌==◌, if◌then◌else◌, Bool-cases, codes, eqb_text,
}
use go_hsql.Base.Int.{pos, negsuc}
use go_hsql.Base.Words.{Bytes}
use go_hsql.Proto.Utf8.{Text}
use go_hsql.Proto.Types.Decimal.{is_space}
use go_hsql.Proto.Types.Value.{Value, Values, nil, cons, null, int64, string, bytes}
use go_hsql.Conn.Arrays.{ArrayHost, encode_array_text, parse_array_elements}
use go_hsql.Conn.Arrays.Literals.{IsBody, ends, plain, escape, IsQuoting, IsBareToken}
use go_hsql.Conn.Arrays.Elements.{AreFlat, IsFlat, is_flat, elements_of}
use go_hsql.Conn.Arrays.RoundTrip.{parse_array_elements-encode_array_text}
use go_hsql.Config.Properties.{lookup, parse_server_properties, lookup_tls_config}
use go_hsql.Config.Properties.Parse.{print_properties, last_value, lookup-parse_server_properties}
use go_hsql.Config.Dsn.{
  Url, Config, parse_dsn, config_of_url, or_error, or_default, to_lower, scheme_tls, port_of,
  user_of, without_slash, database_of, offset_of, fetch_size_of, registered, tls_of, ◌>>=◌,
}
use go_hsql.Config.Dsn.Defaults.{IsConfig, parse_dsn-IsConfig}

-- A Quote that escapes quotes and backslashes only, and what undoes it.
unfoldable escaped : Text → Text
escaped [] = []
escaped (c ∷ s) = if c == 34 || c == 92 then 92 ∷ c ∷ escaped s else c ∷ escaped s

unfoldable undo : Text → Text
undo [] = []
undo (c ∷ []) = if c == 34 then [] else c ∷ []
undo (c ∷ d ∷ s) =
    let one = undo (d ∷ s) in let two = undo s in if c == 92 then d ∷ two else c ∷ one

unfoldable unquoted : Text → Option Text
unquoted [] = none
unquoted (c ∷ s) = some (undo s)

undo-plain :
    (c : ℕ) → (s : Text) → (c == 34) ≡ false → (c == 92) ≡ false → undo (c ∷ s) ≡ c ∷ undo s
unfolding undo
undo-plain c [] not_quote not_escape = rw (not_quote) refl
undo-plain c (d ∷ s) not_quote not_escape = rw (not_escape) refl

undo-escape : (c : ℕ) → (s : Text) → undo (92 ∷ c ∷ s) ≡ c ∷ undo s
unfolding undo
undo-escape c s = refl

undo_end : undo (34 ∷ []) ≡ []
unfolding undo
undo_end = refl

undo-escaped : (s : Text) → undo (escaped s ++ (34 ∷ [])) ≡ s
unfolding escaped
undo-escaped [] = undo_end
undo-escaped (c ∷ s) = elim (Bool-cases (c == 34 || c == 92)) [
  | inl e ↦ rw (e) (undo-escape c (escaped s ++ (34 ∷ [])) ∙ ap (λ t. c ∷ t) (undo-escaped s))
  | inr e ↦ rw (e) (
      undo-plain c (escaped s ++ (34 ∷ [])) (ground arith) (ground arith)
      ∙ ap (λ t. c ∷ t) (undo-escaped s))
]

escaped-IsBody : (s : Text) → IsBody (escaped s)
unfolding escaped
escaped-IsBody [] = ends
escaped-IsBody (c ∷ s) = elim (Bool-cases (c == 34 || c == 92)) [
  | inl e ↦ rw (e) (escape (escaped-IsBody s))
  | inr e ↦ rw (e) (plain (ground arith) (ground arith) (escaped-IsBody s))
]

abbrev plain_host : ArrayHost
plain_host = record {
  quote = λ s. 34 ∷ (escaped s ++ (34 ∷ []));
  unquote = unquoted;
  format_float = λ x. 49 ∷ [];
  format_time = λ t. [];
  sprint = λ v. [];
  parse_int = λ s. none;
  parse_uint = λ s. none;
  parse_float = λ s. none;
  parse_bool = λ s. none;
  parse_time = λ s. none;
  float32_of = λ x. x;
  bytes_of_text = λ s. s;
}

one-IsBareToken : IsBareToken (49 ∷ [])
unfolding is_space eqb_text
one-IsBareToken = (omega arith, refl, ((refl, refl, refl), tt))

plain_host-IsQuoting : IsQuoting plain_host
unfolding unquoted
plain_host-IsQuoting = record {
  is_literal = λ s. (escaped s, refl, escaped-IsBody s);
  unquote-quote = λ s. ap some (undo-escaped s);
  float_token = λ x. one-IsBareToken;
}

-- nil, a text with a comma and a quote, a number and two bytes.
abbrev mixed : Values
mixed =
    cons null
      (cons (string (44 ∷ 34 ∷ [])) (cons (int64 (negsuc 4)) (cons (bytes (1 ∷ 255 ∷ [])) nil)))

mixed-AreFlat : AreFlat mixed
unfolding AreFlat IsFlat is_flat
mixed-AreFlat = (refl, (refl, (refl, ((refl, (omega arith, (omega arith, tt))), tt))))

parse_array_elements-encode_array_text_example :
    parse_array_elements plain_host (encode_array_text plain_host mixed)
    ≡ inr (elements_of plain_host mixed)
parse_array_elements-encode_array_text_example =
    parse_array_elements-encode_array_text plain_host plain_host-IsQuoting mixed mixed-AreFlat

-- hsqls:///db?tlsconfig=ca, with a configuration registered as ca.
abbrev secure_url : Url
secure_url = record {
  scheme = codes "hsqls";
  hostname = [];
  port = [];
  user = none;
  path = codes "/db";
  query = λ key. if eqb_text key (codes "tlsconfig") then codes "ca" else [];
}

abbrev registry : List (Text × ℕ)
registry = (codes "ca", 7) ∷ []

abbrev secure_config : Config ℕ
secure_config = record {
  host = codes "localhost";
  port = pos 9001;
  user = codes "SA";
  password = [];
  database = codes "db";
  tls = true;
  tls_config = some 7;
  tls_config_name = codes "ca";
  zone = codes "UTC";
  time_zone_seconds = pos 0;
  fetch_size = pos 0;
}

secure_parsed : parse_dsn registry (λ dsn. some secure_url) [] ≡ inr secure_config
unfolding parse_dsn config_of_url or_error or_default to_lower scheme_tls port_of user_of
    without_slash database_of offset_of fetch_size_of registered tls_of ◌>>=◌ lookup_tls_config
    lookup eqb_text
secure_parsed = refl

parse_dsn-IsConfig_example : IsConfig registry secure_config
parse_dsn-IsConfig_example =
    parse_dsn-IsConfig registry (λ dsn. some secure_url) [] secure_config secure_parsed

abbrev settings : List (Text × Text)
settings = (codes "a", codes "1") ∷ (codes "b", []) ∷ (codes "a", codes "2") ∷ []

lookup-parse_server_properties_example :
    lookup (codes "a") (parse_server_properties (print_properties settings))
    ≡ last_value (codes "a") settings none
unfolding is_space
lookup-parse_server_properties_example =
    lookup-parse_server_properties settings
      (
        ((((refl, refl), refl), tt), ((refl, refl), tt)),
        ((
          ((((refl, refl), refl), tt), tt),
          (((((refl, refl), refl), tt), ((refl, refl), tt)), tt),
        )),
      )
      (codes "a")

-- An ARRAY of INTEGER with the element 7.
abbrev array_type : ColumnType
array_type = record (simple_type sql_array) { base_code = sql_integer }

abbrev array_bytes : Bytes
array_bytes = 1 ∷ 0 ∷ 0 ∷ 0 ∷ 1 ∷ 1 ∷ 0 ∷ 0 ∷ 0 ∷ 7 ∷ []

abbrev array_text : Value
array_text = string (encode_array_text plain_host (cons (int64 (pos 7)) nil))

abbrev mute : List LobRequest → LobRequest → Option Bytes
mute sent req = none

array_resolved :
    (resolve_value mute plain_host
      (read_value array_type (new_row_input array_bytes)).0
      (ready [])).0
    ≡ fetched array_text
unfolding resolve_value resolve_elements and_then read_value read_value_at read_value_with read_kind
    read_array read_array_of read_elements read_u8 read_int kind_of
array_resolved = refl

resolve_value-scan_type_example :
    ((g : GoType) × IsOf g array_text)
    × ((scan_type sql_array ≡ any_type) ⊎ IsOf (scan_type sql_array) array_text)
resolve_value-scan_type_example =
    resolve_value-scan_type mute plain_host array_type (new_row_input array_bytes) (ready [])
      array_text array_resolved
