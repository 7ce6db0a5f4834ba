-- ===== src/Conn/Arrays.antt =====
-- array.go: the text form of ARRAY values, and the scanner that reads it. A text is its code points:
-- the bytes that the scanner tests for are ASCII, so they are code points of their own.
pub mod Literals
pub mod Elements
pub mod RoundTrip
pub mod Scan
use go_hsql.Base.{
  ℕ, zero, suc, ◌+◌, ◌/◌, ◌%◌, ◌⊎◌, inl, inr, Bool, true, false, ◌||◌, Option, none, some, List, [],
  ◌∷◌, ◌++◌, ltb, ◌==◌, if◌then◌else◌, length, codes, eqb_text,
}
use go_hsql.Base.Int.{ℤ, is_neg}
use go_hsql.Base.Words.{Bytes}
use go_hsql.Proto.Types.Decimal.{magnitude_string, magnitude, signed_text, trim_space}
use go_hsql.Proto.Utf8.{Text}
use go_hsql.Proto.Types.Value.{
  Value, Values, Time, nil, cons, null, int64, float64, bool, string, bytes, time, array_value,
}

-- What array.go uses of strconv, fmt and time; a float64 is its bit pattern. Unquote and the
-- parsers give none for an error.
pub record ArrayHost : Type 0 where
  pub quote : Text → Text
  pub unquote : Text → Option Text
  pub format_float : ℕ → Text
  pub format_time : Time → Text
  pub sprint : Value → Text
  pub parse_int : Text → Option ℤ
  pub parse_uint : Text → Option ℕ
  pub parse_float : Text → Option ℕ
  pub parse_bool : Text → Option Bool
  pub parse_time : Text → Option Time
  pub float32_of : ℕ → ℕ
  pub bytes_of_text : Text → Bytes

abbrev pub array_null_token : Text
array_null_token = codes "NULL"

-- strconv.FormatInt in base 10.
unfoldable pub format_int : ℤ → Text
format_int n = signed_text (is_neg n) (magnitude_string (magnitude n))

unfoldable pub hex_digit : ℕ → ℕ
hex_digit d = if ltb d 10 then 48 + d else 87 + d

-- hex.EncodeToString.
unfoldable pub hex_encode : Bytes → Text
unfolding hex_digit
hex_encode [] = []
hex_encode (b ∷ s) = hex_digit (b / 16) ∷ hex_digit (b % 16) ∷ hex_encode s

unfoldable pub format_bool : Bool → Text
format_bool true = codes "true"
format_bool false = codes "false"

-- strings.Join with a comma.
unfoldable pub join : List Text → Text
join [] = []
join (s ∷ []) = s
join (s ∷ t ∷ more) = s ++ (44 ∷ join (t ∷ more))

module _ (host : ArrayHost) where
  unfoldable mutual
    pub encode_array_element : Value → Text
    encode_array_element null = array_null_token
    encode_array_element (string s) = host.quote s
    encode_array_element (int64 n) = format_int n
    encode_array_element (float64 x) = host.format_float x
    encode_array_element (bool b) = format_bool b
    encode_array_element (bytes b) = hex_encode b
    encode_array_element (time t) = host.quote (host.format_time t)
    encode_array_element (array_value vs elem_code) = 91 ∷ (join (encode_elements vs) ++ (93 ∷ []))
    encode_array_element v = host.quote (host.sprint v)

    pub encode_elements : Values → List Text
    encode_elements nil = []
    encode_elements (cons v vs) = encode_array_element v ∷ encode_elements vs

  unfoldable pub encode_array_text : Values → Text
  encode_array_text vs = 91 ∷ (join (encode_elements vs) ++ (93 ∷ []))

-- arrayElem.
pub record ArrayElem : Type 0 where
  pub raw : Text
  pub quoted : Bool
  pub is_null : Bool

pub data ArrayError : Type 0 where
  malformed unterminated bad_literal : ArrayError
  bad_element : ℕ → ArrayError
  unsupported_element not_scannable bad_destination : ArrayError

abbrev pub Scanned : Type 0 → Type 0
Scanned A = ArrayError ⊎ A

-- s without its last code point, if that is a closing bracket.
unfoldable pub before_bracket : Text → Option Text
before_bracket [] = none
before_bracket (c ∷ []) = if c == 93 then some [] else none
before_bracket (c ∷ d ∷ s) = elim (before_bracket (d ∷ s)) [ none ↦ none | some t ↦ some (c ∷ t) ]

-- s[1 : len(s)-1] between the brackets.
unfoldable pub inside_brackets : Text → Option Text
unfolding before_bracket
inside_brackets [] = none
inside_brackets (c ∷ s) = let inside = before_bracket s in if c == 91 then inside else none

-- The blanks and tabs in front of an element.
unfoldable pub skip_blanks : Text → Text
skip_blanks [] = []
skip_blanks (c ∷ s) = let rest = skip_blanks s in if c == 32 || c == 9 then rest else c ∷ s

unfoldable pub put_front : Text → Option (Text × Text) → Option (Text × Text)
put_front s none = none
put_front s (some (t, rest)) = some (s ++ t, rest)

-- The body of a literal up to its closing quote, and what follows that, or none without a quote.
unfoldable pub to_quote : Text → Option (Text × Text)
unfolding put_front
to_quote [] = none
to_quote (c ∷ []) = if c == 34 then some ([], []) else none
to_quote (c ∷ d ∷ s) =
    let one = to_quote (d ∷ s) in
    let two = to_quote s in
    if c == 92
    then put_front (c ∷ d ∷ []) two
    else if c == 34
    then some ([], d ∷ s)
    else put_front (c ∷ []) one

-- What stands in front of the next comma, and behind it.
unfoldable pub to_comma : Text → Text × Text
to_comma [] = ([], [])
to_comma (c ∷ s) = let (t, rest) = to_comma s in if c == 44 then ([], s) else (c ∷ t, rest)

unfoldable pub bare_element : Text → ArrayElem
bare_element token =
    if eqb_text token array_null_token
    then record { raw = []; quoted = false; is_null = true }
    else record { raw = token; quoted = false; is_null = false }

abbrev pub quoted_element : Text → ArrayElem
quoted_element s = record { raw = s; quoted = true; is_null = false }

-- `i++` past the comma that follows a literal.
abbrev pub past_comma : Text → Text
past_comma s = (to_comma s).1

-- strconv.Unquote's result, and what follows the closing quote.
unfoldable pub literal_of : Text → Option Text → Scanned (ArrayElem × Text)
unfolding to_comma
literal_of rest none = inl bad_literal
literal_of rest (some s) = inr (quoted_element s, past_comma rest)

unfoldable pub bare_of : Text × Text → Scanned (ArrayElem × Text)
unfolding bare_element
bare_of (token, rest) = inr (bare_element (trim_space token), rest)

unfoldable pub with_element : ArrayElem → Scanned (List ArrayElem) → Scanned (List ArrayElem)
with_element elem (inl e) = inl e
with_element elem (inr elems) = inr (elem ∷ elems)

-- What follows a turn of the loop, which goes on with the rest.
unfoldable pub more_elements :
    (Text → Scanned (List ArrayElem)) → Scanned (ArrayElem × Text) → Scanned (List ArrayElem)
unfolding with_element
more_elements loop (inl e) = inl e
more_elements loop (inr (elem, rest)) = with_element elem (loop rest)

module _ (host : ArrayHost) where
  -- The literal whose body is behind an opening quote.
  unfoldable pub literal_element : Option (Text × Text) → Scanned (ArrayElem × Text)
  unfolding literal_of
  literal_element none = inl unterminated
  literal_element (some (body, rest)) = literal_of rest (host.unquote (34 ∷ (body ++ (34 ∷ []))))

  -- One turn of the loop behind its blanks: the element, and what follows its comma.
  unfoldable pub parse_array_element : Text → Scanned (ArrayElem × Text)
  unfolding literal_element bare_of to_comma to_quote
  parse_array_element [] = bare_of ([], [])
  parse_array_element (c ∷ s) =
      if c == 34 then literal_element (to_quote s) else bare_of (to_comma (c ∷ s))

  -- Each turn takes at least one code point, so the text's length is enough fuel.
  unfoldable pub parse_elements : ℕ → Text → Scanned (List ArrayElem)
  unfolding parse_array_element more_elements skip_blanks
  parse_elements zero s = inr []
  parse_elements (suc fuel) [] = inr []
  parse_elements (suc fuel) (c ∷ s) =
      more_elements (parse_elements fuel) (parse_array_element (skip_blanks (c ∷ s)))

  unfoldable pub parse_inside : Option Text → Scanned (List ArrayElem)
  unfolding parse_elements
  parse_inside none = inl malformed
  parse_inside (some s) = if eqb_text (trim_space s) [] then inr [] else parse_elements (length s) s

  unfoldable pub parse_array_elements : Text → Scanned (List ArrayElem)
  unfolding parse_inside inside_brackets
  parse_array_elements s = parse_inside (inside_brackets (trim_space s))
