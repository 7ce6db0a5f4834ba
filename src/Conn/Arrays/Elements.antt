-- ===== src/Conn/Arrays/Elements.antt =====
-- array.go: how the text of one value reads, in front of others.
use go_hsql.Base.{
  ℕ, suc, ◌+◌, ◌/◌, ◌%◌, ◌≤◌, ◌<◌, ◌≡◌, refl, sym, ap, inr, Bool, true, false, List, [], ◌∷◌, ◌++◌,
  append_assoc, arith, ◌==◌, length, All, All-imp, eqb_text,
}
use go_hsql.Base.Int.{ℤ, pos, negsuc}
use go_hsql.Base.Words.{Bytes, IsByte}
use go_hsql.Proto.Utf8.{Text}
use go_hsql.Proto.Types.Value.{
  Value, Values, nil, cons, null, int64, float64, bool, string, bytes, time, array_value,
}
use go_hsql.Proto.Types.Decimal.{is_space, magnitude_string}
use go_hsql.Proto.Types.Decimal.RoundTrip.{
  trim_space-NoSpace, magnitude_string-IsDigit, magnitude_nonempty,
}
use go_hsql.Conn.Arrays.{
  ArrayHost, array_null_token, format_int, hex_digit, hex_encode, format_bool, join,
  encode_array_element, ArrayElem, to_comma, bare_element, quoted_element, literal_of,
  literal_element, bare_of, parse_array_element,
}
use go_hsql.Conn.Arrays.Literals.{
  IsBareChar, IsBareToken, IsQuoting, body-to_quote, after, to_comma-after, to_comma-token,
}

-- How a text reads as an element in front of others.
pub record IsElement (host : ArrayHost) (text : Text) (elem : ArrayElem) : Type 0 where
  pub first : ℕ
  pub others : Text
  pub starts : text ≡ first ∷ others
  pub not_space : is_space first ≡ false
  pub reads :
      (more : List Text) → parse_array_element host (text ++ after more) ≡ inr (elem, join more)

pub quoted-IsElement :
    (host : ArrayHost)
    → IsQuoting host
    → (s : Text) → IsElement host (host.quote s) (quoted_element s)
unfolding parse_array_element is_space literal_element literal_of
quoted-IsElement host quoting s =
    let (body, is_quote, is_body) = quoting.is_literal s in
    record {
      first = 34;
      others = body ++ (34 ∷ []);
      starts = is_quote;
      not_space = refl;
      reads = λ more.
          rw
            (
              is_quote,
              append_assoc body (34 ∷ []) (after more),
              body-to_quote body (after more) is_body,
              sym is_quote,
              quoting.unquote-quote s,
            )
            (ap (λ r. inr (quoted_element s, r.1)) (to_comma-after more));
    }

pub bare-IsElement :
    (host : ArrayHost)
    → (t : Text) → IsBareToken t
    → IsElement host t (record { raw = t; quoted = false; is_null = false })
unfolding parse_array_element bare_of bare_element
bare-IsElement host [] (filled, not_null, chars) = ground arith
bare-IsElement host (c ∷ t) (filled, not_null, chars) = record {
  first = c;
  others = t;
  starts = refl;
  not_space = chars.0.0;
  reads = λ more.
      rw
        (
          chars.0.2,
          to_comma-token (c ∷ t) more chars,
          trim_space-NoSpace (c ∷ t) (All-imp IsBareChar _ (c ∷ t) (λ d h. h.0) chars),
          not_null,
        )
        refl;
}

pub null-IsElement :
    (host : ArrayHost)
    → IsElement host array_null_token (record { raw = []; quoted = false; is_null = true })
unfolding parse_array_element bare_of bare_element is_space to_comma eqb_text
null-IsElement host = record {
  first = 78;
  others = 85 ∷ 76 ∷ 76 ∷ [];
  starts = refl;
  not_space = refl;
  reads = λ more.
      rw
        (
          to_comma-after more,
          trim_space-NoSpace array_null_token (refl, (refl, (refl, (refl, tt)))),
        )
        refl;
}

-- The form of the texts that are not quoted.
pub All-IsBareChar : (t : Text) → All (λ c. (48 ≤ c) × (c ≤ 122)) t → All IsBareChar t
unfolding is_space
All-IsBareChar [] chars = tt
All-IsBareChar (c ∷ t) (one, chars) =
    ((ground arith, ground arith, ground arith), All-IsBareChar t chars)

pub not_null_token :
    (c : ℕ) → (t : Text) → (c == 78) ≡ false → eqb_text (c ∷ t) array_null_token ≡ false
unfolding eqb_text
not_null_token c t other = rw (other) refl

pub digits-IsBareToken :
    (t : Text) → 0 < length t → All (λ c. (48 ≤ c) × (c ≤ 57)) t → IsBareToken t
digits-IsBareToken [] filled digits = ground arith
digits-IsBareToken (c ∷ t) filled (one, digits) = (
  filled,
  not_null_token c t (ground arith),
  All-IsBareChar (c ∷ t)
      (All-imp (λ d. (48 ≤ d) × (d ≤ 57)) _ (c ∷ t) (λ d h. (h.0, omega arith)) (one, digits)),
)

pub minus-IsBareToken : (t : Text) → IsBareToken t → IsBareToken (45 ∷ t)
unfolding is_space
minus-IsBareToken t (filled, not_null, chars) =
    (omega arith, not_null_token 45 t refl, ((refl, refl, refl), chars))

pub format_int-IsBareToken : (n : ℤ) → IsBareToken (format_int n)
unfolding format_int
format_int-IsBareToken (pos n) =
    digits-IsBareToken (magnitude_string (n + 0)) (magnitude_nonempty (n + 0))
      (magnitude_string-IsDigit (n + 0))
format_int-IsBareToken (negsuc n) = minus-IsBareToken (magnitude_string (0 + suc n)) (
    digits-IsBareToken (magnitude_string (0 + suc n)) (magnitude_nonempty (0 + suc n))
      (magnitude_string-IsDigit (0 + suc n)))

pub hex_digit_bounds :
    (d : ℕ) → d < 16 → (48 ≤ hex_digit d) × (hex_digit d ≤ 122) × ((hex_digit d == 78) ≡ false)
unfolding hex_digit
hex_digit_bounds d small = (ground arith, ground arith, ground arith)

pub hex_encode-chars : (b : Bytes) → All IsByte b → All (λ c. (48 ≤ c) × (c ≤ 122)) (hex_encode b)
unfolding hex_encode
hex_encode-chars [] valid = tt
hex_encode-chars (b ∷ s) (one, valid) =
    let high = hex_digit_bounds (b / 16) (omega arith) in
    let low = hex_digit_bounds (b % 16) (omega arith) in
    ((high.0, high.1), ((low.0, low.1), hex_encode-chars s valid))

pub hex_encode-IsBareToken :
    (b : ℕ) → (s : Bytes) → All IsByte (b ∷ s) → IsBareToken (hex_encode (b ∷ s))
unfolding hex_encode
hex_encode-IsBareToken b s valid =
    let high = hex_digit_bounds (b / 16) (omega arith) in
    (
      omega arith,
      not_null_token (hex_digit (b / 16)) (hex_digit (b % 16) ∷ hex_encode s) high.2,
      All-IsBareChar (hex_encode (b ∷ s)) (hex_encode-chars (b ∷ s) valid),
    )

pub format_bool-IsBareToken : (b : Bool) → IsBareToken (format_bool b)
unfolding format_bool is_space eqb_text
format_bool-IsBareToken true = (omega arith, refl, All-IsBareChar (format_bool true) (ground arith))
format_bool-IsBareToken false =
    (omega arith, refl, All-IsBareChar (format_bool false) (ground arith))

-- The element that the text of a value reads as.
unfoldable pub element_of : ArrayHost → Value → ArrayElem
element_of host null = record { raw = []; quoted = false; is_null = true }
element_of host (string s) = quoted_element s
element_of host (int64 n) = record { raw = format_int n; quoted = false; is_null = false }
element_of host (float64 x) = record { raw = host.format_float x; quoted = false; is_null = false }
element_of host (bool b) = record { raw = format_bool b; quoted = false; is_null = false }
element_of host (bytes b) = record { raw = hex_encode b; quoted = false; is_null = false }
element_of host (time t) = quoted_element (host.format_time t)
element_of host v = quoted_element (host.sprint v)

unfoldable pub elements_of : ArrayHost → Values → List ArrayElem
unfolding element_of
elements_of host nil = []
elements_of host (cons v vs) = element_of host v ∷ elements_of host vs

-- A value whose text stands for it: no ARRAY inside the ARRAY, and no empty []byte.
unfoldable pub is_flat : Value → Bool
is_flat (array_value vs elem_code) = false
is_flat (bytes []) = false
is_flat v = true

unfoldable pub IsFlat : Value → Type 0
unfolding is_flat
IsFlat (bytes b) = (is_flat (bytes b) ≡ true) × All IsByte b
IsFlat v = is_flat v ≡ true

unfoldable pub AreFlat : Values → Type 0
unfolding IsFlat
AreFlat nil = Unit
AreFlat (cons v vs) = IsFlat v × AreFlat vs

pub encode_array_element-IsElement :
    (host : ArrayHost)
    → IsQuoting host
    → (v : Value) → IsFlat v
    → IsElement host (encode_array_element host v) (element_of host v)
unfolding encode_array_element element_of IsFlat is_flat
encode_array_element-IsElement host quoting null flat = null-IsElement host
encode_array_element-IsElement host quoting (string s) flat = quoted-IsElement host quoting s
encode_array_element-IsElement host quoting (int64 n) flat =
    bare-IsElement host (format_int n) (format_int-IsBareToken n)
encode_array_element-IsElement host quoting (float64 x) flat =
    bare-IsElement host (host.format_float x) (quoting.float_token x)
encode_array_element-IsElement host quoting (bool b) flat =
    bare-IsElement host (format_bool b) (format_bool-IsBareToken b)
encode_array_element-IsElement host quoting (bytes []) (flat, valid) = ground arith
encode_array_element-IsElement host quoting (bytes (b ∷ s)) (flat, valid) =
    bare-IsElement host (hex_encode (b ∷ s)) (hex_encode-IsBareToken b s valid)
encode_array_element-IsElement host quoting (time t) flat =
    quoted-IsElement host quoting (host.format_time t)
encode_array_element-IsElement host quoting (array_value vs elem_code) flat = ground arith
encode_array_element-IsElement host quoting v flat = quoted-IsElement host quoting (host.sprint v)
