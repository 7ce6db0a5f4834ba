-- ===== src/Proto/Types/Decimal.antt =====
-- internal/proto/types.go formatDecimal, parseDecimal and scaleUnscaled: decimals as text.
-- A character is its code point; every character tested is ASCII but the spaces of TrimSpace.
pub mod RoundTrip
use go_hsql.Base.{
  ℕ, suc, ◌+◌, ◌-◌, ◌*◌, ◌^◌, ◌⊎◌, inl, inr, Bool, true, false, ◌&&◌, ◌||◌, Option, none, some, [],
  ◌∷◌, ◌++◌, map, leb, ◌==◌, if◌then◌else◌, length, take, drop, replicate,
}
use go_hsql.Base.Int.{ℤ, pos, negsuc, pos_part, neg_part, sub_ℕ, is_neg, neg_ℤ}
use go_hsql.Base.Radix.{to_digits, of_digits}
use go_hsql.Proto.Utf8.{Text}
use go_hsql.Proto.Types.Value.{Decimal}
use go_hsql.Proto.Errors.{Error, invalid_decimal}
use mathlib.Core.List.{reverse}

-- big.Int's String for a magnitude.
unfoldable pub magnitude_string : ℕ → Text
magnitude_string n = if n == 0 then b'0' ∷ [] else map (λ d. d + b'0') (to_digits 10 n)

abbrev pub magnitude : ℤ → ℕ
magnitude v = pos_part v + neg_part v

abbrev pub signed_text : Bool → Text → Text
signed_text neg s = if neg then b'-' ∷ s else s

-- `for len(digits) <= s { digits = "0" + digits }`: one loop round for each place that is missing.
unfoldable pub pad_digits : ℕ → Text → Text
pad_digits s digits = replicate (suc s - length digits) b'0' ++ digits

-- The point goes s places before the end.
abbrev pub with_point : ℕ → Text → Text
with_point s digits = take (length digits - s) digits ++ b'.' ∷ drop (length digits - s) digits

unfoldable pub format_decimal : ℤ → ℤ → Text
format_decimal unscaled (negsuc n) =
    signed_text (is_neg unscaled) (magnitude_string (magnitude unscaled) ++ replicate (suc n) b'0')
format_decimal unscaled (pos s) =
    if s == 0
    then signed_text (is_neg unscaled) (magnitude_string (magnitude unscaled))
    else signed_text (is_neg unscaled)
        (with_point s (pad_digits s (magnitude_string (magnitude unscaled))))

-- unicode.IsSpace.
unfoldable pub is_space : ℕ → Bool
is_space c =
    (leb 9 c && leb c 13)
    || c == 0x20
    || c == 0x85
    || c == 0xA0
    || c == 0x1680
    || (leb 0x2000 c && leb c 0x200A)
    || c == 0x2028
    || c == 0x2029
    || c == 0x202F
    || c == 0x205F
    || c == 0x3000

unfoldable pub trim_left : Text → Text
trim_left [] = []
trim_left (c ∷ s) = let rest = trim_left s in if is_space c then rest else c ∷ s

unfoldable pub trim_space : Text → Text
unfolding trim_left
trim_space s = reverse (trim_left (reverse (trim_left s)))

-- The sign that parseDecimal takes off, and what follows it.
unfoldable pub take_sign : Text → Bool × Text
take_sign [] = (false, [])
take_sign (c ∷ s) =
    if c == b'-' then (true, s) else if c == b'+' then (false, s) else (false, c ∷ s)

-- The text before the first point, and that behind it: all and nothing where there is no point.
unfoldable pub split_point : Text → Text × Text
split_point [] = ([], [])
split_point (c ∷ s) =
    let (whole, fraction) = split_point s in if c == b'.' then ([], s) else (c ∷ whole, fraction)

-- Zeros are added up to `want` places, and places past it are cut.
unfoldable pub adjust_fraction : ℕ → Text → Text
adjust_fraction want fraction = take want (fraction ++ replicate (want - length fraction) b'0')

abbrev pub is_digit : ℕ → Bool
is_digit c = leb b'0' c && leb c b'9'

unfoldable pub all_digits : Text → Bool
all_digits [] = true
all_digits (c ∷ s) = is_digit c && all_digits s

abbrev pub digits_value : Text → ℕ
digits_value s = of_digits 10 (map (λ c. c - b'0') s)

-- The digits behind big.Int.SetString's own sign.
unfoldable pub set_digits : Bool → Text → Option ℤ
unfolding all_digits
set_digits neg [] = none
set_digits neg (c ∷ s) =
    if all_digits (c ∷ s)
    then some (if neg then sub_ℕ 0 (digits_value (c ∷ s)) else pos (digits_value (c ∷ s)))
    else none

-- new(big.Int).SetString(s, 10): one sign, and at least one decimal digit.
unfoldable pub set_string : Text → Option ℤ
unfolding take_sign set_digits
set_string s = let (neg, digits) = take_sign s in set_digits neg digits

abbrev pub or_zero : Text → Text
or_zero [] = b'0' ∷ []
or_zero (c ∷ s) = c ∷ s

-- want := int(scale), and 0 where that is negative.
abbrev pub wanted : ℤ → ℕ
wanted scale = pos_part scale

-- From the unscaled digits to the result, behind SetString.
unfoldable pub finish_decimal : Bool → Text → ℤ → Option ℤ → Decimal ⊎ Error
finish_decimal neg s scale none = inr (invalid_decimal s)
finish_decimal neg s scale (some v) =
    inl (record { unscaled = if neg then neg_ℤ v else v; scale = scale })

-- The text behind the sign.
unfoldable pub parse_unsigned : Bool → Text → ℤ → Decimal ⊎ Error
unfolding finish_decimal
parse_unsigned neg s scale =
    let (whole, fraction) = split_point s in
    finish_decimal neg s scale
      (set_string (or_zero (whole ++ adjust_fraction (wanted scale) fraction)))

unfoldable pub parse_decimal : Text → ℤ → Decimal ⊎ Error
unfolding parse_unsigned
parse_decimal text scale = let (neg, s) = take_sign (trim_space text) in parse_unsigned neg s scale

-- big.Int multiplication by a power of ten, for a positive scale.
unfoldable pub scale_unscaled : ℤ → ℤ → ℤ
scale_unscaled v (negsuc n) = v
scale_unscaled v (pos s) = sub_ℕ (pos_part v * 10 ^ s) (neg_part v * 10 ^ s)
