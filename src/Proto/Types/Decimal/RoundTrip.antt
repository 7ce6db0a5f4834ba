-- ===== src/Proto/Types/Decimal/RoundTrip.antt =====
-- Parsing the text that formatDecimal made, for a scale that is not negative.
use go_hsql.Base.{
  ℕ, zero, suc, ◌+◌, ◌-◌, ◌≤◌, ◌<◌, ◌≡◌, refl, sym, ap, ◌∙◌, inl, inr, Bool, true, false, some,
  List, [], ◌∷◌, ◌++◌, map, append-nil, arith, ◌==◌, if◌then◌else◌, ==_iff, Bool-cases, length,
  length-append, All, All-append, take, drop, replicate, take-append, take-append-drop, length-take,
  length-drop, length-replicate, length-map, All-take, All-drop, All-replicate, All-imp,
}
use go_hsql.Base.Int.{ℤ, pos, negsuc, is_neg, neg_ℤ}
use go_hsql.Base.Radix.{
  to_digits, of_digits, of_digits-to_digits, to_digits_bound, to_digits_nonempty, of_digits-zeros,
}
use go_hsql.Proto.Utf8.{Text}
use go_hsql.Proto.Types.Decimal.{
  magnitude_string, magnitude, signed_text, pad_digits, with_point, format_decimal, is_space,
  trim_left, trim_space, take_sign, split_point, adjust_fraction, all_digits, digits_value,
  set_string, or_zero, wanted, parse_decimal,
}
use mathlib.Core.Path.{ap₂}
use mathlib.Core.List.{reverse, reverse-reverse, reverse-append, map-append}

abbrev IsDigit : ℕ → Type 0
IsDigit c = (b'0' ≤ c) × (c ≤ b'9')

-- A text that TrimSpace leaves alone: none of its characters is a space.
abbrev NoSpace : Text → Type 0
NoSpace = All (λ c. is_space c ≡ false)

IsDigit-is_space : (c : ℕ) → IsDigit c → is_space c ≡ false
unfolding is_space
IsDigit-is_space c h = ground arith

trim_left-NoSpace : (s : Text) → NoSpace s → trim_left s ≡ s
unfolding trim_left
trim_left-NoSpace [] h = refl
trim_left-NoSpace (c ∷ s) h = rw (h.0)

reverse-NoSpace : (s : Text) → NoSpace s → NoSpace (reverse s)
reverse-NoSpace [] h = tt
reverse-NoSpace (c ∷ s) h =
    rw (reverse-append (c ∷ []) s)
      (All-append _ (reverse s) (c ∷ []) (reverse-NoSpace s h.1) (h.0, tt))

pub trim_space-NoSpace : (s : Text) → NoSpace s → trim_space s ≡ s
unfolding trim_space
trim_space-NoSpace s h =
    rw (trim_left-NoSpace s h, trim_left-NoSpace (reverse s) (reverse-NoSpace s h))
      (reverse-reverse s)

-- The digits of a magnitude.
map-IsDigit : (ds : List ℕ) → All (λ d. d < 10) ds → All IsDigit (map (λ d. d + b'0') ds)
map-IsDigit [] h = tt
map-IsDigit (d ∷ ds) h = ((omega arith, omega arith), map-IsDigit ds h.1)

pub magnitude_string-IsDigit : (n : ℕ) → All IsDigit (magnitude_string n)
unfolding magnitude_string
magnitude_string-IsDigit n = elim (Bool-cases (n == 0)) [
  | inl e ↦ rw e ((omega arith, omega arith), tt)
  | inr e ↦ rw e (map-IsDigit (to_digits 10 n) (to_digits_bound 10 n (omega arith)))
]

map_back : (ds : List ℕ) → map (λ c. c - b'0') (map (λ d. d + b'0') ds) ≡ ds
map_back [] = refl
map_back (d ∷ ds) = ap₂ ◌∷◌ (omega arith) (map_back ds)

value_zero : digits_value (b'0' ∷ []) ≡ 0
unfolding of_digits
value_zero = refl

magnitude_value : (n : ℕ) → digits_value (magnitude_string n) ≡ n
unfolding magnitude_string
magnitude_value n = elim (Bool-cases (n == 0)) [
  | inl e ↦ rw e (value_zero ∙ sym ((==_iff n 0).0 e))
  | inr e ↦ rw (e, map_back) (of_digits-to_digits 10 n (omega arith))
]

pub magnitude_nonempty : (n : ℕ) → 0 < length (magnitude_string n)
unfolding magnitude_string
magnitude_nonempty n = elim (Bool-cases (n == 0)) [
  | inl e ↦ rw e (omega arith)
  | inr e ↦ rw (e, length-map) (to_digits_nonempty 10 n (omega arith) (ground arith))
]

-- The pieces of parseDecimal on digits.
take_sign-IsDigit :
    (ds t : Text) → All IsDigit ds → 0 < length ds → take_sign (ds ++ t) ≡ (false, ds ++ t)
unfolding take_sign
take_sign-IsDigit [] t h ne = absurd (omega arith)
take_sign-IsDigit (d ∷ ds) t h ne = ground arith

split_point-IsDigit : (ds t : Text) → All IsDigit ds → split_point (ds ++ b'.' ∷ t) ≡ (ds, t)
unfolding split_point
split_point-IsDigit [] t h = refl
split_point-IsDigit (d ∷ ds) t h = ground (arith, split_point-IsDigit ds t h.1)

split_no_point : (ds : Text) → All IsDigit ds → split_point ds ≡ (ds, [])
unfolding split_point
split_no_point [] h = refl
split_no_point (d ∷ ds) h = ground (arith, split_no_point ds h.1)

all_digits-IsDigit : (ds : Text) → All IsDigit ds → all_digits ds ≡ true
unfolding all_digits
all_digits-IsDigit [] h = refl
all_digits-IsDigit (d ∷ ds) h = ground (arith, all_digits-IsDigit ds h.1)

set_string-IsDigit :
    (ds : Text)
    → All IsDigit ds
    → 0 < length ds
    → set_string (or_zero ds) ≡ some (pos (digits_value ds))
unfolding set_string
set_string-IsDigit [] h ne = absurd (omega arith)
set_string-IsDigit (d ∷ ds) h ne = ground (arith, all_digits-IsDigit (d ∷ ds) h)

adjust_fraction_exact : (f : Text) → adjust_fraction (length f) f ≡ f
unfolding adjust_fraction
adjust_fraction_exact f = take-append f _

-- The text of a decimal: a sign, digits, and a point with digits behind it or none.
take_sign-signed_text :
    (neg : Bool) (ds t : Text)
    → All IsDigit ds
    → 0 < length ds
    → take_sign (signed_text neg (ds ++ t)) ≡ (neg, ds ++ t)
take_sign-signed_text true ds t h ne = unfold take_sign in refl
take_sign-signed_text false ds t h ne = take_sign-IsDigit ds t h ne

signed_text-NoSpace : (neg : Bool) (s : Text) → NoSpace s → NoSpace (signed_text neg s)
unfolding is_space
signed_text-NoSpace true s h = (refl, h)
signed_text-NoSpace false s h = h

digits-NoSpace : (ds : Text) → All IsDigit ds → NoSpace ds
digits-NoSpace ds h = All-imp IsDigit _ ds IsDigit-is_space h

-- Digits, and a tail of which split_point and adjust_fraction make the fraction.
parse_text :
    (neg : Bool) (scale : ℤ) (ds t f : Text)
    → All IsDigit ds
    → 0 < length ds
    → NoSpace t
    → split_point (ds ++ t) ≡ (ds, f)
    → All IsDigit f
    → wanted scale ≡ length f
    → parse_decimal (signed_text neg (ds ++ t)) scale
      ≡ inl (record {
        unscaled =
            if neg then neg_ℤ (pos (digits_value (ds ++ f))) else pos (digits_value (ds ++ f));
        scale = scale;
      })
unfolding parse_decimal
parse_text neg scale ds t f h ne ht split hf want = rw (
  trim_space-NoSpace (signed_text neg (ds ++ t))
      (signed_text-NoSpace neg (ds ++ t) (All-append _ ds t (digits-NoSpace ds h) ht)),
  take_sign-signed_text neg ds t h ne,
  split,
  want,
  adjust_fraction_exact f,
  set_string-IsDigit (ds ++ f) (All-append IsDigit ds f h hf) (omega (arith, length-append ds f)),
)

-- The sign and the magnitude of an integer make the integer.
sign_magnitude : (u : ℤ) → (if is_neg u then neg_ℤ (pos (magnitude u)) else pos (magnitude u)) ≡ u
sign_magnitude (pos n) = ground arith
sign_magnitude (negsuc n) = ground arith

map_zeros : (k : ℕ) → map (λ c. c - b'0') (replicate k b'0') ≡ replicate k 0
map_zeros zero = refl
map_zeros (suc k) = ap (◌∷◌ 0) (map_zeros k)

-- Leading zeros change no value.
digits_value-pad_digits : (s : ℕ) (ds : Text) → digits_value (pad_digits s ds) ≡ digits_value ds
unfolding pad_digits
digits_value-pad_digits s ds =
    rw (map-append (λ c. c - b'0') (replicate (suc s - length ds) b'0') ds, map_zeros)
      (of_digits-zeros 10 (suc s - length ds) (map (λ c. c - b'0') ds))

length-pad_digits : (s : ℕ) (ds : Text) → s < length (pad_digits s ds)
unfolding pad_digits
length-pad_digits s ds = rw (length-append, length-replicate) (omega arith)

pad_digits-IsDigit : (s : ℕ) (ds : Text) → All IsDigit ds → All IsDigit (pad_digits s ds)
unfolding pad_digits
pad_digits-IsDigit s ds h =
    All-append IsDigit _ ds (All-replicate IsDigit _ b'0' (omega arith, omega arith)) h

suc_ne : (s : ℕ) → (suc s == 0) ≡ false
suc_ne s = ground arith

signed_value : (u : ℤ) (m : ℕ) → m ≡ magnitude u → (if is_neg u then neg_ℤ (pos m) else pos m) ≡ u
signed_value u m e = rw e (sign_magnitude u)

-- `parse_text` where the digits are those of the magnitude of u.
parse_magnitude :
    (u scale : ℤ) (ds t f : Text)
    → All IsDigit ds
    → 0 < length ds
    → NoSpace t
    → split_point (ds ++ t) ≡ (ds, f)
    → All IsDigit f
    → wanted scale ≡ length f
    → digits_value (ds ++ f) ≡ magnitude u
    → parse_decimal (signed_text (is_neg u) (ds ++ t)) scale
      ≡ inl (record { unscaled = u; scale = scale })
parse_magnitude u scale ds t f h ne ht split hf want value =
    parse_text (is_neg u) scale ds t f h ne ht split hf want
    ∙ ap (λ v. inl (record { unscaled = v; scale = scale }))
        (signed_value u (digits_value (ds ++ f)) value)

parse_whole :
    (u : ℤ) (ds : Text)
    → All IsDigit ds
    → 0 < length ds
    → digits_value ds ≡ magnitude u
    → parse_decimal (signed_text (is_neg u) ds) (pos 0)
      ≡ inl (record { unscaled = u; scale = pos 0 })
parse_whole u ds h ne value = rw append-nil at (
    parse_magnitude u (pos 0) ds [] [] h ne tt (rw append-nil (split_no_point ds h)) tt refl
      (rw append-nil value))

parse_fraction :
    (u : ℤ) (s : ℕ) (ds : Text)
    → All IsDigit ds
    → s < length ds
    → digits_value ds ≡ magnitude u
    → parse_decimal (signed_text (is_neg u) (with_point s ds)) (pos s)
      ≡ inl (record { unscaled = u; scale = pos s })
unfolding is_space
parse_fraction u s ds h lt value =
    parse_magnitude u (pos s) whole (b'.' ∷ fraction) fraction (All-take IsDigit k ds h)
      (omega (arith, length-take k ds)) (refl, digits-NoSpace fraction (All-drop IsDigit k ds h))
      (split_point-IsDigit whole fraction (All-take IsDigit k ds h)) (All-drop IsDigit k ds h)
      (omega (arith, length-drop k ds)) (rw (take-append-drop k ds) value)
  where
    k : ℕ
    k = length ds - s

    whole : Text
    whole = take k ds

    fraction : Text
    fraction = drop k ds

-- A decimal whose scale is not negative is parsed back from its text, with the same scale.
pub parse_decimal-format_decimal :
    (unscaled : ℤ) (s : ℕ)
    → parse_decimal (format_decimal unscaled (pos s)) (pos s)
      ≡ inl (record { unscaled = unscaled; scale = pos s })
unfolding format_decimal
parse_decimal-format_decimal unscaled zero =
    let m = magnitude unscaled in
    parse_whole unscaled (magnitude_string m) (magnitude_string-IsDigit m) (magnitude_nonempty m)
      (magnitude_value m)
parse_decimal-format_decimal unscaled (suc s) =
    let m = magnitude unscaled in
    let ds = magnitude_string m in
    rw (suc_ne s) (
      parse_fraction unscaled (suc s) (pad_digits (suc s) ds)
        (pad_digits-IsDigit (suc s) ds (magnitude_string-IsDigit m)) (length-pad_digits (suc s) ds)
        (digits_value-pad_digits (suc s) ds ∙ magnitude_value m))
