-- ===== src/Proto/Types/Interval.antt =====
-- internal/proto/types.go formatYearMonthInterval and formatDaySecondInterval. The integers are
-- int64 and int32 values, and a negation wraps.
pub mod Clock
use go_hsql.Base.{ℕ, ◌-◌, ◌||◌, [], ◌∷◌, ◌++◌, ◌==◌, if◌then◌else◌, length, replicate}
use go_hsql.Base.Int.{ℤ, pos, eqb_ℤ, is_neg, neg_ℤ, quot, rem}
use go_hsql.Base.Words.{wrap}
use go_hsql.Proto.Const.{
  sql_interval_year, sql_interval_month, sql_interval_day, sql_interval_hour, sql_interval_minute,
  sql_interval_second, sql_interval_day_to_hour, sql_interval_day_to_minute,
  sql_interval_day_to_second, sql_interval_hour_to_minute, sql_interval_hour_to_second,
}
use go_hsql.Proto.Utf8.{Text}
use go_hsql.Proto.Types.Decimal.{magnitude, magnitude_string, signed_text}
use mathlib.Core.List.{reverse}

-- fmt's %d, and %0Nd: zeros between the sign and the digits, up to the width.
unfoldable pub decimal_text : ℤ → Text
decimal_text v = signed_text (is_neg v) (magnitude_string (magnitude v))

unfoldable pub padded_text : ℕ → ℤ → Text
padded_text width v =
    let digits = magnitude_string (magnitude v) in
    let sign : ℕ = if is_neg v then 1 else 0 in
    signed_text (is_neg v) (replicate (width - sign - length digits) b'0' ++ digits)

unfoldable pub format_year_month_interval : ℤ → ℤ → Text
format_year_month_interval code months =
    let m = if is_neg months then wrap 64 (neg_ℤ months) else months in
    signed_text (is_neg months) (
      if eqb_ℤ code sql_interval_year
      then decimal_text (quot m 12)
      else if eqb_ℤ code sql_interval_month
      then decimal_text m
      else decimal_text (quot m 12) ++ b'-' ∷ padded_text 2 (rem m 12))

-- strings.TrimLeft and TrimRight by "0".
unfoldable pub trim_zeros : Text → Text
trim_zeros [] = []
trim_zeros (c ∷ s) = let rest = trim_zeros s in if c == b'0' then rest else c ∷ s

unfoldable pub trim_right_zeros : Text → Text
unfolding trim_zeros
trim_right_zeros s = reverse (trim_zeros (reverse s))

-- secPart: the seconds with two digits, and the fraction if there are nanoseconds.
unfoldable pub second_part : ℤ → ℤ → Text
second_part secs nanos =
    let whole = padded_text 2 secs in
    if eqb_ℤ nanos (pos 0) then whole else whole ++ b'.' ∷ trim_right_zeros (padded_text 9 nanos)

-- The SECOND case: no leading zeros but one.
unfoldable pub bare_seconds : Text → Text
bare_seconds [] = b'0' ∷ []
bare_seconds (c ∷ s) = if c == b'.' then b'0' ∷ c ∷ s else c ∷ s

-- The parts that the switch prints: those of a number of seconds.
pub record Parts : Type 0 where
  pub days : ℤ
  pub hours : ℤ
  pub minutes : ℤ
  pub secs : ℤ

unfoldable pub parts_of : ℤ → Parts
parts_of seconds =
    let r = rem seconds 86400 in
    let q = rem r 3600 in
    record { days = quot seconds 86400; hours = quot r 3600; minutes = quot q 60; secs = rem q 60 }

unfoldable pub day_second_text : ℤ → ℤ → Parts → Text → Text
day_second_text code seconds p sec_part =
    if eqb_ℤ code sql_interval_day
    then decimal_text p.days
    else if eqb_ℤ code sql_interval_hour
    then decimal_text (quot seconds 3600)
    else if eqb_ℤ code sql_interval_minute
    then decimal_text (quot seconds 60)
    else if eqb_ℤ code sql_interval_second
    then bare_seconds (trim_zeros sec_part)
    else if eqb_ℤ code sql_interval_day_to_hour
    then decimal_text p.days ++ b' ' ∷ padded_text 2 p.hours
    else if eqb_ℤ code sql_interval_day_to_minute
    then decimal_text p.days ++ b' ' ∷ (padded_text 2 p.hours ++ b':' ∷ padded_text 2 p.minutes)
    else if eqb_ℤ code sql_interval_day_to_second
    then decimal_text p.days
      ++ b' ' ∷ (padded_text 2 p.hours ++ b':' ∷ (padded_text 2 p.minutes ++ b':' ∷ sec_part))
    else if eqb_ℤ code sql_interval_hour_to_minute
    then decimal_text (quot seconds 3600) ++ b':' ∷ padded_text 2 p.minutes
    else if eqb_ℤ code sql_interval_hour_to_second
    then decimal_text (quot seconds 3600) ++ b':' ∷ (padded_text 2 p.minutes ++ b':' ∷ sec_part)
    else decimal_text (quot seconds 60) ++ b':' ∷ sec_part

-- seconds = -seconds and nanos = -nanos where the interval is negative.
unfoldable pub format_day_second_interval : ℤ → ℤ → ℤ → Text
format_day_second_interval code seconds nanos =
    let neg = is_neg seconds || is_neg nanos in
    let s = if neg then wrap 64 (neg_ℤ seconds) else seconds in
    let n = if neg then wrap 32 (neg_ℤ nanos) else nanos in
    let p = parts_of s in signed_text neg (day_second_text code s p (second_part p.secs n))
