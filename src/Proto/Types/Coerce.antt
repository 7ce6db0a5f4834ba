-- ===== src/Proto/Types/Coerce.antt =====
-- internal/proto/types.go: the coercions asString .. asDecimal, and the times as numbers.
use go_hsql.Base.{ℕ, ◌⊎◌, inl, inr, Bool, false, not, [], if◌then◌else◌}
use go_hsql.Base.Int.{ℤ, pos, negsuc, ◌+ℤ◌, ◌-ℤ◌, eqb_ℤ, floor_mod, floor_div}
use go_hsql.Base.Words.{Bytes}
use go_hsql.Proto.Utf8.{Text}
use go_hsql.Proto.Errors.{Error, Outcome, ok, err, not_a_decimal}
use go_hsql.Proto.Types.Value.{
  Value, Time, Decimal, int64, int, int32, float64, float32, bool, string, bytes, time, decimal,
}
use go_hsql.Proto.Types.Decimal.{parse_decimal, scale_unscaled}

-- What the coercions use of Go's floats, of fmt (Sprint and %v) and of the conversions between
-- strings and byte slices. Floats are their bit patterns.
pub record Host : Type 0 where
  pub sprint : Value → Text
  pub int64_of_float : ℕ → ℤ
  pub float_of_int64 : ℤ → ℕ
  pub float_of_float32 : ℕ → ℕ
  pub text_of_bytes : Bytes → Text
  pub bytes_of_text : Text → Bytes

module _ (host : Host) where
  unfoldable pub as_string : Value → Text
  as_string (string s) = s
  as_string (bytes b) = host.text_of_bytes b
  as_string v = host.sprint v

  unfoldable pub as_int64 : Value → ℤ
  as_int64 (int64 n) = n
  as_int64 (int n) = n
  as_int64 (int32 n) = n
  as_int64 (bool b) = if b then pos 1 else pos 0
  as_int64 (float64 x) = host.int64_of_float x
  as_int64 v = pos 0

  unfoldable pub as_float64 : Value → ℕ
  as_float64 (float64 x) = x
  as_float64 (float32 x) = host.float_of_float32 x
  as_float64 (int64 n) = host.float_of_int64 n
  as_float64 v = 0

  unfoldable pub as_bytes : Value → Bytes
  as_bytes (bytes b) = b
  as_bytes (string s) = host.bytes_of_text s
  as_bytes v = []

  abbrev decimal_outcome : Decimal ⊎ Error → Outcome Decimal
  decimal_outcome (inl d) = ok d
  decimal_outcome (inr e) = err e

  unfoldable pub as_decimal : Value → ℤ → Outcome Decimal
  as_decimal (decimal d) scale = ok d
  as_decimal (string s) scale = decimal_outcome (parse_decimal s scale)
  as_decimal (bytes b) scale = decimal_outcome (parse_decimal (host.text_of_bytes b) scale)
  as_decimal (int64 n) scale = ok (record { unscaled = scale_unscaled n scale; scale = scale })
  as_decimal (float64 x) scale = decimal_outcome (parse_decimal (host.sprint (float64 x)) scale)
  as_decimal v scale = err not_a_decimal

unfoldable pub as_bool : Value → Bool
as_bool (bool b) = b
as_bool (int64 n) = not (eqb_ℤ n (pos 0))
as_bool v = false

-- time.Time{} is the first of January of the year 1, UTC.
unfoldable pub as_time : Value → Time
as_time (time t) = t
as_time v = record { unix = negsuc 62135596799; nanosecond = 0; offset = pos 0 }

-- The wall clock of t, as seconds from the epoch.
abbrev pub local_seconds : Time → ℤ
local_seconds t = t.unix +ℤ t.offset

-- time.Date of t's year, month and day at midnight UTC.
unfoldable pub date_seconds : Time → ℤ
date_seconds t = local_seconds t -ℤ pos (floor_mod (local_seconds t) 86400)

-- Hour*3600 + Minute*60 + Second of the wall clock.
unfoldable pub time_of_day_seconds : Time → ℤ
time_of_day_seconds t = pos (floor_mod (local_seconds t) 86400)

unfoldable pub zone_seconds : Time → ℤ
zone_seconds t = t.offset

-- time.Unix(sec, nanos) in the zone: nanoseconds outside the second carry over. zoneLocation(0) is
-- UTC, whose offset is 0.
unfoldable pub unix_time : ℤ → ℤ → ℤ → Time
unix_time sec nanos zone = record {
  unix = sec +ℤ floor_div nanos 1000000000;
  nanosecond = floor_mod nanos 1000000000;
  offset = zone;
}

-- time.Date(1970, 1, 1, 0, 0, sec, nanos, loc): the wall clock of the zone.
unfoldable pub clock_time : ℤ → ℤ → ℤ → Time
unfolding unix_time
clock_time sec nanos zone = unix_time (sec -ℤ zone) nanos zone
