-- ===== src/Proto/Types/Interval/Clock.antt =====
-- internal/proto/types.go formatDaySecondInterval: the days, hours, minutes and seconds of an
-- interval.
use go_hsql.Base.{ℕ, ◌+◌, ◌*◌, ◌/◌, ◌%◌, ◌<◌, ◌≡◌, refl, arith}
use go_hsql.Base.Int.{pos}
use go_hsql.Proto.Types.Interval.{Parts, parts_of}

-- A clock of numbers as the parts.
abbrev pub clock_parts : ℕ → ℕ → ℕ → ℕ → Parts
clock_parts d h m s = record { days = pos d; hours = pos h; minutes = pos m; secs = pos s }

parts_lem :
    (n : ℕ)
    → parts_of (pos n)
      ≡ clock_parts (n / 86400) (n % 86400 / 3600) (n % 86400 % 3600 / 60) (n % 86400 % 3600 % 60)
unfolding parts_of
parts_lem n = refl

-- The parts of a number of seconds that is not negative make up that number again, and the hours,
-- minutes and seconds are in the range of a clock.
pub parts_of_lem :
    (n : ℕ)
    → (d : ℕ) × (h : ℕ) × (m : ℕ) × (s : ℕ) × (parts_of (pos n) ≡ clock_parts d h m s)
      × (((d * 24 + h) * 60 + m) * 60 + s ≡ n)
      × (h < 24)
      × (m < 60)
      × (s < 60)
parts_of_lem n = (
  n / 86400,
  n % 86400 / 3600,
  n % 86400 % 3600 / 60,
  n % 86400 % 3600 % 60,
  parts_lem n,
  omega arith,
  omega arith,
  omega arith,
  omega arith,
)
