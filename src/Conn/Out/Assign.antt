-- ===== src/Conn/Out/Assign.antt =====
-- callable.go assignOutValue at an integer destination.
use go_hsql.Base.{ℕ, ◌^◌, ◌<◌, ◌≡◌, Bool, true, false}
use go_hsql.Base.Int.{ℤ, pos, negsuc}
use go_hsql.Base.Words.{IsInt}
use go_hsql.Proto.Types.Value.{Value, null, int64, float64, bool}
use go_hsql.Conn.Out.{Width, bits, OutDest, OutHost, int_dest, uint_dest}

-- The numbers of an unsigned type.
abbrev pub IsUint : ℕ → ℤ → Type 0
IsUint w (pos n) = n < 2 ^ w
IsUint w (negsuc n) = ◌≡◌ {A = ℕ} 0 1

-- The integer types, and the numbers that they hold.
abbrev pub integer_dest : Bool → Width → OutDest
integer_dest true w = int_dest w
integer_dest false w = uint_dest w

abbrev pub IsHeld : Bool → Width → ℤ → Type 0
IsHeld true w n = IsInt (bits w) n
IsHeld false w n = IsUint (bits w) n

module _ (host : OutHost) where
  -- The integer that a value is for an integer destination: 0 for nil, an int64 itself, 1 and 0 for a
  -- truth value, and what Go's conversion makes of a float64. Any other value is none.
  abbrev pub StandsFor : Value → ℤ → Type 0
  StandsFor null n = n ≡ pos 0
  StandsFor (int64 m) n = n ≡ m
  StandsFor (bool true) n = n ≡ pos 1
  StandsFor (bool false) n = n ≡ pos 0
  StandsFor (float64 x) n = n ≡ host.int64_of_float x
  StandsFor v n = ◌≡◌ {A = ℕ} 0 1
