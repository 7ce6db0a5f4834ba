-- ===== src/Base/Words.antt =====
-- Go's fixed-width integers: an intN value is an integer in range, and it goes over the wire as
-- its two's-complement bit pattern, a number below 2 ^ N. A byte is a number below 256.
use go_hsql.Base.Tests.{ltb, if◌then◌else◌}
use go_hsql.Base.Int.{ℤ, pos, negsuc}
use Prim.Native.Nat.{ℕ, ◌-◌, ◌<◌, ◌%◌, ◌^◌}
use mathlib.Core.Path.{◌≡◌}
use mathlib.Core.List.{List}
use native.Mathlib.Omega.{arith}

abbrev pub Bytes : Type 0
Bytes = List ℕ

abbrev pub IsByte : ℕ → Type 0
IsByte b = b < 256

-- The low w bits of an integer.
abbrev pub to_word : ℕ → ℤ → ℕ
to_word w (pos n) = n % 2 ^ w
to_word w (negsuc n) = 2 ^ w - 1 - n % 2 ^ w

-- The integer that a pattern of w bits stands for.
abbrev pub of_word : ℕ → ℕ → ℤ
of_word w p = if ltb p (2 ^ (w - 1)) then pos p else negsuc (2 ^ w - 1 - p)

-- The conversion intN(v): the low w bits, read as a signed integer.
abbrev pub wrap : ℕ → ℤ → ℤ
wrap w v = of_word w (to_word w v)

abbrev pub IsInt : ℕ → ℤ → Type 0
IsInt w (pos n) = n < 2 ^ (w - 1)
IsInt w (negsuc n) = n < 2 ^ (w - 1)

pub of_word-to_word_16 : (v : ℤ) → IsInt 16 v → of_word 16 (to_word 16 v) ≡ v
of_word-to_word_16 (pos n) h = ground arith
of_word-to_word_16 (negsuc n) h = ground arith

pub of_word-to_word_32 : (v : ℤ) → IsInt 32 v → of_word 32 (to_word 32 v) ≡ v
of_word-to_word_32 (pos n) h = ground arith
of_word-to_word_32 (negsuc n) h = ground arith

pub of_word-to_word_64 : (v : ℤ) → IsInt 64 v → of_word 64 (to_word 64 v) ≡ v
of_word-to_word_64 (pos n) h = ground arith
of_word-to_word_64 (negsuc n) h = ground arith
