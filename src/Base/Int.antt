-- ===== src/Base/Int.antt =====
-- Signed integers over the native numbers, under the library's names (its ℤ stands on the unary ℕ).
use go_hsql.Base.Tests.{ltb, leb, if◌then◌else◌}
use Prim.Native.Nat.{ℕ, suc, ◌+◌, ◌-◌, ◌≤◌, ◌/◌, ◌%◌}
use mathlib.Core.Path.{◌≡◌}
use mathlib.Core.Bool.{Bool, true, false, ◌&&◌}
use native.Mathlib.Omega.{arith}

-- `negsuc n` is -(n + 1).
pub data ℤ : Type 0 where
  pos : ℕ → ℤ
  negsuc : ℕ → ℤ

abbrev pub pos_part : ℤ → ℕ
pos_part (pos n) = n
pos_part (negsuc n) = 0

abbrev pub neg_part : ℤ → ℕ
neg_part (pos n) = 0
neg_part (negsuc n) = suc n

-- a - b, as an integer.
abbrev pub sub_ℕ : ℕ → ℕ → ℤ
sub_ℕ a b = if leb b a then pos (a - b) else negsuc (b - a - 1)

infixl 65 ◌+ℤ◌ ◌-ℤ◌
infix 50 ◌≤ℤ◌
unfoldable pub ◌+ℤ◌ : ℤ → ℤ → ℤ
a +ℤ b = sub_ℕ (pos_part a + pos_part b) (neg_part a + neg_part b)

unfoldable pub ◌-ℤ◌ : ℤ → ℤ → ℤ
a -ℤ b = sub_ℕ (pos_part a + neg_part b) (neg_part a + pos_part b)

abbrev pub ◌≤ℤ◌ : ℤ → ℤ → Type 0
a ≤ℤ b = pos_part a + neg_part b ≤ pos_part b + neg_part a

abbrev pub ltb_ℤ : ℤ → ℤ → Bool
ltb_ℤ a b = ltb (pos_part a + neg_part b) (pos_part b + neg_part a)

-- The Boolean equality of two integers.
abbrev pub eqb_ℤ : ℤ → ℤ → Bool
eqb_ℤ a b =
    leb (pos_part a + neg_part b) (pos_part b + neg_part a)
    && leb (pos_part b + neg_part a) (pos_part a + neg_part b)

abbrev pub is_neg : ℤ → Bool
is_neg (pos n) = false
is_neg (negsuc n) = true

abbrev pub neg_ℤ : ℤ → ℤ
neg_ℤ a = sub_ℕ (neg_part a) (pos_part a)

pub eq_of_parts : (a b : ℤ) → pos_part a + neg_part b ≡ pos_part b + neg_part a → a ≡ b
eq_of_parts a b h = ground arith

-- Go's / and % by a positive constant: the quotient is cut towards zero.
abbrev pub quot : ℤ → ℕ → ℤ
quot (pos n) k = pos (n / k)
quot (negsuc n) k = sub_ℕ 0 (suc n / k)

abbrev pub rem : ℤ → ℕ → ℤ
rem (pos n) k = pos (n % k)
rem (negsuc n) k = sub_ℕ 0 (suc n % k)

-- The remainder of the division that is rounded down: a number below k.
abbrev pub floor_mod : ℤ → ℕ → ℕ
floor_mod (pos n) k = n % k
floor_mod (negsuc n) k = k - 1 - n % k

abbrev pub floor_div : ℤ → ℕ → ℤ
floor_div (pos n) k = pos (n / k)
floor_div (negsuc n) k = negsuc (n / k)
