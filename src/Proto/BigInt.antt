-- ===== src/Proto/BigInt.antt =====
-- internal/proto/rowout.go bigIntToTwosComplement and rowin.go twosComplementToBigInt: a *big.Int
-- as a big-endian two's-complement byte string. A big.Int is an integer; its Bytes method gives
-- the digits of the magnitude in base 256, and SetBytes reads them.
pub mod RoundTrip
use go_hsql.Base.{
  ℕ, suc, ◌+◌, ◌-◌, ◌^◌, Bool, [], ◌∷◌, ◌++◌, leb, ◌==◌, if◌then◌else◌, length, get_or, replicate,
}
use go_hsql.Base.Int.{ℤ, pos, negsuc, sub_ℕ}
use go_hsql.Base.Words.{Bytes}
use go_hsql.Base.Radix.{to_digits, of_digits}

-- v.Bytes() for the magnitude of v.
abbrev pub magnitude_bytes : ℕ → Bytes
magnitude_bytes m = to_digits 256 m

-- The test mag[0]&0x80 != 0 on a byte.
abbrev pub top_bit : Bytes → Bool
top_bit b = leb 128 (get_or b 0 0)

-- The number of bytes of a negative number with this magnitude.
pub negative_length : Bytes → ℕ
negative_length mag = if top_bit mag then length mag + 1 else length mag

-- copy(out[n-len(tcb):], tcb) into a fresh slice of n zero bytes, where len(tcb) is n at most.
pub left_pad : ℕ → Bytes → Bytes
left_pad n tcb = replicate (n - length tcb) 0 ++ tcb

-- `negsuc n` is -(n + 1), so its magnitude is n + 1.
unfoldable pub big_int_to_twos_complement : ℤ → Bytes
unfolding negative_length left_pad
big_int_to_twos_complement (pos n) =
    let mag = magnitude_bytes n in if n == 0 then 0 ∷ [] else if top_bit mag then 0 ∷ mag else mag
big_int_to_twos_complement (negsuc n) =
    let size = negative_length (magnitude_bytes (suc n)) in
    left_pad size (magnitude_bytes (256 ^ size - suc n))

-- 2^(8*len) is written 256 ^ len.
unfoldable pub twos_complement_to_big_int : Bytes → ℤ
twos_complement_to_big_int [] = pos 0
twos_complement_to_big_int (c ∷ b) =
    if leb 128 c
    then sub_ℕ (of_digits 256 (c ∷ b)) (256 ^ length (c ∷ b))
    else pos (of_digits 256 (c ∷ b))
