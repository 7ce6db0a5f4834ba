-- ===== src/Proto/RowOutput.antt =====
-- internal/proto/rowout.go: RowOutput. The buffer is append-only, so a write is the list of bytes
-- that it appends, and a sequence of writes is their concatenation; Reset starts again from the
-- empty buffer. `byte(v>>k)` is the bits k .. k+7 of the two's-complement pattern of v.
use go_hsql.Base.{ℕ, ◌/◌, ◌%◌, ◌^◌, Bool, [], ◌∷◌, ◌++◌, if◌then◌else◌, length}
use go_hsql.Base.Int.{ℤ, pos}
use go_hsql.Base.Words.{Bytes, to_word, of_word, wrap}
use go_hsql.Proto.Utf8.{Text, encode_modified_utf8}
use go_hsql.Proto.BigInt.{big_int_to_twos_complement}

unfoldable pub write_u8 : ℕ → Bytes
write_u8 b = b ∷ []

unfoldable pub write_bool : Bool → Bytes
write_bool v = if v then 1 ∷ [] else 0 ∷ []

unfoldable pub write_short : ℤ → Bytes
write_short v = let p = to_word 16 v in p / 2 ^ 8 % 256 ∷ p % 256 ∷ []

unfoldable pub write_int : ℤ → Bytes
write_int v =
    let p = to_word 32 v in p / 2 ^ 24 % 256 ∷ p / 2 ^ 16 % 256 ∷ p / 2 ^ 8 % 256 ∷ p % 256 ∷ []

-- The eight bytes of a 64-bit pattern.
abbrev long_bytes : ℕ → Bytes
long_bytes p =
    p / 2 ^ 56 % 256
    ∷ p / 2 ^ 48 % 256
    ∷ p / 2 ^ 40 % 256
    ∷ p / 2 ^ 32 % 256
    ∷ p / 2 ^ 24 % 256
    ∷ p / 2 ^ 16 % 256
    ∷ p / 2 ^ 8 % 256
    ∷ p % 256
    ∷ []

unfoldable pub write_long : ℤ → Bytes
write_long v = long_bytes (to_word 64 v)

unfoldable pub write_type : ℤ → Bytes
write_type t = write_short t

-- A float64 is its bit pattern, math.Float64bits.
unfoldable pub write_double : ℕ → Bytes
write_double bits = write_long (of_word 64 bits)

-- int32(len(b)) wraps.
unfoldable pub write_bytes : Bytes → Bytes
write_bytes b = write_int (wrap 32 (pos (length b))) ++ b

unfoldable pub write_raw : Bytes → Bytes
write_raw b = b

unfoldable pub write_string : Text → Bytes
write_string s = write_bytes (encode_modified_utf8 s)

unfoldable pub write_decimal : ℤ → ℤ → Bytes
write_decimal unscaled scale = write_bytes (big_int_to_twos_complement unscaled) ++ write_int scale
