-- ===== src/Proto/RowInput.antt =====
-- internal/proto/rowin.go: RowInput. The state is the unread part of the buffer, r.buf[r.pos:], and
-- the sticky error; buf and pos enter the methods through that part alone.
pub mod RoundTrip
pub mod Sticky
use go_hsql.Base.{
  ℕ, ◌+◌, ◌*◌, ◌^◌, Bool, true, false, not, Option, none, some, [], ltb, ◌==◌, if◌then◌else◌,
  length, get_or, take, drop,
}
use go_hsql.Base.Int.{ℤ, pos, negsuc}
use go_hsql.Base.Words.{Bytes, to_word, of_word}
use go_hsql.Proto.Errors.{Error, short_buffer}
use go_hsql.Proto.Utf8.{Text, decode_modified_utf8}
use go_hsql.Proto.BigInt.{twos_complement_to_big_int}

pub record RowInput : Type 0 where
  pub rest : Bytes
  pub err : Option Error

-- A method returns its value and the new state.
abbrev pub Reader : Type 0 → Type 0
Reader A = RowInput → A × RowInput

abbrev pub pure : {A : Type 0} → A → Reader A
pure a r = (a, r)

infixl 5 ◌>>=◌
abbrev pub ◌>>=◌ : {A B : Type 0} → Reader A → (A → Reader B) → Reader B
◌>>=◌ m f r = let (a, s) = m r in f a s

-- NewRowInput.
abbrev pub new_row_input : Bytes → RowInput
new_row_input buf = record { rest = buf; err = none }

unfoldable pub remaining : RowInput → ℕ
remaining r = length r.rest

abbrev pub advance : ℕ → RowInput → RowInput
advance n r = record r { rest = drop n r.rest }

unfoldable pub need : ℕ → Reader Bool
need n r = elim r.err [
  | some e ↦ (false, r)
  | none ↦
      if ltb (length r.rest) n then (false, record r { err = some short_buffer }) else (true, r)
]

-- `if !r.need(n) { return zero }`, then the value of the next n bytes, and pos += n.
abbrev take_value : {A : Type 0} → ℕ → A → (Bytes → A) → Reader A
take_value n zero_value f r =
    let (enough, s) = need n r in if enough then (f s.rest, advance n s) else (zero_value, s)

unfoldable pub read_u8 : Reader ℕ
unfolding need
read_u8 = take_value 1 0 (λ b. get_or b 0 0)

unfoldable pub read_bool : Reader Bool
read_bool r = let (b, s) = read_u8 r in (not (b == 0), s)

-- The shifted bytes do not overlap, so | is +.
unfoldable pub read_short : Reader ℤ
unfolding need
read_short = take_value 2 (pos 0) (λ b. of_word 16 (get_or b 0 0 * 2 ^ 8 + get_or b 1 0))

abbrev int_of_bytes : Bytes → ℤ
int_of_bytes b =
    of_word 32 (get_or b 0 0 * 2 ^ 24 + get_or b 1 0 * 2 ^ 16 + get_or b 2 0 * 2 ^ 8 + get_or b 3 0)

unfoldable pub read_int : Reader ℤ
unfolding need
read_int = take_value 4 (pos 0) int_of_bytes

abbrev long_of_bytes : Bytes → ℤ
long_of_bytes b = of_word 64 (
    get_or b 0 0 * 2 ^ 56
    + get_or b 1 0 * 2 ^ 48
    + get_or b 2 0 * 2 ^ 40
    + get_or b 3 0 * 2 ^ 32
    + get_or b 4 0 * 2 ^ 24
    + get_or b 5 0 * 2 ^ 16
    + get_or b 6 0 * 2 ^ 8
    + get_or b 7 0)

unfoldable pub read_long : Reader ℤ
unfolding need
read_long = take_value 8 (pos 0) long_of_bytes

unfoldable pub read_type : Reader ℤ
read_type = read_short

-- math.Float64frombits(uint64(v)): a float64 is its bit pattern.
unfoldable pub read_double : Reader ℕ
read_double r = let (v, s) = read_long r in (to_word 64 v, s)

-- The body of ReadBytes and ReadString behind the length: `f` makes the value of the n bytes.
unfoldable pub sized : {A : Type 0} → A → (Bytes → A) → ℤ → Reader A
unfolding need
sized empty f (negsuc n) r = (empty, r)
sized empty f (pos n) r = elim r.err [
  | some e ↦ (empty, r)
  | none ↦ take_value n empty (λ b. f (take n b)) r
]

-- A nil slice and an empty one are both [].
unfoldable pub read_bytes : Reader Bytes
read_bytes r = let (n, s) = read_int r in sized [] (λ b. b) n s

unfoldable pub read_string : Reader Text
read_string r = let (n, s) = read_int r in sized [] decode_modified_utf8 n s

unfoldable pub read_decimal : Reader (ℤ × ℤ)
read_decimal = do b ← read_bytes; scale ← read_int; pure (twos_complement_to_big_int b, scale)
