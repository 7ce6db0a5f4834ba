-- ===== src/Proto/Utf8.antt =====
-- internal/proto/rowout.go encodeModifiedUTF8 and rowin.go decodeModifiedUTF8: Java's modified UTF-8.
-- A Go string is the list of its runes (what `range` yields). On runes and bytes the masks and
-- shifts are written as arithmetic: r>>6 is r / 64, r&0x3F is r % 64, 0x80|x with x below 64 is
-- 0x80 + x, and the test c&0xE0 == 0xC0 on a byte is c / 32 == 6.
pub mod RoundTrip
use go_hsql.Base.{
  ℕ, zero, suc, ◌+◌, ◌-◌, ◌*◌, ◌/◌, ◌%◌, ◌≤◌, ◌<◌, ◌⊎◌, Bool, ◌&&◌, ◌||◌, List, [], ◌∷◌, map, ltb,
  leb, ◌==◌, if◌then◌else◌, length, get_or, drop,
}
use go_hsql.Base.Words.{Bytes}

abbrev pub Text : Type 0
Text = List ℕ

-- What a Go string can hold: a code point that is no surrogate.
abbrev pub IsRune : ℕ → Type 0
IsRune r = (r < 0xD800) ⊎ ((0xE000 ≤ r) × (r ≤ 0x10FFFF))

-- The three bytes of a code unit r in 0x800 .. 0xFFFF.
abbrev pub three_bytes : ℕ → Bytes → Bytes
three_bytes r rest = (0xE0 + r / 4096) ∷ (0x80 + r / 64 % 64) ∷ (0x80 + r % 64) ∷ rest

-- What one rune appends, in front of what follows.
unfoldable pub encode_rune : ℕ → Bytes → Bytes
encode_rune r rest =
    if r == 0
    then 0xC0 ∷ 0x80 ∷ rest
    else if leb r 0x7F
    then r ∷ rest
    else if leb r 0x7FF
    then (0xC0 + r / 64) ∷ (0x80 + r % 64) ∷ rest
    else if leb r 0xFFFF
    then three_bytes r rest
    else let s = r - 0x10000 in
      three_bytes (0xD800 + s / 1024) (three_bytes (0xDC00 + s % 1024) rest)

unfoldable pub encode_modified_utf8 : Text → Bytes
encode_modified_utf8 [] = []
encode_modified_utf8 (r ∷ s) = encode_rune r (encode_modified_utf8 s)

-- The two continuation bytes behind a leading byte c.
abbrev pub two_byte_rune : ℕ → ℕ → ℕ
two_byte_rune c d = c % 32 * 64 + d % 64

abbrev pub three_byte_rune : ℕ → ℕ → ℕ → ℕ
three_byte_rune c d e = c % 16 * 4096 + d % 64 * 64 + e % 64

-- r >= 0xD800 && r <= 0xDBFF, and so for the low half.
abbrev pub is_high_surrogate : ℕ → Bool
is_high_surrogate r = leb 0xD800 r && leb r 0xDBFF

abbrev pub is_low_surrogate : ℕ → Bool
is_low_surrogate r = leb 0xDC00 r && leb r 0xDFFF

-- The tail of the three-byte case for the rune r that was read: the pair is recombined, if the
-- next three bytes hold a low surrogate. `b` is b[i:]; `i+5 < len(b)` is `5 < length b`.
decode_three : Bytes → ℕ → ℕ × ℕ
decode_three b r =
    let lo = three_byte_rune (get_or b 3 0) (get_or b 4 0) (get_or b 5 0) in
    if is_high_surrogate r && ltb 5 (length b) && get_or b 3 0 / 16 == 14 && is_low_surrogate lo
    then (0x10000 + (r - 0xD800) * 1024 + (lo - 0xDC00), 6)
    else (r, 3)

-- One round of the loop on b[i:], whose first byte is c: the rune appended, and the advance of i.
unfoldable pub decode_step : ℕ → Bytes → ℕ × ℕ
unfolding decode_three
decode_step c b =
    if ltb c 0x80
    then (c, 1)
    else if c / 32 == 6
    then (if leb (length b) 1 then (c, 1) else (two_byte_rune c (get_or b 1 0), 2))
    else if c / 16 == 14
    then (if leb (length b) 2
        then (c, 1)
        else decode_three b (three_byte_rune c (get_or b 1 0) (get_or b 2 0)))
    else (c, 1)

-- The loop, on the bytes left; each round takes one at least.
unfoldable pub decode_loop : ℕ → Bytes → Text
decode_loop fuel [] = []
decode_loop zero (c ∷ b) = []
decode_loop (suc fuel) (c ∷ b) =
    let (r, n) = decode_step c (c ∷ b) in r ∷ decode_loop fuel (drop n (c ∷ b))

-- The conversion string(out): a rune that is no code point becomes U+FFFD.
unfoldable pub valid_rune : ℕ → ℕ
valid_rune r = if (leb 0xD800 r && leb r 0xDFFF) || ltb 0x10FFFF r then 0xFFFD else r

unfoldable pub decode_modified_utf8 : Bytes → Text
unfolding decode_loop
decode_modified_utf8 b = map valid_rune (decode_loop (length b) b)
