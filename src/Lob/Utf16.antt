-- ===== src/Lob/Utf16.antt =====
-- lob.go readUTF16Chunk, with utf16.Encode and utf16.Decode, which it and its callers use.
pub mod Chunks
use go_hsql.Base.{
  ℕ, zero, suc, ◌+◌, ◌-◌, ◌*◌, ◌/◌, ◌%◌, Bool, true, false, ◌&&◌, ◌||◌, List, [], ◌∷◌, ◌++◌, ltb,
  leb, if◌then◌else◌,
}
use go_hsql.Proto.Utf8.{Text}
use go_hsql.Proto.Types.Value.{Source}

-- utf16.Encode of one rune.
unfoldable pub utf16_rune : ℕ → List ℕ
utf16_rune r =
    if ltb r 0xD800 || (leb 0xE000 r && leb r 0xFFFF)
    then r ∷ []
    else if leb 0x10000 r && leb r 0x10FFFF
    then (0xD800 + (r - 0x10000) / 1024) ∷ (0xDC00 + (r - 0x10000) % 1024) ∷ []
    else 0xFFFD ∷ []

unfoldable pub utf16_encode : Text → List ℕ
utf16_encode [] = []
utf16_encode (r ∷ s) = utf16_rune r ++ utf16_encode s

-- utf16.Decode: two surrogates in order are one rune, any other surrogate is U+FFFD.
unfoldable pub utf16_unit : ℕ → ℕ
utf16_unit u = if ltb u 0xD800 || leb 0xE000 u then u else 0xFFFD

unfoldable pub is_pair : ℕ → ℕ → Bool
is_pair u v = (leb 0xD800 u && ltb u 0xDC00) && (leb 0xDC00 v && ltb v 0xE000)

unfoldable pub utf16_decode : List ℕ → Text
unfolding utf16_unit is_pair
utf16_decode [] = []
utf16_decode (u ∷ []) = utf16_unit u ∷ []
utf16_decode (u ∷ v ∷ s) = elim (is_pair u v) [
  | true ↦ ((u - 0xD800) * 1024 + (v - 0xDC00) + 0x10000) ∷ utf16_decode s
  | false ↦ utf16_unit u ∷ utf16_decode (v ∷ s)
]

unfoldable pub rune_units : ℕ → ℕ
rune_units r = if ltb 0xFFFF r then 2 else 1

-- The loop of readUTF16Chunk: the runes that are taken, those that are left, and the units.
unfoldable pub take_units : ℕ → ℕ → Text → Text × Text × ℕ
take_units limit units [] = ([], [], units)
take_units limit units (r ∷ s) =
    let n = units + rune_units r in
    let more = take_units limit n s in
    if ltb units limit && leb n limit then (r ∷ more.0, more.1, more.2) else ([], r ∷ s, units)

-- (units, nil), (nil, io.EOF) or (nil, err); the runes that the reader still holds.
pub data Chunk : Type 0 where
  chunk : List ℕ → Text → Chunk
  end_of_text : Chunk
  read_error : Chunk

-- The end of readUTF16Chunk where the loop has run into the end of the reader.
unfoldable pub chunk_at_end : Bool → Text → Chunk
chunk_at_end true [] = end_of_text
chunk_at_end true (r ∷ s) = chunk (utf16_encode (r ∷ s)) []
chunk_at_end false s = read_error

unfoldable pub chunk_of : ℕ → Bool → Text × Text × ℕ → Chunk
unfolding chunk_at_end
chunk_of limit at_eof (taken, [], units) =
    if ltb units limit then chunk_at_end at_eof taken else chunk (utf16_encode taken) []
chunk_of limit at_eof (taken, r ∷ s, units) = chunk (utf16_encode taken) (r ∷ s)

unfoldable pub read_utf16_chunk : ℕ → Source ℕ → Chunk
unfolding chunk_of
read_utf16_chunk limit src = chunk_of limit src.at_eof (take_units limit 0 src.items)

-- What follows a read in the loop of writeLobCreateCharsFromReader; `loop` goes on with the rest.
unfoldable pub after_read : (Text → List (List ℕ) × Bool) → Chunk → List (List ℕ) × Bool
after_read loop (chunk units rest) = let (more, end) = loop rest in (units ∷ more, end)
after_read loop end_of_text = ([], true)
after_read loop read_error = ([], false)

-- The chunks that this loop reads, and whether it ends at io.EOF.
unfoldable pub utf16_chunks : ℕ → ℕ → Source ℕ → List (List ℕ) × Bool
unfolding after_read
utf16_chunks zero limit src = ([], false)
utf16_chunks (suc fuel) limit src =
    after_read (λ rest. utf16_chunks fuel limit (record { items = rest; at_eof = src.at_eof }))
      (read_utf16_chunk limit src)
