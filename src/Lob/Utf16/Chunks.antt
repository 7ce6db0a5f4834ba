-- ===== src/Lob/Utf16/Chunks.antt =====
-- lob.go readUTF16Chunk: what its chunks make up together.
use go_hsql.Base.{
  ℕ, zero, suc, ◌+◌, ◌≤◌, ◌<◌, ◌≡◌, refl, sym, ap, ◌∙◌, ◌⊎◌, inl, inr, Bool, true, false, ◌&&◌,
  ◌||◌, List, [], ◌∷◌, ◌++◌, append_assoc, arith, ltb, leb, if◌then◌else◌, length, length-append,
  All, subst, flatten,
}
use go_hsql.Proto.Utf8.{Text, IsRune}
use go_hsql.Lob.Utf16.{
  utf16_rune, utf16_encode, utf16_unit, is_pair, utf16_decode, rune_units, take_units, Chunk, chunk,
  end_of_text, chunk_at_end, chunk_of, read_utf16_chunk, after_read, utf16_chunks,
}

length-utf16_rune : (r : ℕ) → IsRune r → length (utf16_rune r) ≡ rune_units r
unfolding utf16_rune rune_units
length-utf16_rune r valid = ground arith

decode_single :
    (r : ℕ)
    → (s : List ℕ) → (ltb r 0xD800 || leb 0xE000 r) ≡ true
    → utf16_decode (r ∷ s) ≡ r ∷ utf16_decode s
unfolding utf16_decode utf16_unit is_pair
decode_single r [] single = ground arith
decode_single r (v ∷ s) single = ground arith

decode_rune :
    (r : ℕ) → IsRune r → (s : List ℕ) → utf16_decode (utf16_rune r ++ s) ≡ r ∷ utf16_decode s
unfolding utf16_decode utf16_rune utf16_unit is_pair
decode_rune r valid [] = ground arith
decode_rune r valid (v ∷ s) = ground arith

pub utf16_decode-utf16_encode : (s : Text) → All IsRune s → utf16_decode (utf16_encode s) ≡ s
unfolding utf16_encode utf16_decode
utf16_decode-utf16_encode [] valid = refl
utf16_decode-utf16_encode (r ∷ s) (one, valid) =
    decode_rune r one (utf16_encode s) ∙ ap (λ t. r ∷ t) (utf16_decode-utf16_encode s valid)

length-encode_cons :
    (r : ℕ)
    → IsRune r
    → (s : Text) → length (utf16_encode (r ∷ s)) ≡ rune_units r + length (utf16_encode s)
unfolding utf16_encode
length-encode_cons r valid s =
    length-append (utf16_rune r) (utf16_encode s)
    ∙ ap (λ n. n + length (utf16_encode s)) (length-utf16_rune r valid)

rune_units_bound : (r : ℕ) → rune_units r ≤ 2
unfolding rune_units
rune_units_bound r = ground arith

counted_none : (n : ℕ) → n ≡ n + length (utf16_encode [])
unfolding utf16_encode
counted_none n = omega arith

-- A cut of the runes after which the count stands at n.
record IsCut (limit : ℕ) (units : ℕ) (runes : Text) (cut : Text × Text × ℕ) : Type 0 where
  whole : cut.0 ++ cut.1 ≡ runes
  counted : cut.2 ≡ units + length (utf16_encode cut.0)
  bounded : units ≤ limit → cut.2 ≤ limit
  stopped : (cut.1 ≡ []) ⊎ (limit ≤ suc cut.2)

-- One turn of the loop, by whether the rune is taken.
take_one-IsCut :
    (limit units r : ℕ)
    → (s : Text) → IsRune r
    → (cut : Text × Text × ℕ) → IsCut limit (units + rune_units r) s cut
    → (fits : Bool) → (ltb units limit && leb (units + rune_units r) limit) ≡ fits
    → IsCut limit units (r ∷ s) (if fits then (r ∷ cut.0, cut.1, cut.2) else ([], r ∷ s, units))
take_one-IsCut limit units r s one cut is_cut true fits = record {
  whole = ap (λ t. r ∷ t) is_cut.whole;
  counted = let encoded = length-encode_cons r one cut.0 in omega arith;
  bounded = λ le. is_cut.bounded (ground arith);
  stopped = is_cut.stopped;
}
take_one-IsCut limit units r s one cut is_cut false fits = record {
  whole = refl;
  counted = counted_none units;
  bounded = λ le. le;
  stopped = inr (let small = rune_units_bound r in ground arith);
}

take_units-IsCut :
    (limit units : ℕ)
    → (runes : Text) → All IsRune runes
    → IsCut limit units runes (take_units limit units runes)
unfolding take_units
take_units-IsCut limit units [] valid = record {
  whole = refl;
  counted = counted_none units;
  bounded = λ le. le;
  stopped = inl refl;
}
take_units-IsCut limit units (r ∷ s) (one, valid) =
    let n = units + rune_units r in
    take_one-IsCut limit units r s one (take_units limit n s) (take_units-IsCut limit n s valid)
      (ltb units limit && leb n limit) refl

-- What a read from a reader that ends at io.EOF gives: the end, or a chunk of some of the runes.
data IsRead (limit : ℕ) : Text → Chunk → Type 0 where
  no_more : IsRead limit [] end_of_text
  some_more :
      {runes : Text}
      → (units : List ℕ) → (rest : Text) → units ++ utf16_encode rest ≡ utf16_encode runes
      → (0 < length units) × (length units ≤ limit)
      → length rest < length runes
      → All IsRune rest
      → IsRead limit runes (chunk units rest)

encode-append : (s t : Text) → utf16_encode (s ++ t) ≡ utf16_encode s ++ utf16_encode t
unfolding utf16_encode
encode-append [] t = refl
encode-append (r ∷ s) t =
    ap (λ u. utf16_rune r ++ u) (encode-append s t)
    ∙ sym (append_assoc (utf16_rune r) (utf16_encode s) (utf16_encode t))

rune_units_positive : (r : ℕ) → 0 < rune_units r
unfolding rune_units
rune_units_positive r = ground arith

All-right : (s t : Text) → All IsRune (s ++ t) → All IsRune t
All-right [] t valid = valid
All-right (r ∷ s) t (one, valid) = All-right s t valid

chunk-IsRead :
    (limit n r : ℕ)
    → (taken left : Text) → All IsRune ((r ∷ taken) ++ left)
    → IsCut limit 0 ((r ∷ taken) ++ left) (r ∷ taken, left, n)
    → IsRead limit ((r ∷ taken) ++ left) (chunk (utf16_encode (r ∷ taken)) left)
chunk-IsRead limit n r taken left (one, valid) cut =
    let cons = length-encode_cons r one taken in
    let positive = rune_units_positive r in
    let counted = cut.counted in
    let bounded = cut.bounded (omega arith) in
    let longer = length-append (r ∷ taken) left in
    some_more (utf16_encode (r ∷ taken)) left (sym (encode-append (r ∷ taken) left))
      (omega arith, omega arith) (omega arith) (All-right taken left valid)

chunk_end-IsRead :
    (limit n : ℕ)
    → 2 ≤ limit
    → (taken : Text) → All IsRune (taken ++ [])
    → IsCut limit 0 (taken ++ []) (taken, [], n)
    → (below : Bool) → ltb n limit ≡ below
    → IsRead limit
        (taken ++ [])
        (if below then chunk_at_end true taken else chunk (utf16_encode taken) [])
unfolding chunk_at_end
chunk_end-IsRead limit n large [] valid cut true below = no_more
chunk_end-IsRead limit n large [] valid cut false below =
    let counted = cut.counted ∙ sym (counted_none 0) in ground arith
chunk_end-IsRead limit n large (r ∷ taken) valid cut true below =
    chunk-IsRead limit n r taken [] valid cut
chunk_end-IsRead limit n large (r ∷ taken) valid cut false below =
    chunk-IsRead limit n r taken [] valid cut

chunk_of-IsRead :
    (limit : ℕ)
    → 2 ≤ limit
    → (taken left : Text) → (n : ℕ) → All IsRune (taken ++ left)
    → IsCut limit 0 (taken ++ left) (taken, left, n)
    → IsRead limit (taken ++ left) (chunk_of limit true (taken, left, n))
unfolding chunk_of
chunk_of-IsRead limit large taken [] n valid cut =
    chunk_end-IsRead limit n large taken valid cut (ltb n limit) refl
chunk_of-IsRead limit large [] (r ∷ s) n valid cut =
    let counted = cut.counted ∙ sym (counted_none 0) in
    elim cut.stopped [ inl none_left ↦ ground arith | inr full ↦ ground arith ]
chunk_of-IsRead limit large (t ∷ taken) (r ∷ s) n valid cut =
    chunk-IsRead limit n t taken (r ∷ s) valid cut

IsCut-IsRead :
    (limit : ℕ)
    → 2 ≤ limit
    → (taken left : Text) → (n : ℕ) → (runes : Text) → taken ++ left ≡ runes
    → All IsRune runes
    → IsCut limit 0 runes (taken, left, n)
    → IsRead limit runes (chunk_of limit true (taken, left, n))
IsCut-IsRead limit large taken left n runes whole =
    subst
      (λ t.
        All IsRune t
        → IsCut limit 0 t (taken, left, n)
        → IsRead limit t (chunk_of limit true (taken, left, n)))
      whole (chunk_of-IsRead limit large taken left n)

read_utf16_chunk-IsRead :
    (limit : ℕ)
    → 2 ≤ limit
    → (runes : Text) → All IsRune runes
    → IsRead limit runes (read_utf16_chunk limit (record { items = runes; at_eof = true }))
unfolding read_utf16_chunk
read_utf16_chunk-IsRead limit large runes valid =
    let cut = take_units-IsCut limit 0 runes valid in
    IsCut-IsRead limit large _ _ _ runes cut.whole valid cut

-- The bytes of a chunk of at most limit units.
abbrev pub IsChunk : ℕ → List ℕ → Type 0
IsChunk limit units = (0 < length units) × (length units ≤ limit)

IsStream : ℕ → Text → List (List ℕ) × Bool → Type 0
IsStream limit runes (chunks, end) =
    (end ≡ true) × (flatten chunks ≡ utf16_encode runes) × All (IsChunk limit) chunks

no_more-IsStream : (limit : ℕ) → IsStream limit [] ([], true)
unfolding IsStream flatten utf16_encode
no_more-IsStream limit = (refl, refl, tt)

next-IsStream :
    (limit : ℕ)
    → (runes : Text) → (units : List ℕ) → (rest : Text)
    → units ++ utf16_encode rest ≡ utf16_encode runes
    → IsChunk limit units
    → (more : List (List ℕ) × Bool) → IsStream limit rest more
    → IsStream limit runes (units ∷ more.0, more.1)
unfolding IsStream flatten
next-IsStream limit runes units rest split is_chunk (chunks, end) (done, joined, are_chunks) =
    (done, ap (λ u. units ++ u) joined ∙ split, (is_chunk, are_chunks))

after_read-IsStream :
    (limit fuel : ℕ)
    → {runes : Text} → length runes < suc fuel
    → (loop : Text → List (List ℕ) × Bool)
    → ((rest : Text) → All IsRune rest → length rest < fuel → IsStream limit rest (loop rest))
    → {read : Chunk} → IsRead limit runes read
    → IsStream limit runes (after_read loop read)
unfolding after_read
after_read-IsStream limit fuel enough loop streams no_more = no_more-IsStream limit
after_read-IsStream limit fuel enough loop streams
      (some_more units rest split is_chunk shorter valid) =
    next-IsStream limit _ units rest split is_chunk (loop rest) (streams rest valid (omega arith))

-- The chunks of a reader of runes that ends at io.EOF, for a limit of at least two units and fuel
-- for one read more than there are runes: the loop ends at io.EOF, the chunks make up the UTF-16
-- encoding of all the runes, and each has at least one unit and at most the limit.
pub utf16_chunks-utf16_encode :
    (limit fuel : ℕ)
    → 2 ≤ limit
    → (runes : Text) → All IsRune runes
    → length runes < fuel
    → let (chunks, end) = utf16_chunks fuel limit (record { items = runes; at_eof = true }) in
      (end ≡ true) × (flatten chunks ≡ utf16_encode runes) × All (IsChunk limit) chunks
unfolding utf16_chunks IsStream
utf16_chunks-utf16_encode limit zero large runes valid enough = ground arith
utf16_chunks-utf16_encode limit (suc fuel) large runes valid enough =
    after_read-IsStream limit fuel enough _
      (λ rest all. λ less. utf16_chunks-utf16_encode limit fuel large rest all less)
      (read_utf16_chunk-IsRead limit large runes valid)
