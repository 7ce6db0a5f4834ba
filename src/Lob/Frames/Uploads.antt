-- ===== src/Lob/Frames/Uploads.antt =====
-- lob.go: what the segmented creates leave behind on a server that carries out their frames.
use go_hsql.Base.{
  ℕ, zero, suc, ◌+◌, ◌≤◌, ◌≡◌, refl, sym, ap, ◌∙◌, Bool, true, false, ◌&&◌, Option, none, some,
  List, [], ◌∷◌, ◌++◌, append_assoc, append-nil, arith, leb, ◌==◌, if◌then◌else◌, length, set,
  length-append, All, take, drop, flatten,
}
use go_hsql.Base.Int.{ℤ, eqb_ℤ}
use go_hsql.Proto.Const.{
  lob_req_create_bytes, lob_req_set_bytes, lob_req_create_chars, lob_req_set_chars,
}
use go_hsql.Proto.Utf8.{IsRune}
use go_hsql.Proto.Types.Value.{Source}
use go_hsql.Lob.Utf16.{utf16_encode}
use go_hsql.Lob.Utf16.Chunks.{IsChunk, utf16_chunks-utf16_encode}
use go_hsql.Lob.Frames.{
  max_lob_chunk, Segment, segment, segments, blob_segments, clob_chunks, clob_segments,
}

eqb_ℤ-refl : (a : ℤ) → eqb_ℤ a a ≡ true
eqb_ℤ-refl a = ground arith

leb_refl : (n : ℕ) → leb n n ≡ true
leb_refl n = ground arith

module _ {A : Type 0} (create set : ℤ) where
  -- A frame that overwrites a LOB from its offset on, which may not lie behind the end.
  unfoldable pub overwrite : Segment A → List A → Option (List A)
  overwrite s content =
      if eqb_ℤ s.sub_type set && leb s.off (length content)
      then some (take s.off content ++ (s.units ++ drop (s.off + length s.units) content))
      else none

  unfoldable pub overwrite_all : List (Segment A) → Option (List A) → Option (List A)
  overwrite_all [] content = content
  overwrite_all (s ∷ more) none = none
  overwrite_all (s ∷ more) (some content) = overwrite_all more (overwrite s content)

  -- What a LOB holds behind the frames: the first one creates it, at offset 0.
  unfoldable pub replay : List (Segment A) → Option (List A)
  unfolding overwrite_all
  replay [] = none
  replay (s ∷ more) =
      if eqb_ℤ s.sub_type create && s.off == 0 then overwrite_all more (some s.units) else none

  take-length : (xs : List A) → take (length xs) xs ≡ xs
  take-length [] = refl
  take-length (x ∷ xs) = ap (λ ys. x ∷ ys) (take-length xs)

  drop_beyond : (n : ℕ) → (xs : List A) → length xs ≤ n → drop n xs ≡ []
  drop_beyond zero [] beyond = refl
  drop_beyond (suc n) [] beyond = refl
  drop_beyond zero (x ∷ xs) beyond = ground arith
  drop_beyond (suc n) (x ∷ xs) beyond = drop_beyond n xs (omega arith)

  overwrite_at_end :
      (units content : List A)
      → overwrite (segment set (length content) units) content ≡ some (content ++ units)
  unfolding overwrite
  overwrite_at_end units content =
      rw
        (
          eqb_ℤ-refl set,
          leb_refl (length content),
          take-length content,
          drop_beyond (length content + length units) content (omega arith),
          append-nil units,
        )
        refl

  overwrite_all-segments :
      (reads : List (List A))
      → (content : List A) → (off : ℕ) → off ≡ length content
      → overwrite_all (segments create set false off true reads) (some content)
        ≡ some (content ++ flatten reads)
  unfolding segments flatten overwrite_all
  overwrite_all-segments [] content off at_end = ap some (sym (append-nil content))
  overwrite_all-segments ([] ∷ reads) content off at_end =
      overwrite_all-segments reads content off at_end
  overwrite_all-segments ((a ∷ units) ∷ reads) content off at_end =
      rw
        (
          at_end,
          overwrite_at_end (a ∷ units) content,
          overwrite_all-segments reads (content ++ (a ∷ units))
              (length content + suc (length units)) (sym (length-append content (a ∷ units))),
        )
        (ap some (append_assoc content (a ∷ units) (flatten reads)))

  replay-segments :
      (reads : List (List A))
      → replay (segments create set true 0 true reads) ≡ some (flatten reads)
  unfolding replay segments flatten
  replay-segments [] = rw (eqb_ℤ-refl create) refl
  replay-segments ([] ∷ reads) = replay-segments reads
  replay-segments ((a ∷ units) ∷ reads) =
      rw (eqb_ℤ-refl create)
        (overwrite_all-segments reads (a ∷ units) (0 + suc (length units)) (omega arith))

-- A reader that gives these items and then io.EOF.
abbrev pub up_to_eof : {A : Type 0} → List A → Source A
up_to_eof items = record { items = items; at_eof = true }

-- A BLOB parameter of unknown length whose reader ends at io.EOF: the server that carries out the
-- frames of its content holds, behind the last of them, all the bytes that the reader gave.
pub replay-blob_segments :
    (reads : List (List ℕ))
    → replay lob_req_create_bytes lob_req_set_bytes (blob_segments (up_to_eof reads))
      ≡ some (flatten reads)
unfolding blob_segments
replay-blob_segments reads = replay-segments lob_req_create_bytes lob_req_set_bytes reads

segments-sizes :
    (create set : ℤ)
    → (first : Bool) → (limit off : ℕ) → (reads : List (List ℕ)) → All (IsChunk limit) reads
    → All (λ s. length s.units ≤ limit) (segments create set first off true reads)
unfolding segments
segments-sizes create set true limit off [] sizes = (omega arith, tt)
segments-sizes create set false limit off [] sizes = tt
segments-sizes create set first limit off ([] ∷ reads) (size, sizes) =
    segments-sizes create set first limit off reads sizes
segments-sizes create set first limit off ((a ∷ units) ∷ reads) (size, sizes) =
    (size.1, segments-sizes create set false limit (off + length (a ∷ units)) reads sizes)

clob_upload :
    (chunks : List (List ℕ))
    → (end : Bool) → (units : List ℕ) → end ≡ true
    → flatten chunks ≡ units
    → All (IsChunk max_lob_chunk) chunks
    → (replay lob_req_create_chars lob_req_set_chars
          (segments lob_req_create_chars lob_req_set_chars true 0 end chunks)
        ≡ some units)
      × All
          (λ s. length s.units ≤ max_lob_chunk)
          (segments lob_req_create_chars lob_req_set_chars true 0 end chunks)
clob_upload chunks true units done joined sizes = (
  replay-segments lob_req_create_chars lob_req_set_chars chunks ∙ ap some joined,
  segments-sizes lob_req_create_chars lob_req_set_chars true max_lob_chunk 0 chunks sizes,
)
clob_upload chunks false units done joined sizes = ground arith

-- A CLOB parameter whose reader gives valid runes and ends at io.EOF: the create ends without an
-- error, the server that carries out the frames of its content holds, behind the last of them, the
-- UTF-16 encoding of the text, and no frame has more than maxLobChunk code units.
pub replay-clob_segments :
    (runes : List ℕ)
    → All IsRune runes
    → ((clob_chunks (up_to_eof runes)).1 ≡ true)
      × (replay lob_req_create_chars lob_req_set_chars (clob_segments (up_to_eof runes))
          ≡ some (utf16_encode runes))
      × All (λ s. length s.units ≤ max_lob_chunk) (clob_segments (up_to_eof runes))
unfolding clob_chunks clob_segments
replay-clob_segments runes valid =
    let (done, joined, sizes) =
      utf16_chunks-utf16_encode max_lob_chunk (suc (length runes)) (omega arith) runes valid
        (omega arith) in
    let (uploaded, small) = clob_upload _ _ (utf16_encode runes) done joined sizes in
    (done, uploaded, small)
