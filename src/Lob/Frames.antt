-- ===== src/Lob/Frames.antt =====
-- lob.go: the LARGE_OBJECT_OP frames that send the content of LOB parameters. The writes go to
-- c.bw, whose own errors come out at its Flush: a function gives the bytes that it writes, and false
-- where it returns an error of the parameter's reader.
pub mod Uploads
use go_hsql.Base.{
  ℕ, suc, ◌+◌, ◌/◌, ◌%◌, Bool, true, false, ◌&&◌, Option, none, some, List, [], ◌∷◌, ◌++◌, leb,
  if◌then◌else◌, length, set, take, flatten,
}
use go_hsql.Base.Int.{ℤ, pos, negsuc}
use go_hsql.Base.Words.{Bytes}
use go_hsql.Proto.Const.{
  mode_large_object_op, lob_req_create_bytes, lob_req_set_bytes, lob_req_create_chars,
  lob_req_set_chars,
}
use go_hsql.Proto.RowOutput.{write_int, write_long}
use go_hsql.Proto.Types.Value.{Source}
use go_hsql.Lob.Utf16.{utf16_chunks}

abbrev pub max_lob_chunk : ℕ
max_lob_chunk = 1048576

-- The session that a frame's header names.
pub record Session : Type 0 where
  pub database_id : ℤ
  pub session_id : ℤ

-- A nil reader is none.
pub record PendingLob : Type 0 where
  pub id : ℤ
  pub is_clob : Bool
  pub payload : Bytes
  pub chars : List ℕ
  pub blob_reader : Option (Source Bytes)
  pub clob_reader : Option (Source ℕ)
  pub length : ℤ

-- writeI32 and writeI64 write the four and eight bytes of WriteInt and WriteLong.
unfoldable pub write_lob_header : Session → ℤ → ℤ → Bytes
write_lob_header c sub_type id =
    mode_large_object_op
    ∷ (write_int c.database_id
        ++ (write_long c.session_id ++ (write_long id ++ write_int sub_type)))

-- writeUTF16.
unfoldable pub write_utf16 : List ℕ → Bytes
write_utf16 [] = []
write_utf16 (u ∷ s) = u / 256 ∷ u % 256 ∷ write_utf16 s

unfoldable pub write_lob_bytes_frame : Session → ℤ → ℤ → ℕ → Bytes → Bytes
unfolding write_lob_header
write_lob_bytes_frame c sub_type id off b =
    write_lob_header c sub_type id ++ write_long (pos off) ++ write_long (pos (length b)) ++ b

unfoldable pub write_lob_chars_frame : Session → ℤ → ℤ → ℕ → List ℕ → Bytes
unfolding write_lob_header write_utf16
write_lob_chars_frame c sub_type id off chars =
    write_lob_header c sub_type id
    ++ write_long (pos off)
    ++ write_long (pos (length chars))
    ++ write_utf16 chars

-- The arguments of one call of writeLobBytesFrame or writeLobCharsFrame.
pub record Segment (A : Type 0) : Type 0 where
  pub sub_type : ℤ
  pub off : ℕ
  pub units : List A

module _ {A : Type 0} where
  abbrev pub segment : ℤ → ℕ → List A → Segment A
  segment sub_type off units = record { sub_type = sub_type; off = off; units = units }

  -- The loop over what the reader gives, which both segmented creates share: `first` is true until
  -- a frame is written, and the frame behind the loop is written where it still is.
  unfoldable pub segments : ℤ → ℤ → Bool → ℕ → Bool → List (List A) → List (Segment A)
  segments create set first off end [] = if first && end then segment create 0 [] ∷ [] else []
  segments create set first off end ([] ∷ reads) = segments create set first off end reads
  segments create set first off end ((a ∷ units) ∷ reads) =
      segment (if first then create else set) off (a ∷ units)
      ∷ segments create set false (off + length (a ∷ units)) end reads

unfoldable pub blob_segments : Source Bytes → List (Segment ℕ)
unfolding segments
blob_segments src = segments lob_req_create_bytes lob_req_set_bytes true 0 src.at_eof src.items

-- The reads that the loop makes are bounded by the number of runes.
unfoldable pub clob_chunks : Source ℕ → List (List ℕ) × Bool
clob_chunks src = utf16_chunks (suc (length src.items)) max_lob_chunk src

unfoldable pub clob_segments : Source ℕ → List (Segment ℕ)
unfolding clob_chunks segments
clob_segments src =
    let (chunks, end) = clob_chunks src in
    segments lob_req_create_chars lob_req_set_chars true 0 end chunks

-- The frames of the segments, one behind the other.
unfoldable pub segment_frames : (ℤ → ℕ → List ℕ → Bytes) → List (Segment ℕ) → Bytes
segment_frames frame [] = []
segment_frames frame (s ∷ more) = frame s.sub_type s.off s.units ++ segment_frames frame more

-- io.CopyN copies at most n bytes and returns an error where the reader has fewer.
unfoldable pub create_bytes_from_reader : Session → ℤ → ℤ → Source Bytes → Bytes × Bool
unfolding write_lob_header blob_segments segment_frames write_lob_bytes_frame
create_bytes_from_reader c id (pos n) src =
    let content = flatten src.items in
    (
      write_lob_header c lob_req_create_bytes id
          ++ write_long (pos 0)
          ++ write_long (pos n)
          ++ take n content,
      leb n (length content),
    )
create_bytes_from_reader c id (negsuc n) src = (
  segment_frames (λ sub_type. write_lob_bytes_frame c sub_type id) (blob_segments src),
  src.at_eof,
)

unfoldable pub create_chars_from_reader : Session → ℤ → Source ℕ → Bytes × Bool
unfolding clob_segments segment_frames write_lob_chars_frame clob_chunks
create_chars_from_reader c id src = (
  segment_frames (λ sub_type. write_lob_chars_frame c sub_type id) (clob_segments src),
  (clob_chunks src).1,
)

-- writeLobCreate.
unfoldable pub write_lob_create : Session → PendingLob → Bytes × Bool
unfolding create_chars_from_reader create_bytes_from_reader write_lob_chars_frame
    write_lob_bytes_frame
write_lob_create c lob =
    if lob.is_clob
    then elim lob.clob_reader [
      | some src ↦ create_chars_from_reader c lob.id src
      | none ↦ (write_lob_chars_frame c lob_req_create_chars lob.id 0 lob.chars, true)
    ]
    else elim lob.blob_reader [
      | some src ↦ create_bytes_from_reader c lob.id lob.length src
      | none ↦ (write_lob_bytes_frame c lob_req_create_bytes lob.id 0 lob.payload, true)
    ]
