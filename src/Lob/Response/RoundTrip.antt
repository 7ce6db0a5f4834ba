-- ===== src/Lob/Response/RoundTrip.antt =====
-- lob.go readLobResponse: the frames that it reads back.
use go_hsql.Base.{
  ℕ, ◌*◌, ◌^◌, ◌<◌, ◌≡◌, refl, ap, ◌∙◌, true, false, List, [], ◌∷◌, ◌++◌, append_assoc, arith, ltb,
  length, length-append, take-append, drop-append, subst,
}
use go_hsql.Base.Int.{ℤ, pos, negsuc}
use go_hsql.Base.Words.{Bytes, IsInt}
use go_hsql.Proto.Const.{mode_none, mode_large_object_op, lob_resp_get_bytes, lob_resp_get_chars}
use go_hsql.Proto.Frame.{read_full, read_byte}
use go_hsql.Proto.RowOutput.{write_int, write_long}
use go_hsql.Lob.Frames.{Session, write_lob_header, write_utf16}
use go_hsql.Lob.Response.{
  LobResponse, received, ◌>>=◌, of_stream, read_i32, read_i64, read_padded, skip_byte, read_units,
  read_block, no_block, read_status, read_byte_block, read_char_block, is_status, read_fields,
  read_lob_frame, read_lob_response,
}

read_i32-write_int :
    (v : ℤ) → (rest : Bytes) → IsInt 32 v → read_i32 (write_int v ++ rest) ≡ (v, rest)
unfolding read_i32 read_padded write_int
read_i32-write_int (pos n) rest h = ground arith
read_i32-write_int (negsuc n) rest h = ground arith

read_i64-write_long :
    (v : ℤ) → (rest : Bytes) → IsInt 64 v → read_i64 (write_long v ++ rest) ≡ (v, rest)
unfolding read_i64 read_padded write_long
read_i64-write_long (pos n) rest h = ground arith
read_i64-write_long (negsuc n) rest h = ground arith

read_units-write_utf16 : (units : List ℕ) → read_units (write_utf16 units) ≡ units
unfolding read_units write_utf16
read_units-write_utf16 [] = refl
read_units-write_utf16 (u ∷ units) =
    rw (read_units-write_utf16 units) (ap (λ n. n ∷ units) (omega arith))

length-write_utf16 : (units : List ℕ) → length (write_utf16 units) ≡ length units * 2
unfolding write_utf16
length-write_utf16 [] = refl
length-write_utf16 (u ∷ units) = let rest = length-write_utf16 units in omega arith

-- What a server answers: a status, or a block at an offset.
pub data LobReply : Type 0 where
  status : ℤ → ℤ → LobReply
  byte_reply : ℤ → Bytes → LobReply
  char_reply : ℤ → List ℕ → LobReply

-- Its frame, with the terminator.
unfoldable pub reply_bytes : Session → ℤ → LobReply → Bytes
reply_bytes c id (status t n) = write_lob_header c t id ++ (write_long n ++ (mode_none ∷ []))
reply_bytes c id (byte_reply off b) =
    write_lob_header c lob_resp_get_bytes id
    ++ (write_long off ++ (write_long (pos (length b)) ++ (b ++ (mode_none ∷ []))))
reply_bytes c id (char_reply off units) =
    write_lob_header c lob_resp_get_chars id
    ++ (write_long off
        ++ (write_long (pos (length units)) ++ (write_utf16 units ++ (mode_none ∷ []))))

unfoldable pub reply_fields : LobReply → LobResponse
unfolding no_block
reply_fields (status t n) = no_block t n
reply_fields (byte_reply off b) = record {
  sub_type = lob_resp_get_bytes;
  block_offset = off;
  block_length = pos (length b);
  byte_block = b;
  char_block = [];
}
reply_fields (char_reply off units) = record {
  sub_type = lob_resp_get_chars;
  block_offset = off;
  block_length = pos (length units);
  byte_block = [];
  char_block = units;
}

unfoldable pub IsReply : LobReply → Type 0
IsReply (status t n) = (is_status t ≡ true) × IsInt 32 t × IsInt 64 n
IsReply (byte_reply off b) = IsInt 64 off × (length b < 2 ^ 63)
IsReply (char_reply off units) = IsInt 64 off × (length units < 2 ^ 63)

abbrev pub IsSession : Session → Type 0
IsSession c = IsInt 32 c.database_id × IsInt 64 c.session_id

read_lob_frame-header :
    (c : Session)
    → (id t : ℤ) → (s : Bytes) → IsSession c
    → IsInt 64 id
    → IsInt 32 t
    → read_lob_frame (
        write_int c.database_id
        ++ (write_long c.session_id ++ (write_long id ++ (write_int t ++ s))))
      ≡ read_fields t s
unfolding read_lob_frame
read_lob_frame-header c id t s (database, session) is_id is_type =
    rw
      (
        read_i32-write_int c.database_id
            (write_long c.session_id ++ (write_long id ++ (write_int t ++ s))) database,
        read_i64-write_long c.session_id (write_long id ++ (write_int t ++ s)) session,
        read_i64-write_long id (write_int t ++ s) is_id,
        read_i32-write_int t s is_type,
      )
      refl

header_apart :
    (c : Session)
    → (id t : ℤ) → (s : Bytes)
    → write_lob_header c t id ++ s
      ≡ mode_large_object_op
        ∷ (write_int c.database_id
            ++ (write_long c.session_id ++ (write_long id ++ (write_int t ++ s))))
unfolding write_lob_header
header_apart c id t s =
    ap (λ b. mode_large_object_op ∷ b)
      (append_assoc (write_int c.database_id)
          (write_long c.session_id ++ (write_long id ++ write_int t)) s
        ∙ ap (λ b. write_int c.database_id ++ b)
            (append_assoc (write_long c.session_id) (write_long id ++ write_int t) s
              ∙ ap (λ b. write_long c.session_id ++ b)
                  (append_assoc (write_long id) (write_int t) s)))

read_lob_response-header :
    (c : Session)
    → (id t : ℤ) → (s : Bytes) → IsSession c
    → IsInt 64 id
    → IsInt 32 t
    → read_lob_response (write_lob_header c t id ++ s) ≡ read_fields t s
unfolding read_lob_response read_byte of_stream ◌>>=◌
read_lob_response-header c id t s session is_id is_type =
    rw (header_apart c id t s) (read_lob_frame-header c id t s session is_id is_type)

not_shorter : (b s : Bytes) → ltb (length (b ++ s)) (length b) ≡ false
not_shorter b s = rw (length-append b s) (ground arith)

read_full-append :
    (n : ℕ) → (b s : Bytes) → length b ≡ n → of_stream (read_full n (b ++ s)) ≡ received b s
unfolding of_stream read_full
read_full-append n b s e =
    subst (λ m. of_stream (read_full m (b ++ s)) ≡ received b s) e
      (rw (not_shorter b s, take-append b s, drop-append b s) refl)

read_block-append :
    (width n : ℕ)
    → (b s : Bytes) → length b ≡ n * width
    → read_block width (pos n) (b ++ s) ≡ received b s
unfolding read_block
read_block-append width n b s e = read_full-append (n * width) b s e

block_apart :
    (off n body rest : Bytes)
    → (off ++ (n ++ (body ++ (mode_none ∷ [])))) ++ rest
      ≡ off ++ (n ++ (body ++ (mode_none ∷ rest)))
block_apart off n body rest =
    append_assoc off (n ++ (body ++ (mode_none ∷ []))) rest
    ∙ ap (λ b. off ++ b)
        (append_assoc n (body ++ (mode_none ∷ [])) rest
          ∙ ap (λ b. n ++ b) (append_assoc body (mode_none ∷ []) rest))

-- A frame that a server sends, for a session and an id in range, with whatever follows it: the
-- reader gives its sub-type, its offset, its length and its block back, and stops behind it.
pub read_lob_response-reply_bytes :
    (c : Session)
    → (id : ℤ) → (r : LobReply) → (rest : Bytes) → IsSession c
    → IsInt 64 id
    → IsReply r
    → read_lob_response (reply_bytes c id r ++ rest) ≡ received (reply_fields r) rest
unfolding reply_bytes reply_fields IsReply read_fields read_status read_byte_block read_char_block
    ◌>>=◌ skip_byte
read_lob_response-reply_bytes c id (status t n) rest session is_id (is_status, is_type, is_length) =
    rw
      (
        append_assoc (write_lob_header c t id) (write_long n ++ (mode_none ∷ [])) rest,
        read_lob_response-header c id t ((write_long n ++ (mode_none ∷ [])) ++ rest) session is_id
            is_type,
        is_status,
        append_assoc (write_long n) (mode_none ∷ []) rest,
        read_i64-write_long n (mode_none ∷ rest) is_length,
      )
      refl
read_lob_response-reply_bytes c id (byte_reply off b) rest session is_id (is_off, small) =
    rw
      (
        append_assoc (write_lob_header c lob_resp_get_bytes id)
            (write_long off ++ (write_long (pos (length b)) ++ (b ++ (mode_none ∷ [])))) rest,
        read_lob_response-header c id lob_resp_get_bytes
            ((write_long off ++ (write_long (pos (length b)) ++ (b ++ (mode_none ∷ [])))) ++ rest)
            session is_id (omega arith),
        block_apart (write_long off) (write_long (pos (length b))) b rest,
        read_i64-write_long off (write_long (pos (length b)) ++ (b ++ (mode_none ∷ rest))) is_off,
        read_i64-write_long (pos (length b)) (b ++ (mode_none ∷ rest)) small,
        read_block-append 1 (length b) b (mode_none ∷ rest) (omega arith),
      )
      refl
read_lob_response-reply_bytes c id (char_reply off units) rest session is_id (is_off, small) =
    rw
      (
        append_assoc (write_lob_header c lob_resp_get_chars id)
            (write_long off
              ++ (write_long (pos (length units)) ++ ((write_utf16 units) ++ (mode_none ∷ []))))
            rest,
        read_lob_response-header c id lob_resp_get_chars
            ((write_long off
                ++ (write_long (pos (length units)) ++ ((write_utf16 units) ++ (mode_none ∷ []))))
              ++ rest)
            session is_id (omega arith),
        block_apart (write_long off) (write_long (pos (length units))) (write_utf16 units) rest,
        read_i64-write_long off
            (write_long (pos (length units)) ++ ((write_utf16 units) ++ (mode_none ∷ rest))) is_off,
        read_i64-write_long (pos (length units)) ((write_utf16 units) ++ (mode_none ∷ rest)) small,
        read_block-append 2 (length units) (write_utf16 units) (mode_none ∷ rest)
            (length-write_utf16 units),
        read_units-write_utf16 units,
      )
      refl
