-- ===== src/Lob/Response.antt =====
-- lob.go readLobResponse. The stream c.br is the list of the bytes that are still to be read.
pub mod RoundTrip
use go_hsql.Base.{
  ℕ, ◌+◌, ◌-◌, ◌*◌, ◌^◌, Bool, ◌||◌, List, [], ◌∷◌, ◌++◌, ltb, ◌==◌, if◌then◌else◌, length, get_or,
  take, drop, replicate,
}
use go_hsql.Base.Int.{ℤ, pos, negsuc, eqb_ℤ}
use go_hsql.Base.Words.{Bytes, of_word}
use go_hsql.Proto.Const.{
  mode_error, mode_large_object_op, lob_resp_get_bytes, lob_resp_set, lob_resp_get_chars,
  lob_resp_create_bytes, lob_resp_create_chars, lob_resp_truncate,
}
use go_hsql.Proto.Errors.{Error, Outcome, ok, err, panic}
use go_hsql.Proto.Frame.{Stream, got, failed, read_full, read_byte}
use go_hsql.Proto.Result.{Result}
use go_hsql.Proto.Result.Decode.{decode_result}
use go_hsql.Conn.{ConnError, error_from_result}

pub data LobError : Type 0 where
  connection_closed : LobError
  write_error : LobError
  proto_error : Error → LobError
  error_result : ConnError → LobError
  unexpected_mode : ℕ → LobError
  unsupported_sub_type : ℤ → LobError

-- lobResponse.
pub record LobResponse : Type 0 where
  pub sub_type : ℤ
  pub block_offset : ℤ
  pub block_length : ℤ
  pub byte_block : Bytes
  pub char_block : List ℕ

-- A value and the unread stream, an error, or a run-time panic.
pub data Receipt (A : Type 0) : Type 0 where
  received : A → Bytes → Receipt A
  refused : LobError → Receipt A
  panicked : Receipt A

infixl 5 ◌>>=◌
unfoldable pub ◌>>=◌ : {A B : Type 0} → Receipt A → (A → Bytes → Receipt B) → Receipt B
received a s >>= f = f a s
refused e >>= f = refused e
panicked >>= f = panicked

unfoldable pub of_stream : {A : Type 0} → Stream A → Receipt A
of_stream (got a s) = received a s
of_stream (failed e) = refused (proto_error e)

-- io.ReadFull into n zero bytes whose error is dropped.
unfoldable pub read_padded : ℕ → Bytes → Bytes × Bytes
read_padded n s = (take n (s ++ replicate n 0), drop n s)

unfoldable pub read_i32 : Bytes → ℤ × Bytes
unfolding read_padded
read_i32 s =
    let (b, rest) = read_padded 4 s in
    (
      of_word 32
          (get_or b 0 0 * 2 ^ 24 + get_or b 1 0 * 2 ^ 16 + get_or b 2 0 * 2 ^ 8 + get_or b 3 0),
      rest,
    )

unfoldable pub read_i64 : Bytes → ℤ × Bytes
unfolding read_padded
read_i64 s =
    let (b, rest) = read_padded 8 s in
    (
      of_word 64 (
          get_or b 0 0 * 2 ^ 56
          + get_or b 1 0 * 2 ^ 48
          + get_or b 2 0 * 2 ^ 40
          + get_or b 3 0 * 2 ^ 32
          + get_or b 4 0 * 2 ^ 24
          + get_or b 5 0 * 2 ^ 16
          + get_or b 6 0 * 2 ^ 8
          + get_or b 7 0),
      rest,
    )

-- The terminator, whose absence is no error.
unfoldable pub skip_byte : Bytes → Bytes
skip_byte s = drop 1 s

-- binary.BigEndian.Uint16 of each pair of bytes.
unfoldable pub read_units : Bytes → List ℕ
read_units (h ∷ l ∷ s) = (h * 256 + l) ∷ read_units s
read_units s = []

-- make([]byte, n) for a length off the wire, which panics where it is negative, and ReadFull.
unfoldable pub read_block : ℕ → ℤ → Bytes → Receipt Bytes
unfolding of_stream read_full
read_block width (pos n) s = of_stream (read_full (n * width) s)
read_block width (negsuc n) s = panicked

unfoldable pub no_block : ℤ → ℤ → LobResponse
no_block sub_type block_length = record {
  sub_type = sub_type;
  block_offset = pos 0;
  block_length = block_length;
  byte_block = [];
  char_block = [];
}

unfoldable pub read_status : ℤ → Bytes → Receipt LobResponse
unfolding no_block skip_byte
read_status sub_type s =
    let (length, rest) = read_i64 s in received (no_block sub_type length) (skip_byte rest)

unfoldable pub read_byte_block : ℤ → Bytes → Receipt LobResponse
unfolding skip_byte
read_byte_block sub_type s =
    let (off, s2) = read_i64 s in
    let (length, s3) = read_i64 s2 in
    read_block 1 length s3 >>= λ b rest.
    received
      (record {
        sub_type = sub_type;
        block_offset = off;
        block_length = length;
        byte_block = b;
        char_block = [];
      })
      (skip_byte rest)

unfoldable pub read_char_block : ℤ → Bytes → Receipt LobResponse
unfolding skip_byte
read_char_block sub_type s =
    let (off, s2) = read_i64 s in
    let (length, s3) = read_i64 s2 in
    read_block 2 length s3 >>= λ raw rest.
    received
      (record {
        sub_type = sub_type;
        block_offset = off;
        block_length = length;
        byte_block = [];
        char_block = read_units raw;
      })
      (skip_byte rest)

unfoldable pub is_status : ℤ → Bool
is_status t =
    (eqb_ℤ t lob_resp_set || eqb_ℤ t lob_resp_create_bytes)
    || (eqb_ℤ t lob_resp_create_chars || eqb_ℤ t lob_resp_truncate)

-- The switch over the sub-type, with what follows it.
unfoldable pub read_fields : ℤ → Bytes → Receipt LobResponse
unfolding is_status
read_fields t s =
    if is_status t
    then read_status t s
    else if eqb_ℤ t lob_resp_get_bytes
    then read_byte_block t s
    else if eqb_ℤ t lob_resp_get_chars
    then read_char_block t s
    else refused (unsupported_sub_type t)

-- A LARGE_OBJECT_OP frame behind its mode: databaseID, sessionID, lobID and the sub-type.
unfoldable pub read_lob_frame : Bytes → Receipt LobResponse
read_lob_frame s =
    let (database_id, s2) = read_i32 s in
    let (session_id, s3) = read_i64 s2 in
    let (lob_id, s4) = read_i64 s3 in let (sub_type, s5) = read_i32 s4 in read_fields sub_type s5

-- An ERROR frame behind its mode.
unfoldable pub refused_by : Outcome Result → Receipt LobResponse
refused_by (ok res) = refused (error_result (error_from_result res))
refused_by (err e) = refused (proto_error e)
refused_by panic = panicked

-- int(Uint32) - 4 is negative below 4, and then make panics.
unfoldable pub read_error_frame : Bytes → Receipt LobResponse
unfolding of_stream read_full refused_by
read_error_frame s = of_stream (read_full 4 s) >>= λ b rest.
    let n = get_or b 0 0 * 2 ^ 24 + get_or b 1 0 * 2 ^ 16 + get_or b 2 0 * 2 ^ 8 + get_or b 3 0 in
    if ltb n 4
    then panicked
    else (of_stream (read_full (n - 4) rest) >>= λ payload after.
        refused_by (decode_result mode_error payload))

unfoldable pub read_lob_response : Bytes → Receipt LobResponse
unfolding read_byte of_stream
read_lob_response s = of_stream (read_byte s) >>= λ mode rest.
    if mode == mode_error
    then read_error_frame rest
    else if mode == mode_large_object_op
    then read_lob_frame rest
    else refused (unexpected_mode mode)
