-- ===== src/Proto/Frame.antt =====
-- internal/proto/frame.go. A bufio.Writer collects the bytes written; a bufio.Reader is the bytes
-- that the peer has sent, and their end is the end of the stream: ReadByte returns io.EOF there,
-- and io.ReadFull returns io.EOF on no byte at all and io.ErrUnexpectedEOF on too few.
pub mod RoundTrip
use go_hsql.Base.{
  ℕ, ◌+◌, ◌-◌, ◌*◌, ◌^◌, [], ◌∷◌, ◌++◌, ltb, ◌==◌, if◌then◌else◌, length, get_or, take, drop,
}
use go_hsql.Base.Int.{ℤ, pos, negsuc}
use go_hsql.Base.Words.{Bytes, of_word, wrap}
use go_hsql.Proto.Const.{mode_none}
use go_hsql.Proto.Errors.{Error, end_of_file, unexpected_eof, invalid_frame_length}
use go_hsql.Proto.RowOutput.{write_int}

-- A (value, error) pair: the error, or the value with the stream behind it.
pub data Stream (A : Type 0) : Type 0 where
  got : A → Bytes → Stream A
  failed : Error → Stream A

infixl 5 ◌>>=◌
abbrev pub ◌>>=◌ : {A B : Type 0} → Stream A → (A → Bytes → Stream B) → Stream B
got a rest >>= f = f a rest
failed e >>= f = failed e

-- io.ReadFull of n bytes.
unfoldable pub read_full : ℕ → Bytes → Stream Bytes
read_full n s =
    if ltb (length s) n
    then failed (if length s == 0 then end_of_file else unexpected_eof)
    else got (take n s) (drop n s)

unfoldable pub read_byte : Bytes → Stream ℕ
read_byte [] = failed end_of_file
read_byte (b ∷ s) = got b s

unfoldable pub read_int32 : Bytes → Stream ℤ
unfolding read_full
read_int32 s = read_full 4 s >>= λ b rest.
    got
      (of_word 32
        (get_or b 0 0 * 2 ^ 24 + get_or b 1 0 * 2 ^ 16 + get_or b 2 0 * 2 ^ 8 + get_or b 3 0))
      rest

-- The header's int32(4 + len(payload)) wraps; its four bytes are those of WriteInt.
unfoldable pub write_frame : ℕ → Bytes → Bytes
write_frame mode payload = mode ∷ write_int (wrap 32 (pos (4 + length payload))) ++ payload

unfoldable pub write_terminator : Bytes
write_terminator = mode_none ∷ []

-- The payload behind a length that has been read.
unfoldable pub read_payload : ℕ → ℤ → Bytes → Stream (ℕ × Bytes)
read_payload mode (negsuc n) s = failed (invalid_frame_length (negsuc n) mode)
read_payload mode (pos n) s =
    if ltb n 4
    then failed (invalid_frame_length (pos n) mode)
    else (read_full (n - 4) s >>= λ payload rest. got (mode, payload) rest)

unfoldable pub read_frame : Bytes → Stream (ℕ × Bytes)
unfolding read_byte
read_frame s = read_byte s >>= λ mode rest.
    if mode == mode_none
    then got (mode_none, []) rest
    else (read_int32 rest >>= λ n body. read_payload mode n body)
