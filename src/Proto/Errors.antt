-- ===== src/Proto/Errors.antt =====
-- The errors that package proto returns, with what their messages print.
use go_hsql.Base.{ℕ}
use go_hsql.Base.Int.{ℤ}
use go_hsql.Proto.Utf8.{Text}

pub data Error : Type 0 where
  -- ErrShortBuffer, and what bufio and io.ReadFull return at the end of the stream.
  short_buffer end_of_file unexpected_eof : Error
  invalid_frame_length : ℤ → ℕ → Error
  -- WriteValue and asDecimal.
  unsupported_write : ℤ → Error
  array_value_required : Error
  lob_ref_required : ℤ → Error
  not_a_decimal : Error
  invalid_decimal : Text → Error
  -- ReadValue and readMetadata.
  unsupported_read : ℤ → Error
  unknown_metadata : ℤ → Error
  -- EncodePayload and DecodeResult.
  cannot_encode cannot_decode : ℕ → Error
  decoding : ℕ → Error → Error

-- A value, an error, or a run-time panic (an index out of range, a slice of negative length).
pub data Outcome (A : Type 0) : Type 0 where
  ok : A → Outcome A
  err : Error → Outcome A
  panic : Outcome A

infixl 5 ◌>>=◌
abbrev pub ◌>>=◌ : {A B : Type 0} → Outcome A → (A → Outcome B) → Outcome B
ok a >>= f = f a
err e >>= f = err e
panic >>= f = panic
