-- ===== src/Proto/RowInput/RoundTrip.antt =====
-- Each Read method reads what the Write method of its name wrote, and leaves what follows.
use go_hsql.Base.{
  ℕ, ◌^◌, ◌<◌, ◌≡◌, ap, ◌∙◌, Bool, [], ◌++◌, append_assoc, arith, ltb-false, length, length-append,
  All, take-append, drop-append,
}
use go_hsql.Base.Int.{ℤ, pos, negsuc}
use go_hsql.Base.Words.{Bytes, to_word, of_word, wrap, IsInt, of_word-to_word_32}
use go_hsql.Proto.Utf8.{Text, IsRune, encode_modified_utf8, decode_modified_utf8}
use go_hsql.Proto.Utf8.RoundTrip.{decode_modified_utf8-encode_modified_utf8}
use go_hsql.Proto.BigInt.{big_int_to_twos_complement}
use go_hsql.Proto.BigInt.RoundTrip.{twos_complement_to_big_int-big_int_to_twos_complement}
use go_hsql.Proto.RowOutput.{
  write_u8, write_bool, write_short, write_int, write_long, write_type, write_double, write_bytes,
  write_string, write_decimal,
}
use go_hsql.Proto.RowInput.{
  sized, new_row_input, read_u8, read_bool, read_short, read_int, read_long, read_type, read_double,
  read_bytes, read_string, read_decimal,
}

pub read_u8-write_u8 :
    (b : ℕ) (rest : Bytes) → read_u8 (new_row_input (write_u8 b ++ rest)) ≡ (b, new_row_input rest)
unfolding read_u8 write_u8
read_u8-write_u8 b rest = ground arith

pub read_bool-write_bool :
    (v : Bool) (rest : Bytes)
    → read_bool (new_row_input (write_bool v ++ rest)) ≡ (v, new_row_input rest)
unfolding read_bool read_u8 write_bool
read_bool-write_bool v rest = ground arith

pub read_short-write_short :
    (v : ℤ) (rest : Bytes)
    → IsInt 16 v
    → read_short (new_row_input (write_short v ++ rest)) ≡ (v, new_row_input rest)
unfolding read_short write_short
read_short-write_short (pos n) rest h = ground arith
read_short-write_short (negsuc n) rest h = ground arith

pub read_int-write_int :
    (v : ℤ) (rest : Bytes)
    → IsInt 32 v
    → read_int (new_row_input (write_int v ++ rest)) ≡ (v, new_row_input rest)
unfolding read_int write_int
read_int-write_int (pos n) rest h = ground arith
read_int-write_int (negsuc n) rest h = ground arith

pub read_long-write_long :
    (v : ℤ) (rest : Bytes)
    → IsInt 64 v
    → read_long (new_row_input (write_long v ++ rest)) ≡ (v, new_row_input rest)
unfolding read_long write_long
read_long-write_long (pos n) rest h = ground arith
read_long-write_long (negsuc n) rest h = ground arith

pub read_type-write_type :
    (t : ℤ) (rest : Bytes)
    → IsInt 16 t
    → read_type (new_row_input (write_type t ++ rest)) ≡ (t, new_row_input rest)
unfolding read_type write_type
read_type-write_type t rest h = read_short-write_short t rest h

word_of_word : (p : ℕ) → p < 2 ^ 64 → to_word 64 (of_word 64 p) ≡ p
word_of_word p h = ground arith

IsInt-of_word : (p : ℕ) → p < 2 ^ 64 → IsInt 64 (of_word 64 p)
IsInt-of_word p h = ground arith

pub read_double-write_double :
    (bits : ℕ) (rest : Bytes)
    → bits < 2 ^ 64
    → read_double (new_row_input (write_double bits ++ rest)) ≡ (bits, new_row_input rest)
unfolding write_double read_double
read_double-write_double bits rest h =
    rw (read_long-write_long (of_word 64 bits) rest (IsInt-of_word bits h))
      (ap (λ p. (p, new_row_input rest)) (word_of_word bits h))

-- The bytes behind a length prefix, once the prefix has been read.
sized_lem :
    {A : Type 0} (empty : A) (f : Bytes → A) (b rest : Bytes)
    → sized empty f (pos (length b)) (new_row_input (b ++ rest)) ≡ (f b, new_row_input rest)
unfolding sized
sized_lem empty f b rest =
    rw (ltb-false (length (b ++ rest)) (length b) (omega (arith, length-append b rest)))
      (rw (take-append b rest, drop-append b rest))

pub wrap_length : (n : ℕ) → n < 2 ^ 31 → wrap 32 (pos n) ≡ pos n
wrap_length n h = of_word-to_word_32 (pos n) h

-- A length that an int32 holds comes back in front of the bytes.
read_length :
    (b rest : Bytes)
    → length b < 2 ^ 31
    → read_int (new_row_input (write_bytes b ++ rest)) ≡ (pos (length b), new_row_input (b ++ rest))
unfolding write_bytes
read_length b rest h =
    rw (wrap_length (length b) h, append_assoc) (read_int-write_int (pos (length b)) (b ++ rest) h)

pub read_bytes-write_bytes :
    (b rest : Bytes)
    → length b < 2 ^ 31
    → read_bytes (new_row_input (write_bytes b ++ rest)) ≡ (b, new_row_input rest)
unfolding read_bytes
read_bytes-write_bytes b rest h = rw (read_length b rest h) (sized_lem [] (λ c. c) b rest)

pub read_string-write_string :
    (s : Text) (rest : Bytes)
    → All IsRune s
    → length (encode_modified_utf8 s) < 2 ^ 31
    → read_string (new_row_input (write_string s ++ rest)) ≡ (s, new_row_input rest)
unfolding read_string write_string
read_string-write_string s rest valid h = rw (read_length (encode_modified_utf8 s) rest h) (
    sized_lem [] decode_modified_utf8 (encode_modified_utf8 s) rest
    ∙ ap (λ t. (t, new_row_input rest)) (decode_modified_utf8-encode_modified_utf8 s valid))

pub read_decimal-write_decimal :
    (unscaled scale : ℤ) (rest : Bytes)
    → length (big_int_to_twos_complement unscaled) < 2 ^ 31
    → IsInt 32 scale
    → read_decimal (new_row_input (write_decimal unscaled scale ++ rest))
      ≡ ((unscaled, scale), new_row_input rest)
unfolding read_decimal write_decimal
read_decimal-write_decimal unscaled scale rest h hs = rw (
  append_assoc,
  read_bytes-write_bytes (big_int_to_twos_complement unscaled) (write_int scale ++ rest) h,
  read_int-write_int scale rest hs,
  twos_complement_to_big_int-big_int_to_twos_complement unscaled,
)
