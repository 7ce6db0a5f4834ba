-- ===== src/Proto/RowInput/Sticky.antt =====
-- The sticky error: once a read has failed, every read returns its zero value and moves nothing.
use go_hsql.Base.{
  ℕ, zero, suc, ◌^◌, ◌<◌, ◌≡◌, refl, sym, subst, Bool, true, false, some, [], ◌∷◌, ◌++◌, arith,
  length, take, length-take,
}
use go_hsql.Base.Int.{ℤ, pos}
use go_hsql.Proto.Utf8.{Text, encode_modified_utf8, decode_modified_utf8}
use go_hsql.Proto.RowOutput.{
  write_u8, write_bool, write_short, write_int, write_long, write_double, write_bytes, write_string,
}
use go_hsql.Proto.RowInput.RoundTrip.{wrap_length, read_int-write_int}
use go_hsql.Base.Words.{Bytes}
use go_hsql.Proto.BigInt.{twos_complement_to_big_int}
use go_hsql.Proto.Errors.{Error, short_buffer}
use go_hsql.Proto.RowInput.{
  RowInput, sized, new_row_input, read_u8, read_bool, read_short, read_int, read_long, read_double,
  read_bytes, read_string, read_decimal,
}

-- The input after an error: what is left, and the error.
abbrev pub failed : Bytes → Error → RowInput
failed b e = record { rest = b; err = some e }

-- After an error ReadU8, ReadBool, ReadShort, ReadInt, ReadLong, ReadDouble, ReadBytes, ReadString
-- and ReadDecimal keep the input and the error, and each returns its zero value.
pub reads_after_error :
    (b : Bytes) (e : Error)
    → (read_u8 (failed b e) ≡ (0, failed b e))
      × (read_bool (failed b e) ≡ (false, failed b e))
      × (read_short (failed b e) ≡ (pos 0, failed b e))
      × (read_int (failed b e) ≡ (pos 0, failed b e))
      × (read_long (failed b e) ≡ (pos 0, failed b e))
      × (read_double (failed b e) ≡ (0, failed b e))
      × (read_bytes (failed b e) ≡ ([], failed b e))
      × (read_string (failed b e) ≡ ([], failed b e))
      × (read_decimal (failed b e) ≡ ((pos 0, pos 0), failed b e))
unfolding read_u8 read_bool read_short read_int read_long read_double read_bytes read_string
    read_decimal sized twos_complement_to_big_int
reads_after_error b e = (refl, refl, refl, refl, refl, refl, refl, refl, refl)

-- A field of a payload, and what its Write method writes.
pub data Field : Type 0 where
  u8_field : ℕ → Field
  bool_field : Bool → Field
  short_field int_field long_field : ℤ → Field
  double_field : ℕ → Field
  bytes_field : Bytes → Field
  string_field : Text → Field

abbrev pub written : Field → Bytes
written (u8_field n) = write_u8 n
written (bool_field b) = write_bool b
written (short_field n) = write_short n
written (int_field n) = write_int n
written (long_field n) = write_long n
written (double_field x) = write_double x
written (bytes_field b) = write_bytes b
written (string_field s) = write_string s

-- An int32 holds the length of what stands behind a length prefix.
abbrev pub Fits : Field → Type 0
Fits (bytes_field b) = length b < 2 ^ 31
Fits (string_field s) = length (encode_modified_utf8 s) < 2 ^ 31
Fits f = Unit

-- A reader gives the zero value and ErrShortBuffer.
abbrev Short : {A : Type 0} → A → A × RowInput → Type 0
Short zero_value p = (p.0 ≡ zero_value) × (p.1.err ≡ some short_buffer)

-- The Read method of a field gives the zero value and ErrShortBuffer.
abbrev pub IsShort : Field → RowInput → Type 0
IsShort (u8_field n) r = Short 0 (read_u8 r)
IsShort (bool_field b) r = Short false (read_bool r)
IsShort (short_field n) r = Short (pos 0) (read_short r)
IsShort (int_field n) r = Short (pos 0) (read_int r)
IsShort (long_field n) r = Short (pos 0) (read_long r)
IsShort (double_field x) r = Short 0 (read_double r)
IsShort (bytes_field b) r = Short [] (read_bytes r)
IsShort (string_field s) r = Short [] (read_string r)

u8_short : (b : Bytes) → length b < 1 → read_u8 (new_row_input b) ≡ (0, failed b short_buffer)
unfolding read_u8
u8_short b h = ground arith

read_short-Short : (b : Bytes) → length b < 2 → Short (pos 0) (read_short (new_row_input b))
unfolding read_short
read_short-Short b h = ground arith

int_short : (b : Bytes) → length b < 4 → read_int (new_row_input b) ≡ (pos 0, failed b short_buffer)
unfolding read_int
int_short b h = ground arith

long_short :
    (b : Bytes) → length b < 8 → read_long (new_row_input b) ≡ (pos 0, failed b short_buffer)
unfolding read_long
long_short b h = ground arith

cut_lem : (n : ℕ) (b : Bytes) → n < length b → length (take n b) < length b
cut_lem n b h = omega (arith, length-take n b)

sized-Short :
    {A : Type 0} (empty : A) (f : Bytes → A) (n : ℕ) (b : Bytes)
    → length b < n
    → Short empty (sized empty f (pos n) (new_row_input b))
unfolding sized
sized-Short empty f n b h = ground arith

sized-failed :
    {A : Type 0} (empty : A) (f : Bytes → A) (b : Bytes)
    → Short empty (sized empty f (pos 0) (failed b short_buffer))
unfolding sized
sized-failed empty f b = (refl, refl)

-- The readers of the bytes behind a length, which is cut off itself or whole.
length-Short :
    {A : Type 0} (empty : A) (f : Bytes → A) (cut : Bytes)
    → length cut < 4
    → Short empty (let (m, s) = read_int (new_row_input cut) in sized empty f m s)
length-Short empty f cut h = rw (int_short cut h) (sized-failed empty f cut)

body-Short :
    {A : Type 0} (empty : A) (f : Bytes → A) (k : ℕ) (b : Bytes)
    → length b < 2 ^ 31
    → k < length b
    → Short empty (
        let (m, s) = read_int (new_row_input (write_int (pos (length b)) ++ take k b)) in
        sized empty f m s)
body-Short empty f k b h lt =
    rw (read_int-write_int (pos (length b)) (take k b) h)
      (sized-Short empty f (length b) (take k b) (cut_lem k b lt))

prefixed-Short :
    {A : Type 0} (empty : A) (f : Bytes → A) (n : ℕ) (b : Bytes)
    → length b < 2 ^ 31
    → n < length (write_int (pos (length b)) ++ b)
    → Short empty (
        let (m, s) = read_int (new_row_input (take n (write_int (pos (length b)) ++ b))) in
        sized empty f m s)
unfolding write_int
prefixed-Short empty f zero b h lt = length-Short empty f _ (omega arith)
prefixed-Short empty f (suc zero) b h lt = length-Short empty f _ (omega arith)
prefixed-Short empty f (suc (suc zero)) b h lt = length-Short empty f _ (omega arith)
prefixed-Short empty f (suc (suc (suc zero))) b h lt = length-Short empty f _ (omega arith)
prefixed-Short empty f (suc (suc (suc (suc k)))) b h lt =
    body-Short empty f k b h (omega (arith, lt))

bytes-Short :
    {A : Type 0} (empty : A) (f : Bytes → A) (n : ℕ) (b : Bytes)
    → length b < 2 ^ 31
    → n < length (write_bytes b)
    → Short empty
        (let (m, s) = read_int (new_row_input (take n (write_bytes b))) in sized empty f m s)
unfolding write_bytes
bytes-Short empty f n b h =
    subst
      (λ v.
        n < length (write_int v ++ b)
        → Short empty (
            let (m, s) = read_int (new_row_input (take n (write_int v ++ b))) in sized empty f m s))
      (sym (wrap_length (length b) h)) (prefixed-Short empty f n b h)

-- A field that is cut off anywhere before its end, the length in front of a string or of bytes
-- included, is not read: the Read method of each of the eight kinds of fields returns its zero value
-- and has set ErrShortBuffer. The length of a string or of bytes is one that an int32 holds.
pub reads-IsShort :
    (f : Field) (n : ℕ)
    → Fits f
    → n < length (written f)
    → IsShort f (new_row_input (take n (written f)))
unfolding read_bool read_double read_bytes read_string write_u8 write_bool write_short write_int
    write_long write_double write_string
reads-IsShort (u8_field x) n fits lt = rw (u8_short _ (cut_lem n (write_u8 x) lt)) (refl, refl)
reads-IsShort (bool_field true) n fits lt = rw (u8_short _ (cut_lem n (1 ∷ []) lt)) (refl, refl)
reads-IsShort (bool_field false) n fits lt = rw (u8_short _ (cut_lem n (0 ∷ []) lt)) (refl, refl)
reads-IsShort (short_field v) n fits lt = read_short-Short _ (cut_lem n (write_short v) lt)
reads-IsShort (int_field v) n fits lt = rw (int_short _ (cut_lem n (write_int v) lt)) (refl, refl)
reads-IsShort (long_field v) n fits lt =
    rw (long_short _ (cut_lem n (write_long v) lt)) (refl, refl)
reads-IsShort (double_field x) n fits lt =
    rw (long_short _ (cut_lem n (write_double x) lt)) (refl, refl)
reads-IsShort (bytes_field b) n fits lt = bytes-Short [] (λ c. c) n b fits lt
reads-IsShort (string_field s) n fits lt =
    bytes-Short [] decode_modified_utf8 n (encode_modified_utf8 s) fits lt
