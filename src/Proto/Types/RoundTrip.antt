-- ===== src/Proto/Types/RoundTrip.antt =====
-- ReadValue reads what WriteValue wrote.
mod Bodies
use go_hsql.Base.{ℕ, suc, ◌*◌, ◌^◌, ◌<◌, ◌≡◌, refl, ap, ◌∙◌, [], ◌++◌, append_assoc, arith, length}
use go_hsql.Base.Int.{ℤ, pos}
use go_hsql.Base.Words.{Bytes, wrap, of_word-to_word_16, of_word-to_word_32}
use go_hsql.Proto.Errors.{ok}
use go_hsql.Proto.RowOutput.{
  write_u8, write_bool, write_short, write_int, write_long, write_double, write_bytes, write_raw,
  write_string, write_decimal,
}
use go_hsql.Proto.RowInput.{RowInput, Reader, new_row_input}
use go_hsql.Proto.RowInput.RoundTrip.{
  read_bool-write_bool, read_short-write_short, read_int-write_int, read_long-write_long,
  read_double-write_double, read_bytes-write_bytes, read_string-write_string,
  read_decimal-write_decimal,
}
use go_hsql.Proto.Types.Kind.{ColumnType, simple_type, array, kind_of}
use go_hsql.Proto.Types.Value.{Value, Values, array_value, cons, size}
use go_hsql.Proto.Types.Coerce.{
  Host, as_string, as_int64, as_float64, as_bytes, as_decimal, as_bool, as_time, date_seconds,
  time_of_day_seconds,
}
use go_hsql.Proto.Types.Write.{write_kind, write_value, write_values}
use go_hsql.Proto.Types.Read.{
  next_element, read_elements, read_array_of, read_array, read_kind, read_value_with, read_value,
}
use go_hsql.Proto.Types.Sends.{
  Scalar, missing, texts, smalls, integers, bigs, doubles, booleans, decimals, dates, times,
  timestamps, binaries, bit_strings, lobs, Scalars, no_more, one_more, Sends, scalar, arrays,
}
use go_hsql.Proto.Types.RoundTrip.Bodies.{
  Arrives, read_present, read_missing, wrap_fits, unix_time_whole, tail_bytes, read_times,
  read_timestamps, read_bit_strings,
}

Scalar-Arrives : (host : Host) {c : ColumnType} {v w : Value} → Scalar c v w → Arrives host c v w
unfolding write_value write_kind read_kind
Scalar-Arrives host {c} missing = (write_u8 0, refl, λ f rest. read_missing c f rest)
Scalar-Arrives host {c} (texts {s} k h l) = (
  write_u8 1 ++ write_string s,
  unfold as_string in rw k,
  λ f rest. read_present c f (write_string s) rest (rw (k, read_string-write_string s rest h l)),
)
Scalar-Arrives host {c} (smalls {n} k h) = (
  write_u8 1 ++ write_short n,
  unfold as_int64 in rw (k, of_word-to_word_16 n h),
  λ f rest. read_present c f (write_short n) rest (rw (k, read_short-write_short n rest h)),
)
Scalar-Arrives host {c} (integers {n} k h) = (
  write_u8 1 ++ write_int n,
  unfold as_int64 in rw (k, of_word-to_word_32 n h),
  λ f rest. read_present c f (write_int n) rest (rw (k, read_int-write_int n rest h)),
)
Scalar-Arrives host {c} (bigs {n} k h) = (
  write_u8 1 ++ write_long n,
  unfold as_int64 in rw k,
  λ f rest. read_present c f (write_long n) rest (rw (k, read_long-write_long n rest h)),
)
Scalar-Arrives host {c} (doubles {x} k h) = (
  write_u8 1 ++ write_double x,
  unfold as_float64 in rw k,
  λ f rest. read_present c f (write_double x) rest (rw (k, read_double-write_double x rest h)),
)
Scalar-Arrives host {c} (booleans {b} k) = (
  write_u8 1 ++ write_bool b,
  unfold as_bool in rw k,
  λ f rest. read_present c f (write_bool b) rest (rw (k, read_bool-write_bool b rest)),
)
Scalar-Arrives host {c} (decimals {d} k l h) = (
  write_u8 1 ++ write_decimal d.unscaled d.scale,
  unfold as_decimal in rw k,
  λ f rest.
      read_present c f (write_decimal d.unscaled d.scale) rest
        (rw (k, read_decimal-write_decimal d.unscaled d.scale rest l h)),
)
Scalar-Arrives host {c} (dates {t} k h) = (
  write_u8 1 ++ write_long (date_seconds t),
  unfold as_time in rw k,
  λ f rest. read_present c f (write_long (date_seconds t)) rest (
      rw (
        k,
        read_long-write_long (date_seconds t) rest h,
        unix_time_whole (date_seconds t) 0 (pos 0) (omega arith),
      )),
)
Scalar-Arrives host {c} (times {t} {zoned} k h) = (
  write_u8 1 ++ (write_int (wrap 32 (time_of_day_seconds t)) ++ tail_bytes zoned t),
  unfold as_time in rw k,
  λ f rest.
      read_present c f (write_int (wrap 32 (time_of_day_seconds t)) ++ tail_bytes zoned t) rest
        (rw k (read_times c (read_array c.base_code f) zoned t rest h)),
)
Scalar-Arrives host {c} (timestamps {t} {zoned} k h) = (
  write_u8 1 ++ (write_long t.unix ++ tail_bytes zoned t),
  unfold as_time in rw k,
  λ f rest.
      read_present c f (write_long t.unix ++ tail_bytes zoned t) rest
        (rw k (read_timestamps c (read_array c.base_code f) zoned t rest h)),
)
Scalar-Arrives host {c} (binaries {b} k h) = (
  write_u8 1 ++ write_bytes b,
  unfold as_bytes in rw k,
  λ f rest. read_present c f (write_bytes b) rest (rw (k, read_bytes-write_bytes b rest h)),
)
Scalar-Arrives host {c} (bit_strings {b} k h) = (
  write_u8 1 ++ (write_int (wrap 32 (pos (length b * 8))) ++ b),
  unfold as_bytes write_raw in rw k,
  λ f rest.
      read_present c f (write_int (wrap 32 (pos (length b * 8))) ++ b) rest
        (rw k (read_bit_strings c (read_array c.base_code f) b rest h)),
)
Scalar-Arrives host {c} (lobs {id} {is_clob} {sent} k h) = (
  write_u8 1 ++ write_long id,
  rw k,
  λ f rest. read_present c f (write_long id) rest (rw (k, read_long-write_long id rest h)),
)

read_elements_step :
    (n : ℕ) (read : Reader Value) (r t : RowInput) (rest : Bytes) {v : Value} {vs : Values}
    → read r ≡ (v, new_row_input rest)
    → read_elements n read (new_row_input rest) ≡ (vs, t)
    → read_elements (suc n) read r ≡ (cons v vs, t)
unfolding read_elements
read_elements_step n read r t rest {v} h k =
    ap (next_element n (read_elements n read)) h ∙ ap (λ p. (cons v p.0, p.1)) k

-- The elements of an array, and then the array.
Scalars-Arrives :
    (host : Host) {c : ColumnType} {vs ws : Values}
    → Scalars c vs ws
    → (b : Bytes) × (write_values host c vs ≡ ok b)
      × ((f : Reader Value) (rest : Bytes)
          → read_elements (size vs) (read_value_with c f) (new_row_input (b ++ rest))
            ≡ (ws, new_row_input rest))
unfolding write_values size
Scalars-Arrives host no_more = ([], refl, λ f rest. unfold read_elements in refl)
Scalars-Arrives host {c} (one_more {v} {w} {vs} {ws} h hs) =
    let (b, wrote, reads) = Scalar-Arrives host h in
    let (bs, wrote_all, reads_all) = Scalars-Arrives host hs in
    (
      b ++ bs,
      rw (wrote, wrote_all),
      λ f rest. rw append_assoc (
          read_elements_step (size vs) (read_value_with c f) (new_row_input (b ++ (bs ++ rest))) _
            (bs ++ rest) (reads f (bs ++ rest)) (reads_all f rest)),
    )

-- The array behind its presence flag: the count, and then the elements.
read_array_lem :
    (base : ℤ) (read : Reader Value) (vs ws : Values) (b rest : Bytes)
    → size vs < 2 ^ 31
    → read_elements (size vs) read (new_row_input (b ++ rest)) ≡ (ws, new_row_input rest)
    → read_array base read (new_row_input ((write_int (wrap 32 (pos (size vs))) ++ b) ++ rest))
      ≡ (array_value ws base, new_row_input rest)
unfolding read_array read_array_of
read_array_lem base read vs ws b rest fits h = rw (
  append_assoc,
  wrap_fits (pos (size vs)) fits,
  read_int-write_int (pos (size vs)) (b ++ rest) fits,
  h,
)

array_kind :
    (c : ColumnType) (f : Reader Value) (b rest : Bytes) {w : Value}
    → kind_of c.code ≡ array
    → read_array c.base_code f (new_row_input (b ++ rest)) ≡ (w, new_row_input rest)
    → read_value_with c f (new_row_input ((write_u8 1 ++ b) ++ rest)) ≡ (w, new_row_input rest)
unfolding read_kind
array_kind c f b rest k h = read_present c f b rest (rw k h)

write_array :
    (host : Host) (c : ColumnType) (vs : Values) (e : ℤ) (b : Bytes)
    → kind_of c.code ≡ array
    → write_values host (simple_type c.base_code) vs ≡ ok b
    → write_value host c (array_value vs e)
      ≡ ok (write_u8 1 ++ (write_int (wrap 32 (pos (size vs))) ++ b))
unfolding write_value write_kind
write_array host c vs e b k h = rw (k, h)

-- Whatever fits a column is written, and from the bytes, with anything behind them, ReadValue reads
-- the value that is meant to arrive, and leaves what follows.
pub read_value-write_value :
    (host : Host) (c : ColumnType) (v w : Value)
    → Sends c v w
    → (b : Bytes) × (write_value host c v ≡ ok b)
      × ((rest : Bytes) → read_value c (new_row_input (b ++ rest)) ≡ (w, new_row_input rest))
unfolding read_value
read_value-write_value host c v w (scalar h) =
    let (b, wrote, reads) = Scalar-Arrives host h in (b, wrote, λ rest. reads _ rest)
read_value-write_value host c v w (arrays {vs} {ws} {e} k fits h) =
    let (b, wrote, reads) = Scalars-Arrives host h in
    let all = write_int (wrap 32 (pos (size vs))) ++ b in
    (
      write_u8 1 ++ all,
      write_array host c vs e b k wrote,
      λ rest.
          array_kind c _ all rest k (read_array_lem c.base_code _ vs ws b rest fits (reads _ rest)),
    )
