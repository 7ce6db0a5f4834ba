-- ===== src/Proto/Types/Sends.antt =====
-- What the peer is meant to read for a value bound to a column, independent of the codec: the
-- values that fit a column's type, and the value that arrives.
use go_hsql.Base.{ℕ, ◌*◌, ◌^◌, ◌<◌, ◌≡◌, Bool, if◌then◌else◌, length, All}
use go_hsql.Base.Int.{ℤ, pos, ◌-ℤ◌}
use go_hsql.Base.Words.{Bytes, IsInt}
use go_hsql.Proto.Utf8.{Text, IsRune, encode_modified_utf8}
use go_hsql.Proto.BigInt.{big_int_to_twos_complement}
use go_hsql.Proto.Types.Kind.{
  ColumnType, simple_type, Kind, text, small, integer, big, double, boolean, timestamp, binary,
  bits, array, lob, kind_of,
}
use go_hsql.Proto.Types.Value.{
  Value, Values, Time, Decimal, null, int64, float64, bool, string, bytes, decimal, array_value,
  lob_ref, nil, cons, size,
}
use go_hsql.Proto.Types.Decimal.{format_decimal}
use go_hsql.Proto.Types.Coerce.{date_seconds, time_of_day_seconds}

-- The offset of the zone that a type with or without a zone sends.
abbrev pub sent_offset : Bool → Time → ℤ
sent_offset zoned t = if zoned then t.offset else pos 0

-- A time whose parts fit the wire: nanoseconds of one second, and an offset that an int32 holds.
pub record IsWireTime (t : Time) : Type 0 where
  pub unix_fits : IsInt 64 t.unix
  pub nanosecond_fits : t.nanosecond < 1000000000
  pub offset_fits : IsInt 32 t.offset

-- Scalar c v w: the value v fits a column of type c, which is no array, and w arrives.
pub data Scalar (c : ColumnType) : Value → Value → Type 0 where
  missing : Scalar c null null
  texts :
      {s : Text}
      → kind_of c.code ≡ text
      → All IsRune s
      → length (encode_modified_utf8 s) < 2 ^ 31
      → Scalar c (string s) (string s)
  smalls : {n : ℤ} → kind_of c.code ≡ small → IsInt 16 n → Scalar c (int64 n) (int64 n)
  integers : {n : ℤ} → kind_of c.code ≡ integer → IsInt 32 n → Scalar c (int64 n) (int64 n)
  bigs : {n : ℤ} → kind_of c.code ≡ big → IsInt 64 n → Scalar c (int64 n) (int64 n)
  doubles : {x : ℕ} → kind_of c.code ≡ double → x < 2 ^ 64 → Scalar c (float64 x) (float64 x)
  booleans : {b : Bool} → kind_of c.code ≡ boolean → Scalar c (bool b) (bool b)
  -- A decimal arrives as its text.
  decimals :
      {d : Decimal}
      → kind_of c.code ≡ Kind.decimal
      → length (big_int_to_twos_complement d.unscaled) < 2 ^ 31
      → IsInt 32 d.scale
      → Scalar c (decimal d) (string (format_decimal d.unscaled d.scale))
  -- A date arrives as its midnight, UTC.
  dates :
      {t : Time}
      → kind_of c.code ≡ Kind.date
      → IsInt 64 (date_seconds t)
      → Scalar c
          (Value.time t)
          (Value.time (record { unix = date_seconds t; nanosecond = 0; offset = pos 0 }))
  -- A time of day arrives as that wall clock on the first day of 1970.
  times :
      {t : Time} {zoned : Bool}
      → kind_of c.code ≡ Kind.time zoned
      → IsWireTime t
      → Scalar c (Value.time t) (
          Value.time (record {
            unix = time_of_day_seconds t -ℤ sent_offset zoned t;
            nanosecond = t.nanosecond;
            offset = sent_offset zoned t;
          }))
  -- A timestamp arrives as the same instant, in UTC or in its zone.
  timestamps :
      {t : Time} {zoned : Bool}
      → kind_of c.code ≡ timestamp zoned
      → IsWireTime t
      → Scalar c (Value.time t) (Value.time (record t { offset = sent_offset zoned t }))
  binaries :
      {b : Bytes} → kind_of c.code ≡ binary → length b < 2 ^ 31 → Scalar c (bytes b) (bytes b)
  bit_strings :
      {b : Bytes} → kind_of c.code ≡ bits → length b * 8 < 2 ^ 31 → Scalar c (bytes b) (bytes b)
  lobs :
      {id : ℤ} {is_clob sent : Bool}
      → kind_of c.code ≡ lob is_clob
      → IsInt 64 id
      → Scalar c (lob_ref id sent) (lob_ref id is_clob)

-- The elements of an array, each of the type c.
pub data Scalars (c : ColumnType) : Values → Values → Type 0 where
  no_more : Scalars c nil nil
  one_more :
      {v w : Value} {vs ws : Values}
      → Scalar c v w
      → Scalars c vs ws
      → Scalars c (cons v vs) (cons w ws)

-- Sends c v w: v fits a column of type c, and w arrives. An array arrives with its element code.
pub data Sends (c : ColumnType) : Value → Value → Type 0 where
  scalar : {v w : Value} → Scalar c v w → Sends c v w
  arrays :
      {vs ws : Values} {e : ℤ}
      → kind_of c.code ≡ array
      → size vs < 2 ^ 31
      → Scalars (simple_type c.base_code) vs ws
      → Sends c (array_value vs e) (array_value ws c.base_code)
