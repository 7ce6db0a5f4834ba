-- ===== src/Proto/Types/Read.antt =====
-- internal/proto/types.go ReadDataType, ReadDataTypeSimple, ReadValue and readArray.
pub mod Fuel
use go_hsql.Base.{ℕ, zero, suc, Bool, true, false, none, some, ◌==◌, if◌then◌else◌, take}
use go_hsql.Base.Int.{ℤ, pos, negsuc, ◌+ℤ◌, eqb_ℤ, quot}
use go_hsql.Proto.Const.{sql_array}
use go_hsql.Proto.Errors.{Error, unsupported_read}
use go_hsql.Proto.RowInput.{
  RowInput, Reader, pure, ◌>>=◌, need, advance, read_u8, read_bool, read_short, read_int, read_long,
  read_type, read_double, read_bytes, read_string, read_decimal,
}
use go_hsql.Proto.Types.Kind.{
  ColumnType, simple_type, Kind, all_types, text, small, integer, big, double, boolean, timestamp,
  binary, bits, year_month, day_second, array, lob, unknown, kind_of,
}
use go_hsql.Proto.Types.Value.{
  Value, Values, null, int64, float64, bool, string, bytes, array_value, lob_ref, nil, cons,
}
use go_hsql.Proto.Types.Decimal.{format_decimal}
use go_hsql.Proto.Types.Interval.{format_year_month_interval, format_day_second_interval}
use go_hsql.Proto.Types.Coerce.{unix_time, clock_time}

-- The base type, where the type is an array.
unfoldable pub read_base : Bool → Reader ℤ
read_base true = read_type
read_base false = pure (pos 0)

unfoldable pub read_data_type_simple : Reader ColumnType
read_data_type_simple = do
  code ← read_type
  base ← read_base (eqb_ℤ code sql_array)
  pure (record { code = code; base_code = base; precision = pos 0; scale = pos 0 })

unfoldable pub read_data_type : Reader ColumnType
read_data_type = do
  c ← read_data_type_simple
  precision ← read_long
  scale ← read_int
  pure (record c { precision = precision; scale = scale })

-- The zone of the TIME and TIMESTAMP types that carry one; UTC otherwise.
abbrev pub read_zone : Bool → Reader ℤ
read_zone true = read_int
read_zone false = pure (pos 0)

-- The BIT case behind the number of bits: n := (bits + 7) / 8 bytes, or nil where the input is
-- broken, n is negative, or too few bytes are left.
unfoldable pub read_bits : ℤ → Reader Value
read_bits (negsuc n) r = (null, r)
read_bits (pos n) r = elim r.err [
  | some e ↦ (null, r)
  | none ↦
      let (enough, s) = need n r in
      if enough then (bytes (take n s.rest), advance n s) else (null, s)
]

abbrev pub bit_bytes : ℤ → ℤ
bit_bytes n = quot (n +ℤ pos 7) 8

-- The elements that readArray has not read when the input breaks stay nil.
abbrev nulls : ℕ → Values
nulls zero = nil
nulls (suc n) = cons null (nulls n)

-- The end of a round of readArray's loop, on the value and the input behind it: `n` elements are
-- still to be read, by `more`, unless the input has broken.
unfoldable pub next_element : ℕ → (Reader Values) → Value × RowInput → Values × RowInput
next_element n more (v, s) = elim s.err [
  | some e ↦ (cons v (nulls n), s)
  | none ↦ let (vs, t) = more s in (cons v vs, t)
]

-- The loop of readArray over the elements still to be read.
unfoldable pub read_elements : ℕ → Reader Value → Reader Values
unfolding next_element
read_elements zero read r = (nil, r)
read_elements (suc n) read r = next_element n (read_elements n read) (read r)

-- An ArrayValue with no elements and no element code, where the count is broken or negative.
abbrev pub no_elements : Value
no_elements = array_value nil (pos 0)

unfoldable pub read_array_of : ℤ → Reader Value → ℤ → Reader Value
read_array_of base read (negsuc n) r = (no_elements, r)
read_array_of base read (pos n) r = elim r.err [
  | some e ↦ (no_elements, r)
  | none ↦ let (vs, s) = read_elements n read r in (array_value vs base, s)
]

unfoldable pub read_array : ℤ → Reader Value → Reader Value
read_array base read = do n ← read_int; read_array_of base read n

-- `r.err = …`, whatever the error was.
abbrev pub fail_with : Error → Reader Value
fail_with e r = (null, record r { err = some e })

-- The switch of ReadValue; `elements` reads an array.
unfoldable pub read_kind : Kind → ColumnType → Reader Value → Reader Value
read_kind all_types c elements = pure null
read_kind text c elements = do s ← read_string; pure (string s)
read_kind small c elements = do n ← read_short; pure (int64 n)
read_kind integer c elements = do n ← read_int; pure (int64 n)
read_kind big c elements = do n ← read_long; pure (int64 n)
read_kind double c elements = do x ← read_double; pure (float64 x)
read_kind boolean c elements = do b ← read_bool; pure (bool b)
read_kind Kind.decimal c elements = do d ← read_decimal; pure (string (format_decimal d.0 d.1))
read_kind Kind.date c elements = do
  sec ← read_long
  pure (Value.time (unix_time sec (pos 0) (pos 0)))
read_kind (Kind.time zoned) c elements = do
  sec ← read_int
  nanos ← read_int
  zone ← read_zone zoned
  pure (Value.time (clock_time sec nanos zone))
read_kind (timestamp zoned) c elements = do
  sec ← read_long
  nanos ← read_int
  zone ← read_zone zoned
  pure (Value.time (unix_time sec nanos zone))
read_kind binary c elements = do b ← read_bytes; pure (bytes b)
read_kind bits c elements = do n ← read_int; read_bits (bit_bytes n)
read_kind year_month c elements = do
  months ← read_long
  pure (string (format_year_month_interval c.code months))
read_kind day_second c elements = do
  seconds ← read_long
  nanos ← read_int
  pure (string (format_day_second_interval c.code seconds nanos))
read_kind array c elements = elements
read_kind (lob is_clob) c elements = do id ← read_long; pure (lob_ref id is_clob)
read_kind unknown c elements = fail_with (unsupported_read c.code)

-- ReadValue, with the reader of an array's elements.
unfoldable pub read_value_with : ColumnType → Reader Value → Reader Value
read_value_with c read_element r =
    let (flag, s) = read_u8 r in
    let found = read_kind (kind_of c.code) c (read_array c.base_code read_element) s in
    if flag == 0 then (null, s) else found

-- The elements of an array have the type ColumnType{Code: base}, whose own base is 0, so the
-- recursion of ReadValue is three calls deep at most, and the fuel 3 is enough.
unfoldable pub read_value_at : ℕ → ColumnType → Reader Value
read_value_at zero c r = (null, r)
read_value_at (suc depth) c r = read_value_with c (read_value_at depth (simple_type c.base_code)) r

unfoldable pub read_value : ColumnType → Reader Value
unfolding read_value_at
read_value = read_value_at 3
