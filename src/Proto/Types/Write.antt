-- ===== src/Proto/Types/Write.antt =====
-- internal/proto/types.go WriteDataType, WriteDataTypeSimple and WriteValue.
use go_hsql.Base.{◌*◌, Bool, true, false, [], ◌++◌, if◌then◌else◌, length}
use go_hsql.Base.Int.{ℤ, pos}
use go_hsql.Base.Words.{Bytes, wrap}
use go_hsql.Proto.Errors.{
  unsupported_write, array_value_required, lob_ref_required, Outcome, ok, err, ◌>>=◌,
}
use go_hsql.Proto.RowOutput.{
  write_u8, write_bool, write_short, write_int, write_long, write_type, write_double, write_bytes,
  write_raw, write_string, write_decimal,
}
use go_hsql.Proto.Types.Kind.{
  ColumnType, is_array, simple_type, Kind, all_types, text, small, integer, big, double, boolean,
  timestamp, binary, bits, year_month, day_second, array, lob, unknown, kind_of,
}
use go_hsql.Proto.Types.Value.{Value, Values, null, array_value, lob_ref, nil, cons, size}
use go_hsql.Proto.Types.Coerce.{
  Host, as_string, as_int64, as_float64, as_bytes, as_decimal, as_bool, as_time, date_seconds,
  time_of_day_seconds, zone_seconds,
}

-- The base type, where the type is an array.
unfoldable pub write_base : Bool → ℤ → Bytes
write_base true base = write_type base
write_base false base = []

unfoldable pub write_data_type_simple : ColumnType → Bytes
write_data_type_simple c = write_type c.code ++ write_base (is_array c) c.base_code

unfoldable pub write_data_type : ColumnType → Bytes
write_data_type c = write_data_type_simple c ++ (write_long c.precision ++ write_int c.scale)

module _ (host : Host) where
  abbrev zone_bytes : Bool → Value → Bytes
  zone_bytes zoned v = if zoned then write_int (wrap 32 (zone_seconds (as_time v))) else []

  abbrev lob_bytes : ℤ → Value → Outcome Bytes
  lob_bytes code (lob_ref id is_clob) = ok (write_long id)
  lob_bytes code v = err (lob_ref_required code)

  -- The switch of WriteValue; `elements` is what the ARRAY case writes.
  unfoldable pub write_kind : Kind → ColumnType → Value → Outcome Bytes → Outcome Bytes
  write_kind all_types c v elements = ok []
  write_kind text c v elements = ok (write_string (as_string host v))
  write_kind small c v elements = ok (write_short (wrap 16 (as_int64 host v)))
  write_kind integer c v elements = ok (write_int (wrap 32 (as_int64 host v)))
  write_kind big c v elements = ok (write_long (as_int64 host v))
  write_kind double c v elements = ok (write_double (as_float64 host v))
  write_kind boolean c v elements = ok (write_bool (as_bool v))
  write_kind Kind.decimal c v elements =
      as_decimal host v c.scale >>= λ d. ok (write_decimal d.unscaled d.scale)
  write_kind Kind.date c v elements = ok (write_long (date_seconds (as_time v)))
  write_kind (Kind.time zoned) c v elements = ok (
      write_int (wrap 32 (time_of_day_seconds (as_time v)))
      ++ (write_int (wrap 32 (pos (as_time v).nanosecond)) ++ zone_bytes zoned v))
  write_kind (timestamp zoned) c v elements = ok (
      write_long (as_time v).unix
      ++ (write_int (wrap 32 (pos (as_time v).nanosecond)) ++ zone_bytes zoned v))
  write_kind binary c v elements = ok (write_bytes (as_bytes host v))
  write_kind bits c v elements =
      let b = as_bytes host v in ok (write_int (wrap 32 (pos (length b * 8))) ++ write_raw b)
  write_kind year_month c v elements = err (unsupported_write c.code)
  write_kind day_second c v elements = err (unsupported_write c.code)
  write_kind array c v elements = elements
  write_kind (lob is_clob) c v elements = lob_bytes c.code v
  write_kind unknown c v elements = err (unsupported_write c.code)

  -- The presence flag stands in front of a value that is not nil.
  abbrev present : Outcome Bytes → Outcome Bytes
  present m = m >>= λ b. ok (write_u8 1 ++ b)

  unfoldable mutual
    pub write_value : ColumnType → Value → Outcome Bytes
    write_value c null = ok (write_u8 0)
    write_value c (array_value vs e) = present (
        write_kind (kind_of c.code) c (array_value vs e) (
          write_values (simple_type c.base_code) vs >>= λ b.
          ok (write_int (wrap 32 (pos (size vs))) ++ b)))
    write_value c v = present (write_kind (kind_of c.code) c v (err array_value_required))

    pub write_values : ColumnType → Values → Outcome Bytes
    write_values c nil = ok []
    write_values c (cons v vs) = write_value c v >>= λ b. write_values c vs >>= λ bs. ok (b ++ bs)
