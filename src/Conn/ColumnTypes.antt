-- ===== src/Conn/ColumnTypes.antt =====
-- rows_coltype.go: what database/sql is told of the columns of a result set.
pub mod Sound
use Prim.Native.String.{String}
use go_hsql.Base.{
  ℕ, ◌%◌, Bool, true, false, not, ◌&&◌, ◌||◌, Option, none, some, List, [], ◌∷◌, ◌==◌,
  if◌then◌else◌, get_elem?, codes,
}
use go_hsql.Base.Int.{ℤ, pos, eqb_ℤ, is_neg}
use go_hsql.Proto.Const.{
  sql_char, sql_numeric, sql_decimal, sql_integer, sql_smallint, sql_float, sql_real, sql_double,
  sql_varchar, sql_bit, sql_bit_varying, sql_boolean, sql_bigint, sql_blob, sql_clob, sql_binary,
  sql_varbinary, sql_date, sql_time, sql_timestamp, sql_time_tz, sql_timestamp_tz,
  sql_interval_year, sql_interval_month, sql_interval_day, sql_interval_hour, sql_interval_minute,
  sql_interval_second, sql_interval_year_to_month, sql_interval_day_to_hour,
  sql_interval_day_to_minute, sql_interval_day_to_second, sql_interval_hour_to_minute,
  sql_interval_hour_to_second, sql_interval_minute_to_second, sql_tinyint, sql_guid, sql_array,
  sql_other,
}
use go_hsql.Proto.Utf8.{Text}
use go_hsql.Proto.Types.Kind.{ColumnType}
use go_hsql.Proto.Metadata.{Column}
use go_hsql.Conn.Rows.{Rows}

-- The reflect.Types that scanType returns.
pub data GoType : Type 0 where
  int64_type float64_type bool_type string_type bytes_type time_type any_type : GoType

-- r.meta.Columns[index], unless there is no such column.
unfoldable pub column_at : Rows → ℕ → Option Column
column_at r index = elim r.meta [ none ↦ none | some m ↦ get_elem? m.columns index ]

-- The cases of typeName in order; the name of any other code is that of the last one.
abbrev pub type_names : List (ℤ × String)
type_names =
    (sql_char, "CHAR")
    ∷ (sql_varchar, "VARCHAR")
    ∷ (sql_numeric, "NUMERIC")
    ∷ (sql_decimal, "DECIMAL")
    ∷ (sql_integer, "INTEGER")
    ∷ (sql_smallint, "SMALLINT")
    ∷ (sql_tinyint, "TINYINT")
    ∷ (sql_bigint, "BIGINT")
    ∷ (sql_real, "REAL")
    ∷ (sql_float, "FLOAT")
    ∷ (sql_double, "DOUBLE")
    ∷ (sql_boolean, "BOOLEAN")
    ∷ (sql_date, "DATE")
    ∷ (sql_time, "TIME")
    ∷ (sql_time_tz, "TIME WITH TIME ZONE")
    ∷ (sql_timestamp, "TIMESTAMP")
    ∷ (sql_timestamp_tz, "TIMESTAMP WITH TIME ZONE")
    ∷ (sql_interval_year, "INTERVAL YEAR")
    ∷ (sql_interval_month, "INTERVAL MONTH")
    ∷ (sql_interval_day, "INTERVAL DAY")
    ∷ (sql_interval_hour, "INTERVAL HOUR")
    ∷ (sql_interval_minute, "INTERVAL MINUTE")
    ∷ (sql_interval_second, "INTERVAL SECOND")
    ∷ (sql_interval_year_to_month, "INTERVAL YEAR TO MONTH")
    ∷ (sql_interval_day_to_hour, "INTERVAL DAY TO HOUR")
    ∷ (sql_interval_day_to_minute, "INTERVAL DAY TO MINUTE")
    ∷ (sql_interval_day_to_second, "INTERVAL DAY TO SECOND")
    ∷ (sql_interval_hour_to_minute, "INTERVAL HOUR TO MINUTE")
    ∷ (sql_interval_hour_to_second, "INTERVAL HOUR TO SECOND")
    ∷ (sql_interval_minute_to_second, "INTERVAL MINUTE TO SECOND")
    ∷ (sql_binary, "BINARY")
    ∷ (sql_varbinary, "VARBINARY")
    ∷ (sql_bit, "BIT")
    ∷ (sql_bit_varying, "BIT")
    ∷ (sql_blob, "BLOB")
    ∷ (sql_clob, "CLOB")
    ∷ (sql_guid, "UUID")
    ∷ (sql_array, "ARRAY")
    ∷ (sql_other, "OTHER")
    ∷ []

unfoldable pub name_in : ℤ → List (ℤ × String) → String
name_in code [] = "OTHER"
name_in code ((c, name) ∷ rest) =
    let more = name_in code rest in if eqb_ℤ code c then name else more

unfoldable pub type_name : ℤ → Text
unfolding name_in
type_name code = codes (name_in code type_names)

unfoldable pub is_one_of : ℤ → List ℤ → Bool
is_one_of code [] = false
is_one_of code (c ∷ cs) = eqb_ℤ code c || is_one_of code cs

abbrev pub int64_types : List ℤ
int64_types = sql_tinyint ∷ sql_smallint ∷ sql_integer ∷ sql_bigint ∷ []

abbrev pub float64_types : List ℤ
float64_types = sql_real ∷ sql_float ∷ sql_double ∷ []

abbrev pub bool_types : List ℤ
bool_types = sql_boolean ∷ []

abbrev pub string_types : List ℤ
string_types =
    sql_char ∷ sql_varchar ∷ sql_decimal ∷ sql_numeric ∷ sql_interval_year ∷ sql_interval_month
    ∷ sql_interval_day ∷ sql_interval_hour ∷ sql_interval_minute ∷ sql_interval_second
    ∷ sql_interval_year_to_month ∷ sql_interval_day_to_hour ∷ sql_interval_day_to_minute
    ∷ sql_interval_day_to_second ∷ sql_interval_hour_to_minute ∷ sql_interval_hour_to_second
    ∷ sql_interval_minute_to_second ∷ sql_array ∷ []

abbrev pub bytes_types : List ℤ
bytes_types = sql_binary ∷ sql_varbinary ∷ sql_guid ∷ sql_other ∷ []

abbrev pub time_types : List ℤ
time_types = sql_date ∷ sql_time ∷ sql_time_tz ∷ sql_timestamp ∷ sql_timestamp_tz ∷ []

unfoldable pub scan_type : ℤ → GoType
scan_type code =
    if is_one_of code int64_types
    then int64_type
    else if is_one_of code float64_types
    then float64_type
    else if is_one_of code bool_types
    then bool_type
    else if is_one_of code string_types
    then string_type
    else if is_one_of code bytes_types
    then bytes_type
    else if is_one_of code time_types
    then time_type
    else any_type

unfoldable pub column_type_database_type_name : Rows → ℕ → Text
column_type_database_type_name r index = elim (column_at r index) [
  | none ↦ []
  | some c ↦ type_name c.column_type.code
]

unfoldable pub column_type_scan_type : Rows → ℕ → GoType
column_type_scan_type r index = elim (column_at r index) [
  | none ↦ any_type
  | some c ↦ scan_type c.column_type.code
]

-- The two low bits of the attribute byte: 0 for no nulls, 1 for nullable, and unknown otherwise.
unfoldable pub nullable_of : ℕ → Bool × Bool
nullable_of attrs =
    if attrs % 4 == 0
    then (false, true)
    else if attrs % 4 == 1
    then (true, true)
    else (false, false)

unfoldable pub column_type_nullable : Rows → ℕ → Bool × Bool
column_type_nullable r index = elim (column_at r index) [
  | none ↦ (false, false)
  | some c ↦ nullable_of c.attrs
]

abbrev pub has_length : List ℤ
has_length =
    sql_char ∷ sql_varchar ∷ sql_binary ∷ sql_varbinary ∷ sql_bit ∷ sql_bit_varying ∷ sql_blob
    ∷ sql_clob ∷ []

-- The length, and whether it applies.
unfoldable pub length_of : ColumnType → ℤ × Bool
length_of t =
    if is_one_of t.code has_length && not (is_neg t.precision)
    then (t.precision, true)
    else (pos 0, false)

unfoldable pub column_type_length : Rows → ℕ → ℤ × Bool
column_type_length r index = elim (column_at r index) [
  | none ↦ (pos 0, false)
  | some c ↦ length_of c.column_type
]

unfoldable pub precision_scale_of : ColumnType → ℤ × ℤ × Bool
precision_scale_of t =
    if is_one_of t.code (sql_decimal ∷ sql_numeric ∷ []) && not (is_neg t.precision)
    then (t.precision, t.scale, true)
    else (pos 0, pos 0, false)

unfoldable pub column_type_precision_scale : Rows → ℕ → ℤ × ℤ × Bool
column_type_precision_scale r index = elim (column_at r index) [
  | none ↦ (pos 0, pos 0, false)
  | some c ↦ precision_scale_of c.column_type
]
