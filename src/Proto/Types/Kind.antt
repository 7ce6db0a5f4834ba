-- ===== src/Proto/Types/Kind.antt =====
-- internal/proto/types.go ColumnType, and the type codes sorted by the cases that the switches of
-- WriteValue and ReadValue have in common.
use go_hsql.Base.{Bool, ◌||◌, if◌then◌else◌}
use go_hsql.Base.Int.{ℤ, pos, eqb_ℤ}
use go_hsql.Proto.Const.{
  sql_all_types, sql_char, sql_numeric, sql_decimal, sql_integer, sql_smallint, sql_float, sql_real,
  sql_double, sql_varchar, sql_bit, sql_bit_varying, sql_boolean, sql_bigint, sql_blob, sql_clob,
  sql_binary, sql_varbinary, sql_date, sql_time, sql_timestamp, sql_time_tz, sql_timestamp_tz,
  sql_interval_year, sql_interval_month, sql_interval_day, sql_interval_hour, sql_interval_minute,
  sql_interval_second, sql_interval_year_to_month, sql_interval_day_to_hour,
  sql_interval_day_to_minute, sql_interval_day_to_second, sql_interval_hour_to_minute,
  sql_interval_hour_to_second, sql_interval_minute_to_second, sql_tinyint, sql_guid, sql_array,
  sql_other,
}

pub record ColumnType : Type 0 where
  pub code : ℤ
  pub base_code : ℤ
  pub precision : ℤ
  pub scale : ℤ

abbrev pub is_array : ColumnType → Bool
is_array c = eqb_ℤ c.code sql_array

-- ColumnType{Code: code}.
abbrev pub simple_type : ℤ → ColumnType
simple_type code = record { code = code; base_code = pos 0; precision = pos 0; scale = pos 0 }

-- One constructor for each `case` of the two switches; a flag where the case tests the code again.
pub data Kind : Type 0 where
  all_types text small integer big double boolean decimal date : Kind
  time timestamp : Bool → Kind
  binary bits year_month day_second array : Kind
  lob : Bool → Kind
  unknown : Kind

-- The interval cases run from 101 to 113 with no gap; these three are of years and months.
abbrev is_year_month : ℤ → Bool
is_year_month c =
    eqb_ℤ c sql_interval_year || eqb_ℤ c sql_interval_month || eqb_ℤ c sql_interval_year_to_month

abbrev is_day_second : ℤ → Bool
is_day_second c =
    eqb_ℤ c sql_interval_day
    || eqb_ℤ c sql_interval_hour
    || eqb_ℤ c sql_interval_minute
    || eqb_ℤ c sql_interval_second
    || eqb_ℤ c sql_interval_day_to_hour
    || eqb_ℤ c sql_interval_day_to_minute
    || eqb_ℤ c sql_interval_day_to_second
    || eqb_ℤ c sql_interval_hour_to_minute
    || eqb_ℤ c sql_interval_hour_to_second
    || eqb_ℤ c sql_interval_minute_to_second

unfoldable pub kind_of : ℤ → Kind
kind_of c =
    if eqb_ℤ c sql_all_types
    then all_types
    else if eqb_ℤ c sql_char || eqb_ℤ c sql_varchar
    then text
    else if eqb_ℤ c sql_tinyint || eqb_ℤ c sql_smallint
    then small
    else if eqb_ℤ c sql_integer
    then integer
    else if eqb_ℤ c sql_bigint
    then big
    else if eqb_ℤ c sql_real || eqb_ℤ c sql_float || eqb_ℤ c sql_double
    then double
    else if eqb_ℤ c sql_boolean
    then boolean
    else if eqb_ℤ c sql_decimal || eqb_ℤ c sql_numeric
    then decimal
    else if eqb_ℤ c sql_date
    then date
    else if eqb_ℤ c sql_time || eqb_ℤ c sql_time_tz
    then time (eqb_ℤ c sql_time_tz)
    else if eqb_ℤ c sql_timestamp || eqb_ℤ c sql_timestamp_tz
    then timestamp (eqb_ℤ c sql_timestamp_tz)
    else if eqb_ℤ c sql_binary || eqb_ℤ c sql_varbinary || eqb_ℤ c sql_guid || eqb_ℤ c sql_other
    then binary
    else if eqb_ℤ c sql_bit || eqb_ℤ c sql_bit_varying
    then bits
    else if is_year_month c
    then year_month
    else if is_day_second c
    then day_second
    else if eqb_ℤ c sql_array
    then array
    else if eqb_ℤ c sql_clob || eqb_ℤ c sql_blob
    then lob (eqb_ℤ c sql_clob)
    else unknown
