-- ===== src/Proto/Metadata.antt =====
-- internal/proto/result.go: Metadata, writeMetadata and readMetadata, with the descriptors of
-- types.go that they are made of. An index out of range and a slice of negative length panic.
pub mod Write
pub mod Read
pub mod RoundTrip
use go_hsql.Base.{ℕ, ◌/◌, ◌%◌, List, []}
use go_hsql.Base.Int.{ℤ, pos}
use go_hsql.Proto.Utf8.{Text}
use go_hsql.Proto.Types.Kind.{ColumnType}

abbrev pub meta_result : ℤ
meta_result = pos 1

abbrev pub meta_simple_result : ℤ
meta_simple_result = pos 2

abbrev pub meta_update_result : ℤ
meta_update_result = pos 3

abbrev pub meta_param : ℤ
meta_param = pos 4

abbrev pub meta_generated_idx : ℤ
meta_generated_idx = pos 5

abbrev pub meta_generated_name : ℤ
meta_generated_name = pos 6

pub record Column : Type 0 where
  pub column_type : ColumnType
  pub label : Text
  pub catalog : Text
  pub schema : Text
  pub table : Text
  pub name : Text
  pub attrs : ℕ

pub record Metadata : Type 0 where
  pub meta_type : ℤ
  pub column_count : ℤ
  pub extended_count : ℤ
  pub types : List ColumnType
  pub columns : List Column
  pub labels : List Text
  pub col_indexes : List ℤ

-- &Metadata{}.
abbrev pub empty_metadata : Metadata
empty_metadata = record {
  meta_type = pos 0;
  column_count = pos 0;
  extended_count = pos 0;
  types = [];
  columns = [];
  labels = [];
  col_indexes = [];
}

-- The mode of a parameter stands in the high half of the attribute byte.
pub param_mode : Column → ℕ
param_mode c = c.attrs / 16 % 16
