-- ===== src/Proto/Metadata/RoundTrip.antt =====
-- internal/proto/result.go: what writeMetadata writes, readMetadata reads back.
pub mod Parts
pub mod Wire
mod Visible
use go_hsql.Base.{◌^◌, ◌<◌, refl, ap, ◌∙◌, List, arith, length, All}
use go_hsql.Base.Int.{ℤ}
use go_hsql.Base.Words.{IsInt}
use go_hsql.Proto.Utf8.{Text}
use go_hsql.Proto.RowOutput.{write_int, write_string}
use go_hsql.Proto.RowInput.{new_row_input, read_int, read_string}
use go_hsql.Proto.RowInput.RoundTrip.{read_int-write_int, read_string-write_string}
use go_hsql.Proto.Types.Kind.{ColumnType}
use go_hsql.Proto.Types.Write.{write_data_type_simple}
use go_hsql.Proto.Types.Read.{read_data_type_simple}
use go_hsql.Proto.Metadata.{
  Column, Metadata, meta_simple_result, meta_update_result, meta_generated_idx, meta_generated_name,
}
use go_hsql.Proto.Metadata.Write.{write_all, write_meta_body}
use go_hsql.Proto.Metadata.Read.{read_slice, read_param, read_meta_body}
use go_hsql.Proto.Metadata.RoundTrip.Parts.{
  IsWireText, IsWireParam, write_param, read_list-write_all,
  read_data_type_simple-write_data_type_simple, read_param-write_param, write_params_loop_lem,
}
use go_hsql.Proto.Metadata.RoundTrip.Wire.{
  IsSimpleType, of_kind, types_metadata, params_metadata, IsWireMetadata, simple, update,
  generated_idx, generated_name, param, visible, extended, ReadsBack, read_metadata_header,
}
use go_hsql.Proto.Metadata.RoundTrip.Visible.{visible_lem, extended_lem}

simple_lem :
    (ts : List ColumnType)
    → (length ts < 2 ^ 31)
    → All IsSimpleType ts
    → ReadsBack (types_metadata meta_simple_result ts)
unfolding write_meta_body read_meta_body read_slice
simple_lem ts n h =
    read_metadata_header (types_metadata meta_simple_result ts)
      (write_all write_data_type_simple ts) (omega arith) n refl
      (λ rest.
        rw
          (read_list-write_all write_data_type_simple read_data_type_simple IsSimpleType
            (λ x r hx.
              read_data_type_simple-write_data_type_simple x r hx.0
              ∙ ap (λ c. (c, new_row_input r)) hx.1)
            ts rest h)
          refl)

update_lem :
    (ts : List ColumnType)
    → (length ts < 2 ^ 31)
    → All IsSimpleType ts
    → ReadsBack (types_metadata meta_update_result ts)
unfolding write_meta_body read_meta_body read_slice
update_lem ts n h =
    read_metadata_header (types_metadata meta_update_result ts)
      (write_all write_data_type_simple ts) (omega arith) n refl
      (λ rest.
        rw
          (read_list-write_all write_data_type_simple read_data_type_simple IsSimpleType
            (λ x r hx.
              read_data_type_simple-write_data_type_simple x r hx.0
              ∙ ap (λ c. (c, new_row_input r)) hx.1)
            ts rest h)
          refl)

generated_idx_lem :
    (idx : List ℤ)
    → (length idx < 2 ^ 31)
    → All (IsInt 32) idx
    → ReadsBack (record (of_kind meta_generated_idx (length idx)) { col_indexes = idx })
unfolding write_meta_body read_meta_body read_slice
generated_idx_lem idx n h =
    read_metadata_header (record (of_kind meta_generated_idx (length idx)) { col_indexes = idx })
      (write_all write_int idx) (omega arith) n refl
      (λ rest.
        rw
          (read_list-write_all write_int read_int (IsInt 32) (λ x r hx. read_int-write_int x r hx)
            idx rest h)
          refl)

generated_name_lem :
    (labels : List Text)
    → (length labels < 2 ^ 31)
    → All IsWireText labels
    → ReadsBack (record (of_kind meta_generated_name (length labels)) { labels = labels })
unfolding write_meta_body read_meta_body read_slice
generated_name_lem ls n h =
    read_metadata_header (record (of_kind meta_generated_name (length ls)) { labels = ls })
      (write_all write_string ls) (omega arith) n refl
      (λ rest.
        rw
          (read_list-write_all write_string read_string IsWireText
            (λ x r hx. read_string-write_string x r hx.0 hx.1) ls rest h)
          refl)

param_lem :
    (cs : List Column) → (length cs < 2 ^ 31) → All IsWireParam cs → ReadsBack (params_metadata cs)
unfolding write_meta_body read_meta_body read_slice
param_lem cs n h =
    read_metadata_header (params_metadata cs) (write_all write_param cs) (omega arith) n
      (write_params_loop_lem cs)
      (λ rest.
        rw (read_list-write_all write_param read_param IsWireParam read_param-write_param cs rest h)
          refl)

-- Metadata that the protocol has is written without a panic, and reading what was written, in
-- front of any other bytes, gives it back and leaves those bytes.
pub read_metadata-write_metadata : (m : Metadata) → IsWireMetadata m → ReadsBack m
read_metadata-write_metadata m (simple ts n h) = simple_lem ts n h
read_metadata-write_metadata m (update ts n h) = update_lem ts n h
read_metadata-write_metadata m (generated_idx idx n h) = generated_idx_lem idx n h
read_metadata-write_metadata m (generated_name ls n h) = generated_name_lem ls n h
read_metadata-write_metadata m (param cs n h) = param_lem cs n h
read_metadata-write_metadata m (visible cs n h k) = visible_lem cs n h k
read_metadata-write_metadata m (extended cs t ts idx n h k l hi) =
    extended_lem cs t ts idx n h k l hi
