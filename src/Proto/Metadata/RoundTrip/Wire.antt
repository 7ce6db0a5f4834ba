-- ===== src/Proto/Metadata/RoundTrip/Wire.antt =====
-- The metadata that the protocol has, and what it is to be read back.
use go_hsql.Base.{
  ℕ, suc, ◌+◌, ◌^◌, ◌<◌, ◌≡◌, refl, ap, ◌∙◌, some, List, [], ◌∷◌, ◌++◌, map, append_assoc, length,
  All,
}
use go_hsql.Base.Int.{ℤ, pos}
use go_hsql.Base.Words.{Bytes, IsInt}
use go_hsql.Proto.Utf8.{Text}
use go_hsql.Proto.Errors.{ok}
use go_hsql.Proto.RowOutput.{write_int}
use go_hsql.Proto.RowInput.{new_row_input}
use go_hsql.Proto.RowInput.RoundTrip.{read_int-write_int}
use go_hsql.Proto.Types.Kind.{ColumnType}
use go_hsql.Proto.Metadata.{
  Column, Metadata, empty_metadata, meta_result, meta_simple_result, meta_update_result, meta_param,
  meta_generated_idx, meta_generated_name,
}
use go_hsql.Proto.Metadata.Write.{write_metadata, write_meta_body}
use go_hsql.Proto.Metadata.Read.{read_metadata, read_kinded, read_counted, read_meta_body}
use go_hsql.Proto.Metadata.RoundTrip.Parts.{
  IsColumnType, IsWireText, IsWireColumn, IsWireParam, without_size,
}

-- A type descriptor that its code and its base code say all of.
abbrev pub IsSimpleType : ColumnType → Type 0
IsSimpleType c = IsColumnType c × (without_size c ≡ c)

abbrev pub of_kind : ℤ → ℕ → Metadata
of_kind kind n = record empty_metadata { meta_type = kind; column_count = pos n }

abbrev pub types_metadata : ℤ → List ColumnType → Metadata
types_metadata kind ts = record (of_kind kind (length ts)) { types = ts }

abbrev pub params_metadata : List Column → Metadata
params_metadata cs = record (of_kind meta_param (length cs)) {
  types = map (λ c. c.column_type) cs;
  columns = cs;
}

-- The types of the columns come first, then those of the columns that are not visible.
abbrev pub result_metadata : List Column → List ColumnType → List ℤ → Metadata
result_metadata cs hidden idx = record (of_kind meta_result (length cs)) {
  extended_count = pos (length cs + length hidden);
  types = map (λ c. c.column_type) cs ++ hidden;
  columns = cs;
  col_indexes = idx;
}

-- The metadata that the protocol has, with all of its numbers and texts in range.
pub data IsWireMetadata : Metadata → Type 0 where
  simple :
      (ts : List ColumnType)
      → (length ts < 2 ^ 31)
      → All IsSimpleType ts
      → IsWireMetadata (types_metadata meta_simple_result ts)
  update :
      (ts : List ColumnType)
      → (length ts < 2 ^ 31)
      → All IsSimpleType ts
      → IsWireMetadata (types_metadata meta_update_result ts)
  generated_idx :
      (idx : List ℤ)
      → (length idx < 2 ^ 31)
      → All (IsInt 32) idx
      → IsWireMetadata (record (of_kind meta_generated_idx (length idx)) { col_indexes = idx })
  generated_name :
      (labels : List Text)
      → (length labels < 2 ^ 31)
      → All IsWireText labels
      → IsWireMetadata (record (of_kind meta_generated_name (length labels)) { labels = labels })
  param :
      (cs : List Column)
      → (length cs < 2 ^ 31)
      → All IsWireParam cs
      → IsWireMetadata (params_metadata cs)
  visible :
      (cs : List Column)
      → (length cs < 2 ^ 31)
      → All IsWireColumn cs
      → All IsColumnType (map (λ c. c.column_type) cs)
      → IsWireMetadata (result_metadata cs [] [])
  extended :
      (cs : List Column) (t : ColumnType) (ts : List ColumnType) (idx : List ℤ)
      → (length cs + suc (length ts) < 2 ^ 31)
      → All IsWireColumn cs
      → All IsColumnType (map (λ c. c.column_type) cs ++ (t ∷ ts))
      → (length idx ≡ length cs)
      → All (IsInt 32) idx
      → IsWireMetadata (result_metadata cs (t ∷ ts) idx)

-- Metadata that is written as some bytes, which are read back in front of any others.
abbrev pub ReadsBack : Metadata → Type 0
ReadsBack m =
    (b : Bytes) × (write_metadata (some m) ≡ ok b)
    × ((rest : Bytes) → read_metadata (new_row_input (b ++ rest)) ≡ ok (m, new_row_input rest))

pub read_metadata_header :
    (m : Metadata) (b : Bytes)
    → IsInt 32 m.meta_type
    → IsInt 32 m.column_count
    → write_meta_body m ≡ ok b
    → ((rest : Bytes)
        → read_meta_body
            (record empty_metadata { meta_type = m.meta_type; column_count = m.column_count })
            (new_row_input (b ++ rest))
          ≡ ok (m, new_row_input rest))
    → ReadsBack m
unfolding write_metadata read_metadata read_kinded read_counted
read_metadata_header m b hk hc w r = (
  (write_int m.meta_type ++ (write_int m.column_count ++ b)),
  (rw (w) refl),
  λ rest.
      rw
        (
          append_assoc (write_int m.meta_type) (write_int m.column_count ++ b) rest,
          append_assoc (write_int m.column_count) b rest,
        )
        (ap read_kinded
            (read_int-write_int m.meta_type (write_int m.column_count ++ (b ++ rest)) hk)
          ∙ (ap (read_counted m.meta_type) (read_int-write_int m.column_count (b ++ rest) hc)
              ∙ r rest)),
)
