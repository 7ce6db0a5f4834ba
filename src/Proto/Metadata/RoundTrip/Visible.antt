-- ===== src/Proto/Metadata/RoundTrip/Visible.antt =====
-- internal/proto/result.go: the RESULT case of writeMetadata and readMetadata.
use go_hsql.Base.{
  subst, ℕ, suc, ◌+◌, ◌^◌, ◌<◌, ◌≡◌, refl, sym, ap, ◌∙◌, true, false, List, [], ◌∷◌, ◌++◌, map,
  append_assoc, append-nil, arith, length, length-append, All, length-map,
}
use go_hsql.Base.Int.{ℤ, pos, eqb_ℤ}
use go_hsql.Base.Words.{Bytes, IsInt}
use go_hsql.Proto.Errors.{ok}
use go_hsql.Proto.RowOutput.{write_int}
use go_hsql.Proto.RowInput.{new_row_input, read_int}
use go_hsql.Proto.RowInput.RoundTrip.{read_int-write_int}
use go_hsql.Proto.Types.Kind.{ColumnType}
use go_hsql.Proto.Types.Write.{write_data_type}
use go_hsql.Proto.Types.Read.{read_data_type}
use go_hsql.Proto.Metadata.{Column, meta_result}
use go_hsql.Proto.Metadata.Write.{
  write_all, write_first, write_column, write_meta_body, write_result_meta,
}
use go_hsql.Proto.Metadata.Read.{
  read_list, read_slice, read_extended, read_meta_body, read_result_meta, read_columns_of,
  read_col_indexes,
}
use go_hsql.Proto.Metadata.RoundTrip.Parts.{
  IsColumnType, IsWireColumn, read_list-write_all, read_data_type-write_data_type, write_first_lem,
  read_columns-write_all,
}
use go_hsql.Proto.Metadata.RoundTrip.Wire.{
  of_kind, result_metadata, ReadsBack, read_metadata_header,
}

types_length :
    (cs : List Column) (hidden : List ColumnType)
    → length (map (λ c. c.column_type) cs ++ hidden) ≡ length cs + length hidden
types_length cs hidden =
    length-append (map (λ c. c.column_type) cs) hidden
    ∙ ap (λ n. n + length hidden) (length-map cs (λ c. c.column_type))

types_back :
    (cs : List Column) (hidden : List ColumnType) (rest : Bytes)
    → All IsColumnType (map (λ c. c.column_type) cs ++ hidden)
    → read_list
        (length cs + length hidden)
        read_data_type
        (new_row_input (write_all write_data_type (map (λ c. c.column_type) cs ++ hidden) ++ rest))
      ≡ (map (λ c. c.column_type) cs ++ hidden, new_row_input rest)
types_back cs hidden rest h =
    let types = map {A = Column} {B = ColumnType} (λ c. c.column_type) cs in
    subst
      (λ n.
        read_list n read_data_type
          (new_row_input (write_all write_data_type (types ++ hidden) ++ rest))
        ≡ (types ++ hidden, new_row_input rest))
      (types_length cs hidden)
      (read_list-write_all write_data_type read_data_type IsColumnType
        read_data_type-write_data_type (types ++ hidden) rest h)

-- The RESULT case up to the map of its columns, which stands where there are hidden columns.
read_extended_lem :
    (cs : List Column) (hidden : List ColumnType) (rest : Bytes)
    → (length cs + length hidden < 2 ^ 31)
    → All IsWireColumn cs
    → All IsColumnType (map (λ c. c.column_type) cs ++ hidden)
    → read_result_meta (of_kind meta_result (length cs)) (
        new_row_input (
          write_int (pos (length cs + length hidden))
          ++ (write_all write_data_type (map (λ c. c.column_type) cs ++ hidden)
              ++ (write_all write_column cs ++ rest))))
      ≡ read_col_indexes (result_metadata cs hidden []) (new_row_input rest)
unfolding read_result_meta read_extended read_slice read_columns_of
read_extended_lem cs hidden rest n h k =
    ap (read_extended (of_kind meta_result (length cs))) (
      read_int-write_int (pos (length cs + length hidden))
        (write_all write_data_type (map (λ c. c.column_type) cs ++ hidden)
          ++ (write_all write_column cs ++ rest))
        n)
    ∙ (rw
        (
          types_back cs hidden (write_all write_column cs ++ rest) k,
          read_columns-write_all cs hidden rest h,
        )
        refl)

abbrev result_bytes : List Column → List ColumnType → Bytes → Bytes
result_bytes cs hidden tail =
    write_int (pos (length cs + length hidden))
    ++ (write_all write_data_type (map (λ c. c.column_type) cs ++ hidden)
        ++ (write_all write_column cs ++ tail))

append_result :
    (cs : List Column) (hidden : List ColumnType) (tail rest : Bytes)
    → result_bytes cs hidden tail ++ rest ≡ result_bytes cs hidden (tail ++ rest)
append_result cs hidden tail rest =
    let a = write_int (pos (length cs + length hidden)) in
    let b = write_all write_data_type (map (λ c. c.column_type) cs ++ hidden) in
    let c = write_all write_column cs in
    append_assoc a (b ++ (c ++ tail)) rest
    ∙ ap (λ x. a ++ x)
        (append_assoc b (c ++ tail) rest ∙ ap (λ x. b ++ x) (append_assoc c tail rest))

eqb_visible : (n : ℕ) → eqb_ℤ (pos n) (pos (n + 0)) ≡ true
eqb_visible n = ground arith

eqb_extended : (n k : ℕ) → eqb_ℤ (pos n) (pos (n + suc k)) ≡ false
eqb_extended n k = ground arith

write_types_lem :
    (cs : List Column) (hidden : List ColumnType)
    → write_first write_data_type
        (length cs + length hidden)
        (map (λ c. c.column_type) cs ++ hidden)
      ≡ ok (write_all write_data_type (map (λ c. c.column_type) cs ++ hidden))
write_types_lem cs hidden =
    let types = map {A = Column} {B = ColumnType} (λ c. c.column_type) cs in
    subst
      (λ n.
        write_first write_data_type n (types ++ hidden)
        ≡ ok (write_all write_data_type (types ++ hidden)))
      (types_length cs hidden) (write_first_lem write_data_type (types ++ hidden))

pub visible_lem :
    (cs : List Column)
    → (length cs < 2 ^ 31)
    → All IsWireColumn cs
    → All IsColumnType (map (λ c. c.column_type) cs)
    → ReadsBack (result_metadata cs [] [])
unfolding write_meta_body write_result_meta read_meta_body read_col_indexes read_slice
visible_lem cs n h k =
    read_metadata_header (result_metadata cs [] []) (result_bytes cs [] []) (omega arith) n
      (rw (write_types_lem cs [], write_first_lem write_column cs, eqb_visible (length cs)) refl)
      (λ rest. rw (append_result cs [] [] rest) (
        read_extended_lem cs [] rest (omega arith) h
          (rw (append-nil (map {A = Column} {B = ColumnType} (λ c. c.column_type) cs)) k)
        ∙ rw (eqb_visible (length cs)) refl))

pub extended_lem :
    (cs : List Column) (t : ColumnType) (ts : List ColumnType) (idx : List ℤ)
    → (length cs + suc (length ts) < 2 ^ 31)
    → All IsWireColumn cs
    → All IsColumnType (map (λ c. c.column_type) cs ++ (t ∷ ts))
    → (length idx ≡ length cs)
    → All (IsInt 32) idx
    → ReadsBack (result_metadata cs (t ∷ ts) idx)
unfolding write_meta_body write_result_meta read_meta_body read_col_indexes read_slice
extended_lem cs t ts idx n h k l hi =
    read_metadata_header (result_metadata cs (t ∷ ts) idx)
      (result_bytes cs (t ∷ ts) (write_all write_int idx)) (omega arith) (omega arith)
      (rw
        (
          write_types_lem cs (t ∷ ts),
          write_first_lem write_column cs,
          eqb_extended (length cs) (length ts),
        )
        refl)
      (λ rest. rw (append_result cs (t ∷ ts) (write_all write_int idx) rest) (
        read_extended_lem cs (t ∷ ts) (write_all write_int idx ++ rest) n h k
        ∙ rw
            (
              eqb_extended (length cs) (length ts),
              sym l,
              read_list-write_all write_int read_int (IsInt 32) read_int-write_int idx rest hi,
            )
            refl))
