-- ===== src/Proto/Metadata/Write.antt =====
-- internal/proto/result.go writeMetadata.
use go_hsql.Base.{ℕ, zero, suc, ◌||◌, Option, none, some, List, [], ◌∷◌, ◌++◌, if◌then◌else◌}
use go_hsql.Base.Int.{pos, pos_part, eqb_ℤ}
use go_hsql.Base.Words.{Bytes}
use go_hsql.Proto.Errors.{Outcome, ok, panic, ◌>>=◌}
use go_hsql.Proto.RowOutput.{write_u8, write_int, write_string}
use go_hsql.Proto.Types.Kind.{ColumnType}
use go_hsql.Proto.Types.Write.{write_data_type, write_data_type_simple}
use go_hsql.Proto.Metadata.{
  Column, Metadata, meta_result, meta_simple_result, meta_update_result, meta_param,
  meta_generated_idx, meta_generated_name,
}

-- `for _, x := range xs`.
unfoldable pub write_all : {A : Type 0} → (A → Bytes) → List A → Bytes
write_all f [] = []
write_all f (x ∷ xs) = f x ++ write_all f xs

-- `for i := 0; i < n; i++` over xs[i].
unfoldable pub write_first : {A : Type 0} → (A → Bytes) → ℕ → List A → Outcome Bytes
write_first f zero xs = ok []
write_first f (suc n) [] = panic
write_first f (suc n) (x ∷ xs) = write_first f n xs >>= λ b. ok (f x ++ b)

-- The loop of the PARAM case over m.Types[i] and m.Columns[i].
unfoldable pub write_params_loop : ℕ → List ColumnType → List Column → Outcome Bytes
write_params_loop zero ts cs = ok []
write_params_loop (suc n) (t ∷ ts) (c ∷ cs) = write_params_loop n ts cs >>= λ b.
    ok (write_data_type t ++ (write_string c.label ++ (write_u8 c.attrs ++ b)))
write_params_loop (suc n) _ _ = panic

unfoldable pub write_column : Column → Bytes
write_column c =
    write_string c.label
    ++ (write_string c.catalog
        ++ (write_string c.schema
            ++ (write_string c.table ++ (write_string c.name ++ write_u8 c.attrs))))

-- The RESULT case.
unfoldable pub write_result_meta : Metadata → Outcome Bytes
write_result_meta m = write_first write_data_type (pos_part m.extended_count) m.types >>= λ ts.
    write_first write_column (pos_part m.column_count) m.columns >>= λ cs. ok (
      write_int m.extended_count
      ++ (ts
          ++ (cs
              ++ (if eqb_ℤ m.column_count m.extended_count
                  then []
                  else write_all write_int m.col_indexes))))

-- The switch on the metadata's type.
unfoldable pub write_meta_body : Metadata → Outcome Bytes
unfolding write_result_meta
write_meta_body m =
    if eqb_ℤ m.meta_type meta_simple_result || eqb_ℤ m.meta_type meta_update_result
    then ok (write_all write_data_type_simple m.types)
    else if eqb_ℤ m.meta_type meta_generated_idx
    then ok (write_all write_int m.col_indexes)
    else if eqb_ℤ m.meta_type meta_generated_name
    then ok (write_all write_string m.labels)
    else if eqb_ℤ m.meta_type meta_param
    then write_params_loop (pos_part m.column_count) m.types m.columns
    else if eqb_ℤ m.meta_type meta_result
    then write_result_meta m
    else ok []

unfoldable pub write_metadata : Option Metadata → Outcome Bytes
write_metadata none = ok (write_int meta_simple_result ++ write_int (pos 0))
write_metadata (some m) =
    write_meta_body m >>= λ b. ok (write_int m.meta_type ++ (write_int m.column_count ++ b))
