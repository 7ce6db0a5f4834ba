-- ===== src/Proto/Metadata/Read.antt =====
-- internal/proto/result.go readMetadata.
use go_hsql.Base.{ℕ, zero, suc, ◌||◌, none, some, List, [], ◌∷◌, map, if◌then◌else◌}
use go_hsql.Base.Int.{ℤ, pos, negsuc, eqb_ℤ}
use go_hsql.Proto.Utf8.{Text}
use go_hsql.Proto.Errors.{Outcome, ok, panic, unknown_metadata}
use go_hsql.Proto.RowInput.{RowInput, Reader, pure, ◌>>=◌, read_u8, read_int, read_string}
use go_hsql.Proto.Types.Kind.{ColumnType}
use go_hsql.Proto.Types.Read.{read_data_type, read_data_type_simple}
use go_hsql.Proto.Metadata.{
  Column, Metadata, empty_metadata, meta_result, meta_simple_result, meta_update_result, meta_param,
  meta_generated_idx, meta_generated_name,
}

-- `for i := range xs { xs[i] = read }` on a slice of n elements. A read after an error is a zero
-- value, and the loop goes on.
unfoldable pub read_list : {A : Type 0} → ℕ → Reader A → Reader (List A)
read_list zero read r = ([], r)
read_list (suc n) read r = let (x, s) = read r in let (xs, t) = read_list n read s in (x ∷ xs, t)

-- make([]T, n) and the loop over it: a negative length panics.
unfoldable pub read_slice : {A : Type 0} → ℤ → Reader A → RowInput → Outcome (List A × RowInput)
read_slice (pos n) read r = ok (read_list n read r)
read_slice (negsuc n) read r = panic

abbrev pub column_of : ColumnType → Text → ℕ → Column
column_of t label attrs = record {
  column_type = t;
  label = label;
  catalog = [];
  schema = [];
  table = [];
  name = [];
  attrs = attrs;
}

unfoldable pub read_param : Reader Column
read_param = do
  t ← read_data_type
  label ← read_string
  attrs ← read_u8
  pure (column_of t label attrs)

-- A column of the RESULT case, before its type is set.
unfoldable pub read_column : ColumnType → Reader Column
read_column t = do
  label ← read_string
  catalog ← read_string
  schema ← read_string
  table ← read_string
  name ← read_string
  attrs ← read_u8
  pure (record {
    column_type = t;
    label = label;
    catalog = catalog;
    schema = schema;
    table = table;
    name = name;
    attrs = attrs;
  })

-- A step that may panic, and the input behind it.
infixl 5 ◌>=>◌
abbrev pub ◌>=>◌ :
    {A B : Type 0}
    → Outcome (A × RowInput)
    → (A → RowInput → Outcome (B × RowInput))
    → Outcome (B × RowInput)
ok p >=> f = f p.0 p.1
Outcome.err e >=> f = Outcome.err e
panic >=> f = panic

-- A round of the loop over the columns, on the column and the input behind it.
unfoldable pub next_column :
    (RowInput → Outcome (List Column × RowInput))
    → Column × RowInput
    → Outcome (List Column × RowInput)
next_column more (c, s) = more s >=> λ cs t. ok (c ∷ cs, t)

-- The loop over the columns: `col.Type = m.Types[i]` panics where there is no such type.
unfoldable pub read_columns : ℕ → List ColumnType → RowInput → Outcome (List Column × RowInput)
unfolding next_column
read_columns zero ts r = ok ([], r)
read_columns (suc n) [] r = panic
read_columns (suc n) (t ∷ ts) r = next_column (read_columns n ts) (read_column t r)

unfoldable pub read_col_indexes : Metadata → RowInput → Outcome (Metadata × RowInput)
read_col_indexes m r =
    if eqb_ℤ m.column_count m.extended_count
    then ok (m, r)
    else (read_slice m.column_count read_int r >=> λ idx s. ok (record m { col_indexes = idx }, s))

-- make([]Column, m.ColumnCount) panics before any column is read.
unfoldable pub read_columns_of : Metadata → RowInput → Outcome (List Column × RowInput)
read_columns_of m r = elim m.column_count [ pos n ↦ read_columns n m.types r | negsuc n ↦ panic ]

unfoldable pub read_extended : Metadata → ℤ × RowInput → Outcome (Metadata × RowInput)
read_extended m (ext, s) = read_slice ext read_data_type s >=> λ ts t.
    read_columns_of (record m { extended_count = ext; types = ts }) t >=> λ cs u.
    read_col_indexes (record m { extended_count = ext; types = ts; columns = cs }) u

unfoldable pub read_result_meta : Metadata → RowInput → Outcome (Metadata × RowInput)
unfolding read_extended
read_result_meta m r = read_extended m (read_int r)

-- The switch on the metadata's type; any other type breaks the input.
unfoldable pub read_meta_body : Metadata → RowInput → Outcome (Metadata × RowInput)
read_meta_body m r =
    if eqb_ℤ m.meta_type meta_simple_result || eqb_ℤ m.meta_type meta_update_result
    then (read_slice m.column_count read_data_type_simple r >=> λ ts s.
        ok (record m { types = ts }, s))
    else if eqb_ℤ m.meta_type meta_generated_idx
    then (read_slice m.column_count read_int r >=> λ idx s. ok (record m { col_indexes = idx }, s))
    else if eqb_ℤ m.meta_type meta_generated_name
    then (read_slice m.column_count read_string r >=> λ ls s. ok (record m { labels = ls }, s))
    else if eqb_ℤ m.meta_type meta_param
    then (read_slice m.column_count read_param r >=> λ cs s.
        ok (record m { types = map (λ c. c.column_type) cs; columns = cs }, s))
    else if eqb_ℤ m.meta_type meta_result
    then read_result_meta m r
    else ok (m, record r { err = some (unknown_metadata m.meta_type) })

-- What readMetadata does behind the metadata's type and number of columns.
unfoldable pub read_counted : ℤ → ℤ × RowInput → Outcome (Metadata × RowInput)
read_counted kind (count, t) =
    let m = record empty_metadata { meta_type = kind; column_count = count } in
    elim t.err [ some e ↦ ok (m, t) | none ↦ read_meta_body m t ]

unfoldable pub read_kinded : ℤ × RowInput → Outcome (Metadata × RowInput)
unfolding read_counted
read_kinded (kind, s) = read_counted kind (read_int s)

unfoldable pub read_metadata : RowInput → Outcome (Metadata × RowInput)
unfolding read_kinded
read_metadata r = read_kinded (read_int r)
