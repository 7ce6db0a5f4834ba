-- ===== src/Proto/Metadata/RoundTrip/Parts.antt =====
-- The parts of a metadata block: type descriptors, columns and lists of them.
use go_hsql.Base.{
  ◌^◌, ◌<◌, ◌≡◌, refl, sym, ap, ◌∙◌, Bool, true, false, List, [], ◌∷◌, ◌++◌, map, append_assoc,
  length, All,
}
use go_hsql.Base.Int.{ℤ, pos}
use go_hsql.Base.Words.{Bytes, IsInt}
use go_hsql.Proto.Utf8.{Text, IsRune, encode_modified_utf8}
use go_hsql.Proto.Errors.{ok}
use go_hsql.Proto.RowOutput.{write_u8, write_int, write_string, write_type, write_long}
use go_hsql.Proto.RowInput.{RowInput, Reader, new_row_input}
use go_hsql.Proto.RowInput.RoundTrip.{
  read_u8-write_u8, read_int-write_int, read_long-write_long, read_string-write_string,
  read_type-write_type,
}
use go_hsql.Proto.Types.Kind.{ColumnType, is_array}
use go_hsql.Proto.Types.Write.{write_data_type, write_data_type_simple, write_base}
use go_hsql.Proto.Types.Read.{read_data_type, read_data_type_simple, read_base}
use go_hsql.Proto.Metadata.{Column}
use go_hsql.Proto.Metadata.Write.{write_all, write_first, write_params_loop, write_column}
use go_hsql.Proto.Metadata.Read.{
  read_list, read_param, read_column, read_columns, next_column, column_of, ◌>=>◌,
}

-- A descriptor that the wire carries: its numbers are in range, and only an array has a base type.
pub record IsColumnType (c : ColumnType) : Type 0 where
  pub code_fits : IsInt 16 c.code
  pub base_fits : IsInt 16 c.base_code
  pub base_zero : is_array c ≡ false → c.base_code ≡ pos 0
  pub precision_fits : IsInt 64 c.precision
  pub scale_fits : IsInt 32 c.scale

abbrev pub without_size : ColumnType → ColumnType
without_size c = record c { precision = pos 0; scale = pos 0 }

-- A text that the wire carries.
abbrev pub IsWireText : Text → Type 0
IsWireText s = All IsRune s × (length (encode_modified_utf8 s) < 2 ^ 31)

abbrev after : ColumnType → RowInput → ColumnType × RowInput
after c r = (without_size c, r)

read_base-write_base :
    (array : Bool) (base : ℤ) (rest : Bytes)
    → IsInt 16 base
    → (array ≡ false → base ≡ pos 0)
    → read_base array (new_row_input (write_base array base ++ rest)) ≡ (base, new_row_input rest)
unfolding read_base write_base
read_base-write_base true base rest h z = read_type-write_type base rest h
read_base-write_base false base rest h z = ap (λ b. (b, new_row_input rest)) (sym (z refl))

pub read_data_type_simple-write_data_type_simple :
    (c : ColumnType) (rest : Bytes)
    → IsColumnType c
    → read_data_type_simple (new_row_input (write_data_type_simple c ++ rest))
      ≡ (without_size c, new_row_input rest)
unfolding read_data_type_simple write_data_type_simple
read_data_type_simple-write_data_type_simple c rest h =
    rw
      (
        append_assoc (write_type c.code) (write_base (is_array c) c.base_code) rest,
        read_type-write_type c.code (write_base (is_array c) c.base_code ++ rest) h.code_fits,
        read_base-write_base (is_array c) c.base_code rest h.base_fits h.base_zero,
      )
      refl

pub read_data_type-write_data_type :
    (c : ColumnType) (rest : Bytes)
    → IsColumnType c
    → read_data_type (new_row_input (write_data_type c ++ rest)) ≡ (c, new_row_input rest)
unfolding read_data_type write_data_type
read_data_type-write_data_type c rest h =
    rw
      (
        append_assoc (write_data_type_simple c) (write_long c.precision ++ write_int c.scale) rest,
        append_assoc (write_long c.precision) (write_int c.scale) rest,
        read_data_type_simple-write_data_type_simple c
            (write_long c.precision ++ (write_int c.scale ++ rest)) h,
        read_long-write_long c.precision (write_int c.scale ++ rest) h.precision_fits,
        read_int-write_int c.scale rest h.scale_fits,
      )
      refl

pub record IsWireColumn (c : Column) : Type 0 where
  pub label_fits : IsWireText c.label
  pub catalog_fits : IsWireText c.catalog
  pub schema_fits : IsWireText c.schema
  pub table_fits : IsWireText c.table
  pub name_fits : IsWireText c.name
  pub attrs_fits : c.attrs < 256

pub read_column-write_column :
    (c : Column) (rest : Bytes)
    → IsWireColumn c
    → read_column c.column_type (new_row_input (write_column c ++ rest)) ≡ (c, new_row_input rest)
unfolding read_column write_column
read_column-write_column c rest h =
    rw
      (
        append_assoc (write_string c.label)
            (write_string c.catalog
              ++ (write_string c.schema
                  ++ (write_string c.table ++ (write_string c.name ++ write_u8 c.attrs))))
            rest,
        append_assoc (write_string c.catalog)
            (write_string c.schema
              ++ (write_string c.table ++ (write_string c.name ++ write_u8 c.attrs)))
            rest,
        append_assoc (write_string c.schema)
            (write_string c.table ++ (write_string c.name ++ write_u8 c.attrs)) rest,
        append_assoc (write_string c.table) (write_string c.name ++ write_u8 c.attrs) rest,
        append_assoc (write_string c.name) (write_u8 c.attrs) rest,
        read_string-write_string c.label
            (write_string c.catalog
              ++ (write_string c.schema
                  ++ (write_string c.table ++ (write_string c.name ++ (write_u8 c.attrs ++ rest)))))
            h.label_fits.0 h.label_fits.1,
        read_string-write_string c.catalog
            (write_string c.schema
              ++ (write_string c.table ++ (write_string c.name ++ (write_u8 c.attrs ++ rest))))
            h.catalog_fits.0 h.catalog_fits.1,
        read_string-write_string c.schema
            (write_string c.table ++ (write_string c.name ++ (write_u8 c.attrs ++ rest)))
            h.schema_fits.0 h.schema_fits.1,
        read_string-write_string c.table (write_string c.name ++ (write_u8 c.attrs ++ rest))
            h.table_fits.0 h.table_fits.1,
        read_string-write_string c.name (write_u8 c.attrs ++ rest) h.name_fits.0 h.name_fits.1,
        read_u8-write_u8 c.attrs rest,
      )
      refl

-- A list of what `write` writes and `read` reads back, one behind the other.
pub read_list-write_all :
    {A : Type 0} (write : A → Bytes) (read : Reader A) (Fits : A → Type 0)
    → ((x : A) (rest : Bytes)
        → Fits x
        → read (new_row_input (write x ++ rest)) ≡ (x, new_row_input rest))
    → (xs : List A) (rest : Bytes) → All Fits xs
    → read_list (length xs) read (new_row_input (write_all write xs ++ rest))
      ≡ (xs, new_row_input rest)
unfolding read_list write_all
read_list-write_all write read Fits back [] rest h = refl
read_list-write_all write read Fits back (x ∷ xs) rest (h, hs) =
    rw
      (
        append_assoc (write x) (write_all write xs) rest,
        back x (write_all write xs ++ rest) h,
        read_list-write_all write read Fits back xs rest hs,
      )
      refl

pub write_first_lem :
    {A : Type 0} (write : A → Bytes) (xs : List A)
    → write_first write (length xs) xs ≡ ok (write_all write xs)
unfolding write_first write_all
write_first_lem write [] = refl
write_first_lem write (x ∷ xs) = rw (write_first_lem write xs) refl

-- What a round of the PARAM case's loop writes.
abbrev pub write_param : Column → Bytes
write_param c = write_data_type c.column_type ++ (write_string c.label ++ write_u8 c.attrs)

pub write_params_loop_lem :
    (cs : List Column)
    → write_params_loop (length cs) (map (λ c. c.column_type) cs) cs ≡ ok (write_all write_param cs)
unfolding write_params_loop write_all
write_params_loop_lem [] = refl
write_params_loop_lem (c ∷ cs) =
    rw
      (
        write_params_loop_lem cs,
        append_assoc (write_data_type c.column_type) (write_string c.label ++ write_u8 c.attrs)
            (write_all write_param cs),
        append_assoc (write_string c.label) (write_u8 c.attrs) (write_all write_param cs),
      )
      refl

-- A column of parameter metadata: it has a type, a label and attributes, all of them on the wire.
pub record IsWireParam (c : Column) : Type 0 where
  pub type_fits : IsColumnType c.column_type
  pub label_fits : IsWireText c.label
  pub attrs_fits : c.attrs < 256
  pub rest_empty : column_of c.column_type c.label c.attrs ≡ c

pub read_param-write_param :
    (c : Column) (rest : Bytes)
    → IsWireParam c
    → read_param (new_row_input (write_param c ++ rest)) ≡ (c, new_row_input rest)
unfolding read_param
read_param-write_param c rest h =
    rw
      (
        append_assoc (write_data_type c.column_type) (write_string c.label ++ write_u8 c.attrs)
            rest,
        append_assoc (write_string c.label) (write_u8 c.attrs) rest,
        read_data_type-write_data_type c.column_type
            (write_string c.label ++ (write_u8 c.attrs ++ rest)) h.type_fits,
        read_string-write_string c.label (write_u8 c.attrs ++ rest) h.label_fits.0 h.label_fits.1,
        read_u8-write_u8 c.attrs rest,
      )
      (ap (λ d. (d, new_row_input rest)) h.rest_empty)

pub read_columns-write_all :
    (cs : List Column) (more : List ColumnType) (rest : Bytes)
    → All IsWireColumn cs
    → read_columns
        (length cs)
        (map (λ c. c.column_type) cs ++ more)
        (new_row_input (write_all write_column cs ++ rest))
      ≡ ok (cs, new_row_input rest)
unfolding read_columns write_all next_column
read_columns-write_all [] more rest h = refl
read_columns-write_all (c ∷ cs) more rest (h, hs) =
    rw (append_assoc (write_column c) (write_all write_column cs) rest) (
      ap (next_column (read_columns (length cs) (map (λ d. d.column_type) cs ++ more)))
        (read_column-write_column c (write_all write_column cs ++ rest) h)
      ∙ ap (λ o. o >=> λ ds t. ok (c ∷ ds, t)) (read_columns-write_all cs more rest hs))
