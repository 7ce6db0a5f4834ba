-- ===== src/Proto/Types/Read/Fuel.antt =====
-- The depth of ReadValue's recursion: more fuel than 3 changes nothing, on any input.
use go_hsql.Base.{ℕ, suc, ◌≡◌, refl, ap, ◌≢◌}
use go_hsql.Base.Int.{ℤ, pos}
use go_hsql.Proto.RowInput.{RowInput, Reader}
use go_hsql.Proto.Types.Kind.{ColumnType, simple_type, Kind, all_types, array, kind_of}
use go_hsql.Proto.Types.Value.{Value}
use go_hsql.Proto.Types.Read.{read_array, read_kind, read_value_with, read_value_at, read_value}
use mathlib.Core.Path.{fun_ext}

-- The cases but that of an array do not read elements.
read_kind_leaf :
    (k : Kind) (c : ColumnType) (f g : Reader Value) → k ≢ array → read_kind k c f ≡ read_kind k c g
unfolding read_kind
read_kind_leaf array c f g h = absurd (h refl)
read_kind_leaf all_types c f g h = refl
read_kind_leaf _ c f g h = refl

read_value_with_leaf :
    (c : ColumnType) (f g : Reader Value)
    → kind_of c.code ≢ array
    → read_value_with c f ≡ read_value_with c g
unfolding read_value_with
read_value_with_leaf c f g h = fun_ext λ r.
    rw (read_kind_leaf (kind_of c.code) c (read_array c.base_code f) (read_array c.base_code g) h)

-- Code 0, the element type of an array inside an array, is no array.
zero_ne_array : kind_of (pos 0) ≢ array
unfolding kind_of
zero_ne_array = λ e. cc

leaf_fuel :
    (d e : ℕ)
    → read_value_at (suc d) (simple_type (pos 0)) ≡ read_value_at (suc e) (simple_type (pos 0))
unfolding read_value_at
leaf_fuel d e = read_value_with_leaf (simple_type (pos 0)) _ _ zero_ne_array

element_fuel :
    (d e : ℕ) (base : ℤ)
    → read_value_at (suc (suc d)) (simple_type base)
      ≡ read_value_at (suc (suc e)) (simple_type base)
unfolding read_value_at
element_fuel d e base = ap (read_value_with (simple_type base)) (leaf_fuel d e)

-- ReadValue calls itself three times deep at most: read_value satisfies the recursive equation of
-- the source, and more fuel reads the same on every input, for every column type.
pub read_value_fuel :
    (c : ColumnType) (d : ℕ) (r : RowInput)
    → (read_value c r ≡ read_value_with c (read_value (simple_type c.base_code)) r)
      × (read_value_at (suc (suc (suc d))) c r ≡ read_value c r)
unfolding read_value
read_value_fuel c d r = (
  ap (λ f. read_value_with c f r) (element_fuel 0 1 c.base_code),
  ap (λ f. read_value_with c f r) (element_fuel d 0 c.base_code),
)
