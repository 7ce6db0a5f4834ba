-- ===== src/Conn/Out.antt =====
-- callable.go: the OUT and INOUT parameters of a CALL.
pub mod Assign
use go_hsql.Base.{
  ℕ, suc, ◌⊎◌, inl, inr, Bool, true, false, not, ◌||◌, Option, none, some, List, [], ◌∷◌,
  if◌then◌else◌,
}
use go_hsql.Base.Int.{ℤ, pos, eqb_ℤ, is_neg}
use go_hsql.Base.Words.{Bytes, to_word, wrap}
use go_hsql.Proto.Utf8.{Text}
use go_hsql.Proto.Types.Value.{
  Value, null, int64, int, int32, float64, float32, bool, string, bytes, time,
}

-- The bits of an integer type.
pub data Width : Type 0 where
  w8 w16 w32 w64 : Width

abbrev pub bits : Width → ℕ
bits w8 = 8
bits w16 = 16
bits w32 = 32
bits w64 = 64

-- What sql.Out.Dest points to; the first two are refused.
pub data OutDest : Type 0 where
  nil_dest not_pointer : OutDest
  scanner_dest any_dest time_dest bytes_dest string_dest : OutDest
  int_dest uint_dest : Width → OutDest
  float32_dest float64_dest bool_dest other_dest : OutDest

pub data OutError : Type 0 where
  nil_destination not_a_pointer unsupported_input cannot_assign unsupported_destination : OutError
  overflows : ℤ → OutError
  no_out_values : ℕ → OutError
  no_values : OutError
  out_of_range : ℕ → OutError
  scan_error unresolved : OutError

-- sql.Out with what Dest points to now.
pub record Out : Type 0 where
  pub dest : OutDest
  pub is_in : Bool
  pub in_value : Value

-- An argument of a CALL.
pub data Argument : Type 0 where
  plain : Value → Argument
  out : Out → Argument

-- checkOutValue.
unfoldable pub check_out_value : OutDest → Option OutError
check_out_value nil_dest = some nil_destination
check_out_value not_pointer = some not_a_pointer
check_out_value d = none

-- checkOutInputValue: true for nil. The int8 and int16 that it lets through too are no Value.
unfoldable pub check_out_input_value : Value → Bool
check_out_input_value null = true
check_out_input_value (bool b) = true
check_out_input_value (string s) = true
check_out_input_value (bytes b) = true
check_out_input_value (time t) = true
check_out_input_value (int n) = true
check_out_input_value (int32 n) = true
check_out_input_value (int64 n) = true
check_out_input_value (float32 x) = true
check_out_input_value (float64 x) = true
check_out_input_value v = false

-- What splitOutParams puts in the place of an sql.Out.
unfoldable pub out_input : Out → OutError ⊎ Value
unfolding check_out_value check_out_input_value
out_input o = elim (check_out_value o.dest) [
  | some e ↦ inl e
  | none ↦
      if o.is_in
      then (if check_out_input_value o.in_value then inr o.in_value else inl unsupported_input)
      else inr null
]

unfoldable pub put_out :
    ℕ
    → Out
    → OutError ⊎ Value
    → OutError ⊎ (List Value × List (ℕ × Out))
    → OutError ⊎ (List Value × List (ℕ × Out))
put_out i o (inl e) rest = inl e
put_out i o (inr v) (inl e) = inl e
put_out i o (inr v) (inr (values, outs)) = inr (v ∷ values, (i, o) ∷ outs)

unfoldable pub put_plain :
    Value → OutError ⊎ (List Value × List (ℕ × Out)) → OutError ⊎ (List Value × List (ℕ × Out))
put_plain v (inl e) = inl e
put_plain v (inr (values, outs)) = inr (v ∷ values, outs)

-- splitOutParams from position i on: the values, and the OUT destinations by position.
unfoldable pub split_out_params : ℕ → List Argument → OutError ⊎ (List Value × List (ℕ × Out))
unfolding put_out put_plain out_input
split_out_params i [] = inr ([], [])
split_out_params i (plain v ∷ args) = put_plain v (split_out_params (suc i) args)
split_out_params i (out o ∷ args) = put_out i o (out_input o) (split_out_params (suc i) args)

-- What assignOutValue uses of Go's conversions, of fmt.Sprint and of an sql.Scanner.
pub record OutHost : Type 0 where
  pub int64_of_float : ℕ → ℤ
  pub float_of_int64 : ℤ → ℕ
  pub float32_of : ℕ → ℕ
  pub text_of_bytes : Bytes → Text
  pub bytes_of_text : Text → Bytes
  pub sprint : Value → Text
  pub scan : Value → OutError ⊎ Value

-- reflect's OverflowInt and OverflowUint.
unfoldable pub overflow_int : Width → ℤ → Bool
overflow_int w n = not (eqb_ℤ (wrap (bits w) n) n)

unfoldable pub overflow_uint : Width → ℤ → Bool
overflow_uint w n = not (eqb_ℤ (pos (to_word (bits w) n)) n)

-- reflect.Zero of a destination's type.
unfoldable pub zero_of : OutDest → Value
zero_of string_dest = string []
zero_of (int_dest w) = int64 (pos 0)
zero_of (uint_dest w) = int64 (pos 0)
zero_of float32_dest = float32 0
zero_of float64_dest = float64 0
zero_of bool_dest = bool false
zero_of d = null

module _ (host : OutHost) where
  unfoldable pub as_out_int64 : Value → OutError ⊎ ℤ
  as_out_int64 (int64 n) = inr n
  as_out_int64 (float64 x) = inr (host.int64_of_float x)
  as_out_int64 (bool b) = inr (if b then pos 1 else pos 0)
  as_out_int64 v = inl cannot_assign

  unfoldable pub store_int : Width → OutError ⊎ ℤ → OutError ⊎ Value
  unfolding overflow_int
  store_int w (inl e) = inl e
  store_int w (inr n) = if overflow_int w n then inl (overflows n) else inr (int64 n)

  unfoldable pub store_uint : Width → OutError ⊎ ℤ → OutError ⊎ Value
  unfolding overflow_uint
  store_uint w (inl e) = inl e
  store_uint w (inr n) = if is_neg n || overflow_uint w n then inl (overflows n) else inr (int64 n)

  unfoldable pub store_bytes : Value → OutError ⊎ Value
  store_bytes null = inr (bytes [])
  store_bytes (bytes b) = inr (bytes b)
  store_bytes (string s) = inr (bytes (host.bytes_of_text s))
  store_bytes v = inl cannot_assign

  unfoldable pub store_time : Value → OutError ⊎ Value
  store_time (time t) = inr (time t)
  store_time v = inl cannot_assign

  unfoldable pub store_text : Value → Value
  store_text (string s) = string s
  store_text (bytes b) = string (host.text_of_bytes b)
  store_text v = string (host.sprint v)

  unfoldable pub store_float : (ℕ → Value) → Value → OutError ⊎ Value
  store_float f (float64 x) = inr (f x)
  store_float f (int64 n) = inr (f (host.float_of_int64 n))
  store_float f v = inl cannot_assign

  unfoldable pub store_bool : Value → OutError ⊎ Value
  store_bool (bool b) = inr (bool b)
  store_bool v = inl cannot_assign

  -- assignOutValue by the kind of the destination, for a value that is not nil.
  unfoldable pub store : OutDest → Value → OutError ⊎ Value
  unfolding as_out_int64 store_int store_uint store_text store_float store_bool
  store string_dest v = inr (store_text v)
  store (int_dest w) v = store_int w (as_out_int64 v)
  store (uint_dest w) v = store_uint w (as_out_int64 v)
  store float32_dest v = store_float (λ x. float32 (host.float32_of x)) v
  store float64_dest v = store_float float64 v
  store bool_dest v = store_bool v
  store nil_dest v = inl not_a_pointer
  store not_pointer v = inl not_a_pointer
  store d v = inl unsupported_destination

  unfoldable pub is_pointer : OutDest → Bool
  is_pointer nil_dest = false
  is_pointer not_pointer = false
  is_pointer d = true

  unfoldable pub store_any : OutDest → Value → OutError ⊎ Value
  unfolding store zero_of is_pointer
  store_any d null = if is_pointer d then inr (zero_of d) else inl not_a_pointer
  store_any d v = store d v

  -- What assignOutValue stores, or its error.
  unfoldable pub assign_out_value : OutDest → Value → OutError ⊎ Value
  unfolding store_any store_bytes store_time
  assign_out_value scanner_dest v = host.scan v
  assign_out_value any_dest v = inr v
  assign_out_value time_dest v = store_time v
  assign_out_value bytes_dest v = store_bytes v
  assign_out_value d v = store_any d v
