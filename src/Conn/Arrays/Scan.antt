-- ===== src/Conn/Arrays/Scan.antt =====
-- array.go: Scan, setArrayElement and inferArrayElement. A destination is the element type of the
-- slice that it points to; an integer of any type that is stored is the int64 of its number.
use go_hsql.Base.{
  ℕ, suc, ◌+◌, ◌-◌, ◌*◌, ◌%◌, ◌^◌, inl, inr, false, ◌&&◌, Option, none, some, List, [], ◌∷◌, leb,
  if◌then◌else◌,
}
use go_hsql.Base.Int.{pos, negsuc}
use go_hsql.Base.Words.{Bytes, wrap}
use go_hsql.Proto.Types.Value.{Value, null, int64, float64, float32, bool, string, bytes, time}
use go_hsql.Conn.Arrays.{
  ArrayHost, ArrayElem, Scanned, bad_element, not_scannable, bad_destination, parse_array_elements,
}

-- What reflect tells of an element type.
pub data ElemType : Type 0 where
  time_elem bytes_elem string_elem : ElemType
  int_elem uint_elem : ℕ → ElemType
  float32_elem float64_elem bool_elem any_elem other_elem : ElemType

-- The zero value of an element type; a time.Time starts in the year 1.
unfoldable pub zero_element : ElemType → Value
zero_element time_elem = time (record { unix = negsuc 62135596799; nanosecond = 0; offset = pos 0 })
zero_element bytes_elem = bytes []
zero_element string_elem = string []
zero_element (int_elem w) = int64 (pos 0)
zero_element (uint_elem w) = int64 (pos 0)
zero_element float32_elem = float32 0
zero_element float64_elem = float64 0
zero_element bool_elem = bool false
zero_element any_elem = null
zero_element other_elem = null

unfoldable pub hex_value : ℕ → Option ℕ
hex_value c =
    if leb 48 c && leb c 57
    then some (c - 48)
    else if leb 97 c && leb c 102
    then some (c - 87)
    else if leb 65 c && leb c 70
    then some (c - 55)
    else none

unfoldable pub put_byte : Option ℕ → Option ℕ → Option Bytes → Option Bytes
put_byte (some h) (some l) (some rest) = some ((h * 16 + l) ∷ rest)
put_byte h l rest = none

-- hex.DecodeString.
unfoldable pub hex_decode : List ℕ → Option Bytes
unfolding hex_value put_byte
hex_decode [] = some []
hex_decode (h ∷ []) = none
hex_decode (h ∷ l ∷ s) = put_byte (hex_value h) (hex_value l) (hex_decode s)

-- `if err != nil { return err }`, and the value that is set.
unfoldable pub set_parsed : {A : Type 0} → (A → Value) → Option A → Option Value
set_parsed f none = none
set_parsed f (some a) = some (f a)

unfoldable pub or_else : Option Value → Value → Value
or_else none v = v
or_else (some w) v = w

module _ (host : ArrayHost) where
  unfoldable pub infer_array_element : ArrayElem → Value
  unfolding set_parsed or_else
  infer_array_element e =
      if e.quoted
      then string e.raw
      else or_else (set_parsed int64 (host.parse_int e.raw)) (
          or_else (set_parsed float64 (host.parse_float e.raw))
            (or_else (set_parsed bool (host.parse_bool e.raw)) (string e.raw)))

  -- setArrayElement: none is an error of strconv, time or hex. SetInt and SetUint keep the low bits.
  unfoldable pub set_array_element : ElemType → ArrayElem → Option Value
  unfolding set_parsed infer_array_element
  set_array_element time_elem e = set_parsed time (host.parse_time e.raw)
  set_array_element bytes_elem e =
      if e.quoted
      then some (bytes (host.bytes_of_text e.raw))
      else set_parsed bytes (hex_decode e.raw)
  set_array_element string_elem e = some (string e.raw)
  set_array_element (int_elem w) e = set_parsed (λ n. int64 (wrap w n)) (host.parse_int e.raw)
  set_array_element (uint_elem w) e =
      set_parsed (λ n. int64 (pos (n % 2 ^ w))) (host.parse_uint e.raw)
  set_array_element float32_elem e =
      set_parsed (λ x. float32 (host.float32_of x)) (host.parse_float e.raw)
  set_array_element float64_elem e = set_parsed float64 (host.parse_float e.raw)
  set_array_element bool_elem e = set_parsed bool (host.parse_bool e.raw)
  set_array_element any_elem e = some (infer_array_element e)
  set_array_element other_elem e = none

  -- A NULL is the zero value of the element type.
  unfoldable pub element_value : ElemType → ArrayElem → Option Value
  unfolding set_array_element
  element_value t e = if e.is_null then some (zero_element t) else set_array_element t e

  unfoldable pub put_element : ℕ → Option Value → Scanned (List Value) → Scanned (List Value)
  put_element i none rest = inl (bad_element i)
  put_element i (some v) (inl e) = inl e
  put_element i (some v) (inr vs) = inr (v ∷ vs)

  -- The slice from position i on.
  unfoldable pub scan_elements : ElemType → ℕ → List ArrayElem → Scanned (List Value)
  unfolding put_element element_value
  scan_elements t i [] = inr []
  scan_elements t i (e ∷ elems) = put_element i (element_value t e) (scan_elements t (suc i) elems)

  unfoldable pub scan_parsed : ElemType → Scanned (List ArrayElem) → Scanned (List Value)
  unfolding scan_elements
  scan_parsed t (inl e) = inl e
  scan_parsed t (inr elems) = scan_elements t 0 elems

  -- Scan into a pointer to a slice of an element type, or into anything else: the nil slice and an
  -- empty one are both [].
  unfoldable pub scan_array : (List ℕ → List ℕ) → Option ElemType → Value → Scanned (List Value)
  unfolding scan_parsed
  scan_array text_of_bytes none src = inl bad_destination
  scan_array text_of_bytes (some t) null = inr []
  scan_array text_of_bytes (some t) (string s) = scan_parsed t (parse_array_elements host s)
  scan_array text_of_bytes (some t) (bytes b) =
      scan_parsed t (parse_array_elements host (text_of_bytes b))
  scan_array text_of_bytes (some t) v = inl not_scannable
