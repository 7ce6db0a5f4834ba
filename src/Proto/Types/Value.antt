-- ===== src/Proto/Types/Value.antt =====
-- The dynamic values of type `any` that package proto and the driver pass around.
use go_hsql.Base.{ℕ, suc, Bool, List, Option}
use go_hsql.Base.Int.{ℤ}
use go_hsql.Base.Words.{Bytes}
use go_hsql.Proto.Utf8.{Text}

-- A time.Time: the instant in seconds from the epoch, the nanoseconds within the second, and the
-- offset of its zone in seconds.
pub record Time : Type 0 where
  pub unix : ℤ
  pub nanosecond : ℕ
  pub offset : ℤ

-- What an io.Reader hands out: the chunks of its successive Reads, or the runes of a text, and then
-- io.EOF, or else another error.
pub record Source (A : Type 0) : Type 0 where
  pub items : List A
  pub at_eof : Bool

-- An unscaled big.Int with its scale.
pub record Decimal : Type 0 where
  pub unscaled : ℤ
  pub scale : ℤ

-- A float64 or float32 is its bit pattern. `other` is any Go value of a type that no switch of the
-- driver names, by the text that fmt.Sprint gives for it.
mutual
  pub data Value : Type 0 where
    null : Value
    int64 : ℤ → Value
    int : ℤ → Value
    int32 : ℤ → Value
    float64 : ℕ → Value
    float32 : ℕ → Value
    bool : Bool → Value
    string : Text → Value
    bytes : Bytes → Value
    time : Time → Value
    decimal : Decimal → Value
    array_value : Values → ℤ → Value
    lob_ref : ℤ → Bool → Value
    array : Values → Value
    nil_array : Value
    -- The driver's Blob and Clob, with the reader if it is not nil, and the length.
    blob : Option (Source Bytes) → ℤ → Value
    clob : Option (Source ℕ) → ℤ → Value
    other : Text → Value

  -- The []any inside an ARRAY.
  pub data Values : Type 0 where
    nil : Values
    cons : Value → Values → Values

unfoldable pub size : Values → ℕ
size nil = 0
size (cons v vs) = suc (size vs)
