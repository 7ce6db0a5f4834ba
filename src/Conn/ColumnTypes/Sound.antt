-- ===== src/Conn/ColumnTypes/Sound.antt =====
-- rows_coltype.go against types.go: what scanType announces is what ReadValue produces.
use go_hsql.Base.{
  ℕ, ◌≡◌, refl, sym, ◌⊎◌, inl, inr, true, false, List, [], ◌∷◌, arith, ◌==◌, if◌then◌else◌,
  Bool-cases, All, subst,
}
use go_hsql.Base.Int.{ℤ, eqb_ℤ, eq_of_parts}
use go_hsql.Proto.Types.Kind.{
  ColumnType, Kind, all_types, text, small, integer, big, double, boolean, timestamp, binary, bits,
  year_month, day_second, array, lob, unknown, kind_of,
}
use go_hsql.Proto.Types.Value.{
  Value, null, int64, float64, bool, string, bytes, time, array_value, lob_ref,
}
use go_hsql.Proto.RowInput.{RowInput, Reader, read_u8, read_int}
use go_hsql.Proto.Types.Read.{
  read_bits, bit_bytes, read_array_of, read_array, read_kind, read_value_with, read_value_at,
  read_value,
}
use go_hsql.Conn.ColumnTypes.{
  GoType, int64_type, float64_type, bool_type, string_type, bytes_type, time_type, any_type,
  is_one_of, scan_type, int64_types, float64_types, bool_types, string_types, bytes_types,
  time_types,
}

-- A value of the wire is nil, or is to become of the type: a CLOB reference a string, a BLOB reference
-- bytes, and an array its text.
abbrev pub Becomes : GoType → Value → Type 0
Becomes g null = Unit
Becomes g (int64 n) = g ≡ int64_type
Becomes g (float64 x) = g ≡ float64_type
Becomes g (bool b) = g ≡ bool_type
Becomes g (string s) = g ≡ string_type
Becomes g (bytes b) = g ≡ bytes_type
Becomes g (time t) = g ≡ time_type
Becomes g (array_value vs e) = g ≡ string_type
Becomes g (lob_ref id true) = g ≡ string_type
Becomes g (lob_ref id false) = g ≡ bytes_type
Becomes g v = ◌≡◌ {A = ℕ} 0 1

-- The type of what the case of ReadValue reads.
abbrev kind_type : Kind → GoType
kind_type all_types = any_type
kind_type text = string_type
kind_type small = int64_type
kind_type integer = int64_type
kind_type big = int64_type
kind_type double = float64_type
kind_type boolean = bool_type
kind_type Kind.decimal = string_type
kind_type Kind.date = time_type
kind_type (Kind.time zoned) = time_type
kind_type (timestamp zoned) = time_type
kind_type binary = bytes_type
kind_type bits = bytes_type
kind_type year_month = string_type
kind_type day_second = string_type
kind_type array = string_type
kind_type (lob is_clob) = if is_clob then string_type else bytes_type
kind_type unknown = any_type

-- Both are equal at equal codes.
eqb_eq : (a b : ℤ) → eqb_ℤ a b ≡ true → a ≡ b
eqb_eq a b h = ground (arith, eq_of_parts a b)

-- A claim on all codes is one on the codes of a list, and one on a code that is none of them.
by_codes :
    (P : ℤ → Type 0) (cs : List ℤ) (code : ℤ)
    → All P cs
    → (All (λ c. eqb_ℤ code c ≡ false) cs → P code)
    → P code
by_codes P [] code h k = k tt
by_codes P (c ∷ cs) code h k = elim (Bool-cases (eqb_ℤ code c)) [
  | inl e ↦ subst P (sym (eqb_eq code c e)) h.0
  | inr e ↦ by_codes P cs code h.1 (λ l. k (e, l))
]

is_one_of_none :
    (code : ℤ) (cs : List ℤ) → All (λ c. eqb_ℤ code c ≡ false) cs → is_one_of code cs ≡ false
unfolding is_one_of
is_one_of_none code [] h = refl
is_one_of_none code (c ∷ cs) h = rw (h.0) (is_one_of_none code cs h.1)

-- The announced type is `any`, or that of the case.
abbrev Announces : ℤ → Type 0
Announces code = (scan_type code ≡ any_type) ⊎ (scan_type code ≡ kind_type (kind_of code))

-- A code that no group of scanType names is announced as `any`.
unnamed :
    (code : ℤ)
    → All (λ c. eqb_ℤ code c ≡ false) int64_types
    → All (λ c. eqb_ℤ code c ≡ false) float64_types
    → All (λ c. eqb_ℤ code c ≡ false) bool_types
    → All (λ c. eqb_ℤ code c ≡ false) string_types
    → All (λ c. eqb_ℤ code c ≡ false) bytes_types
    → All (λ c. eqb_ℤ code c ≡ false) time_types
    → scan_type code ≡ any_type
unfolding scan_type
unnamed code a b c d e f =
    rw
      (
        is_one_of_none code int64_types a,
        is_one_of_none code float64_types b,
        is_one_of_none code bool_types c,
        is_one_of_none code string_types d,
        is_one_of_none code bytes_types e,
        is_one_of_none code time_types f,
      )
      refl

int64_lem : All Announces int64_types
unfolding scan_type is_one_of kind_of
int64_lem = (inr refl, (inr refl, (inr refl, (inr refl, tt))))

float64_lem : All Announces float64_types
unfolding scan_type is_one_of kind_of
float64_lem = (inr refl, (inr refl, (inr refl, tt)))

bool_lem : All Announces bool_types
unfolding scan_type is_one_of kind_of
bool_lem = (inr refl, tt)

bytes_lem : All Announces bytes_types
unfolding scan_type is_one_of kind_of
bytes_lem = (inr refl, (inr refl, (inr refl, (inr refl, tt))))

time_lem : All Announces time_types
unfolding scan_type is_one_of kind_of
time_lem = (inr refl, (inr refl, (inr refl, (inr refl, (inr refl, tt)))))

string_lem : All Announces string_types
unfolding scan_type is_one_of kind_of
string_lem = (
  inr refl,
  (
    inr refl,
    (
      inr refl,
      (
        inr refl,
        (
          inr refl,
          (
            inr refl,
            (
              inr refl,
              (
                inr refl,
                (
                  inr refl,
                  (
                    inr refl,
                    (
                      inr refl,
                      (
                        inr refl,
                        (inr refl, (inr refl, (inr refl, (inr refl, (inr refl, (inr refl, tt)))))),
                      ),
                    ),
                  ),
                ),
              ),
            ),
          ),
        ),
      ),
    ),
  ),
)

announces : (code : ℤ) → Announces code
announces code = by_codes Announces int64_types code int64_lem (λ a.
    by_codes Announces float64_types code float64_lem (λ b.
      by_codes Announces bool_types code bool_lem (λ c.
        by_codes Announces string_types code string_lem (λ d.
          by_codes Announces bytes_types code bytes_lem (λ e.
            by_codes Announces time_types code time_lem (λ f. inl (unnamed code a b c d e f)))))))

read_bits-Becomes : (n : ℤ) (r : RowInput) → Becomes bytes_type (read_bits n r).0
unfolding read_bits
read_bits-Becomes n r = ground arith

read_array-Becomes :
    (base : ℤ) (read : Reader Value) (r : RowInput) → Becomes string_type (read_array base read r).0
unfolding read_array read_array_of
read_array-Becomes base read r = ground arith

read_kind-Becomes :
    (k : Kind) (c : ColumnType) (elements : Reader Value) (r : RowInput)
    → Becomes string_type (elements r).0
    → Becomes (kind_type k) (read_kind k c elements r).0
unfolding read_kind
read_kind-Becomes all_types c elements r h = tt
read_kind-Becomes text c elements r h = refl
read_kind-Becomes small c elements r h = refl
read_kind-Becomes integer c elements r h = refl
read_kind-Becomes big c elements r h = refl
read_kind-Becomes double c elements r h = refl
read_kind-Becomes boolean c elements r h = refl
read_kind-Becomes Kind.decimal c elements r h = refl
read_kind-Becomes Kind.date c elements r h = refl
read_kind-Becomes (Kind.time zoned) c elements r h = refl
read_kind-Becomes (timestamp zoned) c elements r h = refl
read_kind-Becomes binary c elements r h = refl
read_kind-Becomes year_month c elements r h = refl
read_kind-Becomes day_second c elements r h = refl
read_kind-Becomes bits c elements r h = read_bits-Becomes (bit_bytes (read_int r).0) (read_int r).1
read_kind-Becomes array c elements r h = h
read_kind-Becomes (lob true) c elements r h = refl
read_kind-Becomes (lob false) c elements r h = refl
read_kind-Becomes unknown c elements r h = tt

read_value_with-Becomes :
    (c : ColumnType) (read : Reader Value) (r : RowInput)
    → Becomes (kind_type (kind_of c.code)) (read_value_with c read r).0
unfolding read_value_with
read_value_with-Becomes c read r = elim (Bool-cases ((read_u8 r).0 == 0)) [
  | inl e ↦ rw (e) tt
  | inr e ↦ rw (e) (
      read_kind-Becomes (kind_of c.code) c (read_array c.base_code read) (read_u8 r).1
        (read_array-Becomes c.base_code read (read_u8 r).1))
]

-- Whatever ReadValue reads is nil or to become of one of the Go types.
pub read_value-kind : (c : ColumnType) (r : RowInput) → (g : GoType) × Becomes g (read_value c r).0
unfolding read_value read_value_at
read_value-kind c r = (kind_type (kind_of c.code), read_value_with-Becomes c _ r)

-- Whatever ReadValue reads for a column, and from whatever input, is nil or to become of the Go type
-- that scanType gives for the column's code, unless that is `any`.
pub read_value-Becomes :
    (c : ColumnType) (r : RowInput)
    → (scan_type c.code ≡ any_type) ⊎ Becomes (scan_type c.code) (read_value c r).0
unfolding read_value read_value_at
read_value-Becomes c r = elim (announces c.code) [
  | inl e ↦ inl e
  | inr e ↦ inr (subst (λ g. Becomes g (read_value c r).0) (sym e) (read_value_with-Becomes c _ r))
]
