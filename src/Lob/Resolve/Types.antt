-- ===== src/Lob/Resolve/Types.antt =====
-- rows.go resolveValue: the Go type of what the driver hands over.
use go_hsql.Base.{ℕ, ◌≡◌, refl, sym, ◌⊎◌, inl, inr, true, false, Option, List, arith, subst}
use go_hsql.Base.Int.{ℤ, pos, negsuc}
use go_hsql.Base.Words.{Bytes}
use go_hsql.Proto.Types.Kind.{ColumnType}
use go_hsql.Proto.Types.Value.{
  Value, Values, null, int64, float64, bool, string, bytes, time, array_value, lob_ref,
}
use go_hsql.Proto.RowInput.{RowInput}
use go_hsql.Proto.Types.Read.{read_value}
use go_hsql.Conn.Arrays.{ArrayHost, encode_array_text}
use go_hsql.Conn.ColumnTypes.{
  GoType, int64_type, float64_type, bool_type, string_type, bytes_type, time_type, any_type,
  scan_type,
}
use go_hsql.Conn.ColumnTypes.Sound.{Becomes, read_value-Becomes, read_value-kind}
use go_hsql.Lob.Utf16.{utf16_decode}
use go_hsql.Lob.Fetch.{
  LobRequest, LobConn, LobAction, Fetched, fetched, lob_failed, lob_panicked, and_then, lob_length,
  lob_get_bytes, lob_get_chars, fetch_lob,
}
use go_hsql.Lob.Resolve.{resolve_elements, resolve_value}

-- A Go value is nil, or of a type that scanType names: an array and a reference to a LOB are not.
abbrev pub IsOf : GoType → Value → Type 0
IsOf g null = Unit
IsOf g (int64 n) = g ≡ int64_type
IsOf g (float64 x) = g ≡ float64_type
IsOf g (bool b) = g ≡ bool_type
IsOf g (string s) = g ≡ string_type
IsOf g (bytes b) = g ≡ bytes_type
IsOf g (time t) = g ≡ time_type
IsOf g v = ◌≡◌ {A = ℕ} 0 1

-- A call that follows another succeeds only behind it.
and_then_ok :
    {A B : Type 0} (f : A → LobAction B) (p : Fetched A × LobConn) (b : B)
    → (and_then f p).0 ≡ fetched b
    → (a : A) × (d : LobConn) × ((f a d).0 ≡ fetched b)
unfolding and_then
and_then_ok f (fetched a, c) b h = (a, c, h)
and_then_ok f (lob_failed e, c) b h = ground arith
and_then_ok f (lob_panicked, c) b h = ground arith

fetched_eq : {A : Type 0} (a b : A) → ◌≡◌ {A = Fetched A} (fetched a) (fetched b) → a ≡ b
fetched_eq a b h = ground arith

module _ (server : List LobRequest → LobRequest → Option Bytes) where
  bytes-IsOf :
      (id n : ℤ) (c : LobConn) (v : Value)
      → (lob_get_bytes server id n c).0 ≡ fetched v
      → IsOf bytes_type v
  unfolding lob_get_bytes
  bytes-IsOf id (pos n) c v h =
      let (b, d, same) = and_then_ok (λ b d. (fetched (bytes b), d)) _ v h in
      subst (IsOf bytes_type) (fetched_eq (bytes b) v same) refl
  bytes-IsOf id (negsuc n) c v h = ground arith

  chars-IsOf :
      (id n : ℤ) (c : LobConn) (v : Value)
      → (lob_get_chars server id n c).0 ≡ fetched v
      → IsOf string_type v
  unfolding lob_get_chars
  chars-IsOf id (pos n) c v h =
      let (units, d, same) =
        and_then_ok (λ units d. (fetched (string (utf16_decode units)), d)) _ v h in
      subst (IsOf string_type) (fetched_eq (string (utf16_decode units)) v same) refl
  chars-IsOf id (negsuc n) c v h = ground arith

  clob-IsOf :
      (id : ℤ) (c : LobConn) (v : Value)
      → (fetch_lob server id true c).0 ≡ fetched v
      → IsOf string_type v
  unfolding fetch_lob
  clob-IsOf id c v h =
      let (n, d, got) = and_then_ok (λ n. lob_get_chars server id n) (lob_length server id c) v h in
      chars-IsOf id n d v got

  blob-IsOf :
      (id : ℤ) (c : LobConn) (v : Value)
      → (fetch_lob server id false c).0 ≡ fetched v
      → IsOf bytes_type v
  unfolding fetch_lob
  blob-IsOf id c v h =
      let (n, d, got) = and_then_ok (λ n. lob_get_bytes server id n) (lob_length server id c) v h in
      bytes-IsOf id n d v got

  array-IsOf :
      (host : ArrayHost) (p : Fetched Values × LobConn) (v : Value)
      → (and_then (λ ws d. (fetched (string (encode_array_text host ws)), d)) p).0 ≡ fetched v
      → IsOf string_type v
  array-IsOf host p v h =
      let (ws, d, same) =
        and_then_ok (λ ws d. (fetched (string (encode_array_text host ws)), d)) p v h in
      subst (IsOf string_type) (fetched_eq (string (encode_array_text host ws)) v same) refl

  resolved-IsOf :
      (host : ArrayHost) (g : GoType) (w v : Value) (c : LobConn)
      → Becomes g w
      → (resolve_value server host w c).0 ≡ fetched v
      → IsOf g v
  unfolding resolve_value
  resolved-IsOf host g (lob_ref id true) v c b h =
      subst (λ t. IsOf t v) (sym b) (clob-IsOf id c v h)
  resolved-IsOf host g (lob_ref id false) v c b h =
      subst (λ t. IsOf t v) (sym b) (blob-IsOf id c v h)
  resolved-IsOf host g (array_value vs e) v c b h =
      subst (λ t. IsOf t v) (sym b) (array-IsOf host (resolve_elements server vs c) v h)
  resolved-IsOf host g w v c b h = subst (IsOf g) (fetched_eq w v h) b

  -- What the driver hands over for a column, a value that ReadValue has read from any input and that
  -- resolveValue has made of it without an error, with whatever the server answers to the requests for
  -- a LOB, is nil or an int64, a float64, a bool, a string, a []byte or a time, for every code; and it is
  -- nil or of the Go type that scanType gives for the column's code, unless that is `any`.
  pub resolve_value-scan_type :
      (host : ArrayHost) (t : ColumnType) (r : RowInput) (c : LobConn) (v : Value)
      → (resolve_value server host (read_value t r).0 c).0 ≡ fetched v
      → ((g : GoType) × IsOf g v) × ((scan_type t.code ≡ any_type) ⊎ IsOf (scan_type t.code) v)
  resolve_value-scan_type host t r c v h =
      let (g, b) = read_value-kind t r in
      let w = (read_value t r).0 in
      (
        (g, resolved-IsOf host g w v c b h),
        elim (read_value-Becomes t r) [
          | inl e ↦ inl e
          | inr b ↦ inr (resolved-IsOf host (scan_type t.code) w v c b h)
        ],
      )
