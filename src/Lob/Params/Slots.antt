-- ===== src/Lob/Params/Slots.antt =====
-- lob.go prepareLobParams: one slot.
use go_hsql.Base.{
  ℕ, zero, suc, ◌≡◌, refl, sym, ◌∙◌, inl, inr, Bool, true, false, ◌&&◌, ◌||◌, Option, none, some,
  List, [], ◌∷◌, ◌++◌, arith, if◌then◌else◌, Bool-cases, length,
}
use go_hsql.Base.Int.{ℤ, negsuc, eqb_ℤ}
use go_hsql.Proto.Const.{sql_blob, sql_clob}
use go_hsql.Proto.Types.Kind.{ColumnType}
use go_hsql.Proto.Types.Coerce.{Host}
use go_hsql.Proto.Types.Value.{Value, lob_ref, blob, clob, string, bytes}
use go_hsql.Lob.Frames.{PendingLob}
use go_hsql.Lob.Params.{
  is_bound, LobSlot, kept, refused, sent, sent_or_refused, blob_param, clob_param, lob_slot,
}

unfoldable pub is_lob : ColumnType → Bool
is_lob t = eqb_ℤ t.code sql_blob || eqb_ℤ t.code sql_clob

-- Each slot of a LOB type holds nil or a LobRef.
unfoldable pub all_bound : List ColumnType → List Value → Bool
unfolding is_lob is_bound
all_bound [] vs = true
all_bound (t ∷ ts) [] = true
all_bound (t ∷ ts) (v ∷ vs) = (if is_lob t then is_bound v else true) && all_bound ts vs

-- The LobRef that stands in a slot where none stood before, with the slot's type.
unfoldable pub new_ref : ColumnType → Value → Value → List (ℤ × Bool)
unfolding is_bound
new_ref t v (lob_ref id is_clob) = if is_bound v then [] else (id, eqb_ℤ t.code sql_clob) ∷ []
new_ref t v w = []

unfoldable pub new_refs : List ColumnType → List Value → List Value → List (ℤ × Bool)
unfolding new_ref
new_refs (t ∷ ts) (v ∷ vs) (w ∷ ws) = new_ref t v w ++ new_refs ts vs ws
new_refs ts vs ws = []

-- n ids from the negative number -k - 1 downwards.
unfoldable pub ids_from : ℕ → ℕ → List ℤ
ids_from k zero = []
ids_from k (suc n) = negsuc k ∷ ids_from (suc k) n

pub data IsSlot (t : ColumnType) (v : Value) : LobSlot → Type 0 where
  is_kept : (if is_lob t then is_bound v else true) ≡ true → new_ref t v v ≡ [] → IsSlot t v kept
  is_refused : IsSlot t v refused
  is_sent :
      {lob : PendingLob}
      → is_bound v ≡ false
      → lob.is_clob ≡ eqb_ℤ t.code sql_clob
      → IsSlot t v (sent lob)

pub new_ref-same : (t : ColumnType) → (v : Value) → new_ref t v v ≡ []
unfolding new_ref is_bound
new_ref-same t (lob_ref id is_clob) = refl
new_ref-same t v = refl

pub either_true : (b : Bool) → (if b then true else true) ≡ true
either_true b = ground arith

pub quiet_of_bound :
    (t : ColumnType)
    → (v : Value) → is_bound v ≡ true
    → (if is_lob t then is_bound v else true) ≡ true
quiet_of_bound t v bound = rw (bound) (either_true (is_lob t))

pub quiet_of_type :
    (t : ColumnType)
    → (v : Value) → eqb_ℤ t.code sql_blob ≡ false
    → eqb_ℤ t.code sql_clob ≡ false
    → (if is_lob t then is_bound v else true) ≡ true
unfolding is_lob
quiet_of_type t v not_blob not_clob = rw (not_blob, not_clob) refl

pub data IsParam (flag : Bool) : Option PendingLob → Type 0 where
  no_param : IsParam flag none
  is_param : {lob : PendingLob} → lob.is_clob ≡ flag → IsParam flag (some lob)

module _ (host : Host) where
  pub blob_param-IsParam : (v : Value) → IsParam false (blob_param host v)
  unfolding blob_param
  blob_param-IsParam (bytes x) = is_param refl
  blob_param-IsParam (string x) = is_param refl
  blob_param-IsParam (blob (some reader) length) = is_param refl
  blob_param-IsParam (blob none length) = no_param
  blob_param-IsParam v = no_param

  pub clob_param-IsParam : (v : Value) → IsParam true (clob_param host v)
  unfolding clob_param
  clob_param-IsParam (bytes x) = is_param refl
  clob_param-IsParam (string x) = is_param refl
  clob_param-IsParam (clob (some reader) length) = is_param refl
  clob_param-IsParam (clob none length) = no_param
  clob_param-IsParam v = no_param

  pub IsParam-IsSlot :
      (t : ColumnType)
      → (v : Value) → (flag : Bool) → is_bound v ≡ false
      → flag ≡ eqb_ℤ t.code sql_clob
      → {p : Option PendingLob} → IsParam flag p
      → IsSlot t v (sent_or_refused p)
  unfolding sent_or_refused
  IsParam-IsSlot t v flag loose of_type no_param = is_refused
  IsParam-IsSlot t v flag loose of_type (is_param is_flag) = is_sent loose (is_flag ∙ of_type)

  pub lob_slot-IsSlot : (t : ColumnType) → (v : Value) → IsSlot t v (lob_slot host t v)
  unfolding lob_slot
  lob_slot-IsSlot t v = elim (Bool-cases (is_bound v)) [
    | inl e ↦ rw (e) (is_kept (quiet_of_bound t v e) (new_ref-same t v))
    | inr e ↦ elim (Bool-cases (eqb_ℤ t.code sql_blob)) [
      | inl b ↦ rw (e, b) (IsParam-IsSlot t v false e (ground arith) (blob_param-IsParam v))
      | inr nb ↦ elim (Bool-cases (eqb_ℤ t.code sql_clob)) [
        | inl b ↦ rw (e, nb, b) (IsParam-IsSlot t v true e (sym b) (clob_param-IsParam v))
        | inr nc ↦ rw (e, nb, nc) (is_kept (quiet_of_type t v nb nc) (new_ref-same t v))
      ]
    ]
  ]
