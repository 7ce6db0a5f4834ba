-- ===== src/Lob/Params.antt =====
-- array_param.go and lob.go: the ARRAY and LOB parameters of a request. The driver binds them in the
-- request's own slice of values, which a function therefore returns also where it fails.
pub mod Slots
pub mod Bound
use go_hsql.Base.{
  ℕ, Bool, true, false, Option, none, some, List, [], ◌∷◌, ◌==◌, if◌then◌else◌, length, take,
}
use go_hsql.Base.Int.{ℤ, pos, pos_part, ◌-ℤ◌, eqb_ℤ}
use go_hsql.Base.Words.{Bytes, wrap}
use go_hsql.Proto.Const.{mode_execute, mode_update_result, sql_blob, sql_clob, sql_array}
use go_hsql.Proto.Types.Kind.{ColumnType}
use go_hsql.Proto.Types.Coerce.{Host}
use go_hsql.Proto.Types.Value.{
  Value, Source, null, string, bytes, array_value, lob_ref, array, blob, clob,
}
use go_hsql.Proto.Metadata.{Metadata}
use go_hsql.Proto.Result.{Result}
use go_hsql.Lob.Utf16.{utf16_encode}
use go_hsql.Lob.Frames.{PendingLob}

-- Types[:ColumnCount].
unfoldable pub slot_types : Metadata → List ColumnType
slot_types m = take (pos_part m.column_count) m.types

-- BatchRows[0] of one row.
unfoldable pub update_slots : Metadata → List (List Value) → List ColumnType × List Value
unfolding slot_types
update_slots m (row ∷ []) = (slot_types m, row)
update_slots m rows = ([], [])

unfoldable pub request_param_slots : Result → List ColumnType × List Value
unfolding slot_types update_slots
request_param_slots req =
    if req.mode == mode_execute
    then elim req.param_meta [ some m ↦ (slot_types m, req.param_values) | none ↦ ([], []) ]
    else if req.mode == mode_update_result
    then elim req.meta [ some m ↦ update_slots m req.batch_rows | none ↦ ([], []) ]
    else ([], [])

unfoldable pub with_batch_row : List (List Value) → List Value → List (List Value)
with_batch_row (row ∷ []) vs = vs ∷ []
with_batch_row rows vs = rows

-- The request behind writes to that slice, where there is one.
unfoldable pub with_slots : Result → List Value → Result
unfolding with_batch_row
with_slots req vs =
    if req.mode == mode_execute
    then elim req.param_meta [ some m ↦ record req { param_values = vs } | none ↦ req ]
    else if req.mode == mode_update_result
    then elim req.meta [
      | some m ↦ record req { batch_rows = with_batch_row req.batch_rows vs }
      | none ↦ req
    ]
    else req

-- The ARRAY value of one turn of prepareArrayParams, or none where it returns an error.
unfoldable pub array_of : Value → Option Value
array_of (array vs) = some (array_value vs (pos 0))
array_of (array_value vs elem_code) = some (array_value vs elem_code)
array_of v = none

unfoldable pub array_slot : ColumnType → Value → Option Value
unfolding array_of
array_slot t null = some null
array_slot t v = if eqb_ℤ t.code sql_array then array_of v else some v

-- The values behind the loop of prepareArrayParams, and whether it ends without an error.
unfoldable pub array_slots : List ColumnType → List Value → List Value × Bool
unfolding array_slot
array_slots [] vs = (vs, true)
array_slots (t ∷ ts) [] = ([], true)
array_slots (t ∷ ts) (v ∷ vs) = elim (array_slot t v) [
  | some w ↦ (let (ws, done) = array_slots ts vs in (w ∷ ws, done))
  | none ↦ (v ∷ vs, false)
]

unfoldable pub prepare_array_params : Result → Result × Bool
unfolding request_param_slots array_slots with_slots
prepare_array_params req =
    let (types, values) = request_param_slots req in
    let (vs, done) = array_slots types values in (with_slots req vs, done)

-- A pendingLob without its id; a nil reader is an error.
abbrev pub blob_lob : Bytes → Option (Source Bytes) → ℤ → PendingLob
blob_lob payload reader length = record {
  id = pos 0;
  is_clob = false;
  payload = payload;
  chars = [];
  blob_reader = reader;
  clob_reader = none;
  length = length;
}

abbrev pub clob_lob : List ℕ → Option (Source ℕ) → ℤ → PendingLob
clob_lob chars reader length = record {
  id = pos 0;
  is_clob = true;
  payload = [];
  chars = chars;
  blob_reader = none;
  clob_reader = reader;
  length = length;
}

-- nextLobID: the id, and the sequence behind it.
unfoldable pub next_lob_id : ℤ → ℤ × ℤ
next_lob_id seq = (seq, wrap 64 (seq -ℤ pos 1))

-- What one turn of prepareLobParams does with a slot.
pub data LobSlot : Type 0 where
  kept : LobSlot
  refused : LobSlot
  sent : PendingLob → LobSlot

unfoldable pub sent_or_refused : Option PendingLob → LobSlot
sent_or_refused none = refused
sent_or_refused (some lob) = sent lob

-- The values and the sequence of ids behind the loop, and the pending LOBs if it returns them.
pub record Prepared : Type 0 where
  pub values : List Value
  pub seq : ℤ
  pub lobs : Option (List PendingLob)

unfoldable pub with_lob : PendingLob → Option (List PendingLob) → Option (List PendingLob)
with_lob lob none = none
with_lob lob (some lobs) = some (lob ∷ lobs)

-- A nil value or a LobRef, which the loop passes over.
unfoldable pub is_bound : Value → Bool
is_bound null = true
is_bound (lob_ref id is_clob) = true
is_bound v = false

-- The rest of the loop goes on with the sequence of ids.
unfoldable pub bind_slot : ℤ → Value → List Value → (ℤ → Prepared) → LobSlot → Prepared
unfolding with_lob
bind_slot seq v vs rest kept = let p = rest seq in record p { values = v ∷ p.values }
bind_slot seq v vs rest refused = record { values = v ∷ vs; seq = seq; lobs = none }
bind_slot seq v vs rest (sent lob) =
    let (id, seq_after) = next_lob_id seq in
    let p = rest seq_after in
    record {
      values = lob_ref id lob.is_clob ∷ p.values;
      seq = p.seq;
      lobs = with_lob (record lob { id = id }) p.lobs;
    }

module _ (host : Host) where
  unfoldable pub blob_param : Value → Option PendingLob
  blob_param (bytes x) = some (blob_lob x none (pos 0))
  blob_param (string x) = some (blob_lob (host.bytes_of_text x) none (pos 0))
  blob_param (blob (some reader) length) = some (blob_lob [] (some reader) length)
  blob_param v = none

  unfoldable pub clob_param : Value → Option PendingLob
  clob_param (string x) = some (clob_lob (utf16_encode x) none (pos 0))
  clob_param (bytes x) = some (clob_lob (utf16_encode (host.text_of_bytes x)) none (pos 0))
  clob_param (clob (some reader) length) = some (clob_lob [] (some reader) length)
  clob_param v = none

  unfoldable pub lob_slot : ColumnType → Value → LobSlot
  unfolding sent_or_refused
  lob_slot t v =
      if is_bound v
      then kept
      else if eqb_ℤ t.code sql_blob
      then sent_or_refused (blob_param v)
      else if eqb_ℤ t.code sql_clob
      then sent_or_refused (clob_param v)
      else kept

  unfoldable pub lob_slots : List ColumnType → List Value → ℤ → Prepared
  unfolding bind_slot
  lob_slots [] vs seq = record { values = vs; seq = seq; lobs = some [] }
  lob_slots (t ∷ ts) [] seq = record { values = []; seq = seq; lobs = some [] }
  lob_slots (t ∷ ts) (v ∷ vs) seq = bind_slot seq v vs (lob_slots ts vs) (lob_slot t v)

  -- prepareLobParams: the request, the sequence of ids, and the pending LOBs if it returns them.
  unfoldable pub prepare_lob_params : Result → ℤ → Result × ℤ × Option (List PendingLob)
  prepare_lob_params req seq =
      let (types, values) = request_param_slots req in
      let p = lob_slots types values seq in (with_slots req p.values, p.seq, p.lobs)
