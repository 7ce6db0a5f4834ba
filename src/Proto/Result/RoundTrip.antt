-- ===== src/Proto/Result/RoundTrip.antt =====
-- internal/proto/result.go: the layout of a SETSESSIONATTR message, written by EncodePayload and
-- read by DecodeResult.
pub mod Attribute
use go_hsql.Base.{
  ℕ, ◌^◌, ◌<◌, ◌≡◌, refl, sym, ap, ◌∙◌, false, some, List, [], ◌∷◌, ◌++◌, append_assoc, append-nil,
  arith, ◌==◌, length,
}
use go_hsql.Base.Int.{ℤ, pos}
use go_hsql.Base.Words.{Bytes, wrap, IsInt}
use go_hsql.Proto.Const.{mode_set_session_attr}
use go_hsql.Proto.Errors.{ok}
use go_hsql.Proto.RowOutput.{write_int, write_short, write_long}
use go_hsql.Proto.RowInput.{new_row_input}
use go_hsql.Proto.RowInput.RoundTrip.{
  read_int-write_int, read_long-write_long, read_short-write_short,
}
use go_hsql.Proto.Types.Kind.{ColumnType}
use go_hsql.Proto.Types.Value.{Value}
use go_hsql.Proto.Types.Coerce.{Host}
use go_hsql.Proto.Types.Sends.{Sends}
use go_hsql.Proto.Types.RoundTrip.{read_value-write_value}
use go_hsql.Proto.Metadata.{Metadata}
use go_hsql.Proto.Metadata.RoundTrip.Wire.{IsWireMetadata}
use go_hsql.Proto.Metadata.RoundTrip.{read_metadata-write_metadata}
use go_hsql.Proto.Result.{empty_row_set, Result, new_result}
use go_hsql.Proto.Result.Encode.{
  write_row, write_rows, write_simple_rows, encode_batch, encode_payload,
}
use go_hsql.Proto.Result.Decode.{
  read_row, next_row, read_rows, read_counted_rows, read_row_set_simple, batch_fields, with_rows,
  decode_body, finish_decode, decode_result,
}

-- SendsRow ts vs ws: each value of vs fits its column, and the values ws arrive.
pub data SendsRow : List ColumnType → List Value → List Value → Type 0 where
  no_cells : SendsRow [] [] []
  cell :
      {t : ColumnType} {v w : Value} {ts : List ColumnType} {vs ws : List Value}
      → Sends t v w
      → SendsRow ts vs ws
      → SendsRow (t ∷ ts) (v ∷ vs) (w ∷ ws)

pub data SendsRows (ts : List ColumnType) : List (List Value) → List (List Value) → Type 0 where
  no_rows : SendsRows ts [] []
  row :
      {vs ws : List Value} {rows arrived : List (List Value)}
      → SendsRow ts vs ws
      → SendsRows ts rows arrived
      → SendsRows ts (vs ∷ rows) (ws ∷ arrived)

read_row-write_row :
    (host : Host) {ts : List ColumnType} {vs ws : List Value}
    → SendsRow ts vs ws
    → (b : Bytes) × (write_row host (length ts) ts vs ≡ ok b)
      × ((rest : Bytes) → read_row ts (new_row_input (b ++ rest)) ≡ (ws, new_row_input rest))
unfolding write_row read_row
read_row-write_row host no_cells = ([], refl, λ rest. refl)
read_row-write_row host (cell {t} {v} {w} {ts} {vs} {ws} h hs) =
    let (b, wrote, reads) = read_value-write_value host t v w h in
    let (bs, wrote_all, reads_all) = read_row-write_row host hs in
    (
      b ++ bs,
      rw (wrote, wrote_all) refl,
      λ rest. rw (append_assoc b bs rest, reads (bs ++ rest), reads_all rest) refl,
    )

read_rows-write_rows :
    (host : Host) (ts : List ColumnType) {rows arrived : List (List Value)}
    → SendsRows ts rows arrived
    → (b : Bytes) × (write_rows host (length ts) ts rows ≡ ok b)
      × ((rest : Bytes)
          → read_rows (length rows) ts (new_row_input (b ++ rest)) ≡ (arrived, new_row_input rest))
unfolding write_rows read_rows next_row
read_rows-write_rows host ts no_rows = ([], refl, λ rest. refl)
read_rows-write_rows host ts (row {vs} {ws} {rows} {arrived} h hs) =
    let (b, wrote, reads) = read_row-write_row host h in
    let (bs, wrote_all, reads_all) = read_rows-write_rows host ts hs in
    (
      b ++ bs,
      rw (wrote, wrote_all) refl,
      λ rest. rw (append_assoc b bs rest) (
          ap (next_row (read_rows (length rows) ts)) (reads (bs ++ rest))
          ∙ ap (λ p. (ws ∷ p.0, p.1)) (reads_all rest)),
    )

-- A message of the layout: the header, the metadata and the rows.
abbrev pub batch_message : ℕ → ℤ → ℤ → ℤ → ℤ → Metadata → Result
batch_message mode n fetch id timeout m = record (new_result mode) {
  update_count = n;
  fetch_size = fetch;
  statement_id = id;
  query_timeout = timeout;
  meta = some m;
}

-- The bytes of the header, in front of others.
abbrev header : ℤ → ℤ → ℤ → ℤ → Bytes → Bytes
header n fetch id timeout b =
    write_int n ++ (write_int fetch ++ (write_long id ++ (write_short timeout ++ b)))

abbrev fields_of : ℕ → ℤ → ℤ → ℤ → ℤ → Result
fields_of mode n fetch id timeout = record (new_result mode) {
  update_count = n;
  fetch_size = fetch;
  statement_id = id;
  query_timeout = timeout;
}

batch_fields_lem :
    (mode : ℕ) (n fetch id timeout : ℤ) (b : Bytes)
    → IsInt 32 n
    → IsInt 32 fetch
    → IsInt 64 id
    → IsInt 16 timeout
    → batch_fields mode (new_row_input (header n fetch id timeout b))
      ≡ (fields_of mode n fetch id timeout, new_row_input b)
unfolding batch_fields
batch_fields_lem mode n fetch id timeout b hn hf hi ht =
    rw
      (
        read_int-write_int n (write_int fetch ++ (write_long id ++ (write_short timeout ++ b))) hn,
        read_int-write_int fetch (write_long id ++ (write_short timeout ++ b)) hf,
        read_long-write_long id (write_short timeout ++ b) hi,
        read_short-write_short timeout b ht,
      )
      refl

wrap_length : (n : ℕ) → n < 2 ^ 31 → wrap 32 (pos n) ≡ pos n
wrap_length n h = ground arith

read_row_set_simple_lem :
    (m : Metadata) (bs : Bytes) (rows arrived : List (List Value))
    → length rows < 2 ^ 31
    → read_rows (length rows) m.types (new_row_input (bs ++ [])) ≡ (arrived, new_row_input [])
    → read_row_set_simple m (new_row_input (write_int (wrap 32 (pos (length rows))) ++ bs))
      ≡ (record empty_row_set { rows = arrived }, new_row_input [])
unfolding read_row_set_simple read_counted_rows
read_row_set_simple_lem m bs rows arrived hl h =
    rw
      (
        wrap_length (length rows) hl,
        read_int-write_int (pos (length rows)) bs hl,
        sym (append-nil bs),
        h,
      )
      refl

header_nonempty :
    (n fetch id timeout : ℤ) (b : Bytes) → (length (header n fetch id timeout b) == 0) ≡ false
unfolding write_int
header_nonempty n fetch id timeout b = ground arith

-- Where the metadata is one of the protocol's and has one type for each column, the rows fit these
-- types, and the header's numbers fit their fields, a SETSESSIONATTR message is encoded without an
-- error, and decoding the bytes gives its header and metadata and the rows that are meant to arrive.
pub decode_result-encode_payload :
    (host : Host) (n fetch id timeout : ℤ) (m : Metadata) (rows arrived : List (List Value))
    → IsInt 32 n
    → IsInt 32 fetch
    → IsInt 64 id
    → IsInt 16 timeout
    → IsWireMetadata m
    → m.column_count ≡ pos (length m.types)
    → length rows < 2 ^ 31
    → SendsRows m.types rows arrived
    → (b : Bytes) × (encode_payload host
          (record (batch_message mode_set_session_attr n fetch id timeout m) { batch_rows = rows })
        ≡ ok b)
      × (decode_result mode_set_session_attr b
          ≡ ok (record (batch_message mode_set_session_attr n fetch id timeout m) {
            row_set = some (record empty_row_set { rows = arrived });
          }))
unfolding encode_payload encode_batch write_simple_rows decode_result finish_decode decode_body
    with_rows
decode_result-encode_payload host n fetch id timeout m rows arrived hn hf hi ht hm count hl h =
    let (b, wrote, reads) = read_metadata-write_metadata m hm in
    let (bs, wrote_rows, reads_rows) = read_rows-write_rows host m.types h in
    let tail = write_int (wrap 32 (pos (length rows))) ++ bs in
    (
      header n fetch id timeout (b ++ tail),
      (rw (wrote, count, wrote_rows) refl),
      (rw
          (
            header_nonempty n fetch id timeout (b ++ tail),
            batch_fields_lem mode_set_session_attr n fetch id timeout (b ++ tail) hn hf hi ht,
            reads tail,
            read_row_set_simple_lem m bs rows arrived hl (reads_rows []),
          )
          refl),
    )
