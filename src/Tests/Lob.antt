-- ===== src/Tests/Lob.antt =====
-- The theorems on LOBs, at small contents and a server that hands out two units at a time.
use go_hsql.Base.{
  ℕ, ◌+◌, ◌^◌, ◌≤◌, ◌<◌, ◌≡◌, refl, inl, inr, true, false, Option, none, some, List, [], ◌∷◌, ◌++◌,
  map, arith, length, All, take, drop, flatten,
}
use go_hsql.Base.Int.{pos, negsuc, ◌-ℤ◌}
use go_hsql.Base.Words.{Bytes}
use go_hsql.Proto.Const.{
  sql_blob, sql_clob, sql_integer, lob_req_create_bytes, lob_req_set_bytes, lob_req_create_chars,
  lob_req_set_chars, lob_resp_set,
}
use go_hsql.Proto.Types.Kind.{ColumnType, simple_type}
use go_hsql.Proto.Types.Coerce.{Host}
use go_hsql.Proto.Types.Value.{Value, int64, string, bytes}
use go_hsql.Lob.Utf16.{utf16_encode, utf16_rune, utf16_chunks}
use go_hsql.Lob.Utf16.Chunks.{IsChunk, utf16_chunks-utf16_encode}
use go_hsql.Lob.Frames.{
  Session, PendingLob, max_lob_chunk, blob_segments, clob_chunks, clob_segments,
}
use go_hsql.Lob.Frames.Uploads.{up_to_eof, replay, replay-blob_segments, replay-clob_segments}
use go_hsql.Lob.Params.{
  blob_lob, clob_lob, lob_slots, lob_slot, bind_slot, next_lob_id, with_lob, is_bound,
  sent_or_refused, blob_param, clob_param,
}
use go_hsql.Lob.Params.Slots.{all_bound, new_refs, ids_from}
use go_hsql.Lob.Params.Bound.{lob_slots_lem}
use go_hsql.Lob.Response.{received, read_lob_response, is_status}
use go_hsql.Lob.Fetch.{LobRequest, get_length, get_bytes, get_chars, fetched, fetch_lob}
use go_hsql.Lob.Response.RoundTrip.{
  status, byte_reply, char_reply, reply_bytes, reply_fields, IsReply, read_lob_response-reply_bytes,
}
use go_hsql.Lob.Fetch.Content.{ready, Serves, fetch_lob-blob, fetch_lob-clob}

-- An emoji, which is two code units, and a letter.
abbrev greeting : List ℕ
greeting = 0x1F600 ∷ 65 ∷ []

utf16_chunks-utf16_encode_example :
    let (chunks, end) = utf16_chunks 3 2 (record { items = greeting; at_eof = true }) in
    (end ≡ true) × (flatten chunks ≡ utf16_encode greeting) × All (IsChunk 2) chunks
utf16_chunks-utf16_encode_example =
    utf16_chunks-utf16_encode 2 3 (omega arith) greeting
      (inr (omega arith, omega arith), (inl (omega arith), tt)) (omega arith)

abbrev reads : List (List ℕ)
reads = (1 ∷ 2 ∷ []) ∷ [] ∷ (3 ∷ []) ∷ []

replay-blob_segments_example :
    replay lob_req_create_bytes lob_req_set_bytes (blob_segments (up_to_eof reads))
    ≡ some (flatten reads)
replay-blob_segments_example = replay-blob_segments reads

replay-clob_segments_example :
    ((clob_chunks (up_to_eof greeting)).1 ≡ true)
    × (replay lob_req_create_chars lob_req_set_chars (clob_segments (up_to_eof greeting))
        ≡ some (utf16_encode greeting))
    × All (λ s. length s.units ≤ max_lob_chunk) (clob_segments (up_to_eof greeting))
replay-clob_segments_example =
    replay-clob_segments greeting (inr (omega arith, omega arith), (inl (omega arith), tt))

abbrev silent_host : Host
silent_host = record {
  sprint = λ v. [];
  int64_of_float = λ x. pos 0;
  float_of_int64 = λ n. 0;
  float_of_float32 = λ x. x;
  text_of_bytes = λ b. b;
  bytes_of_text = λ s. s;
}

-- A CLOB, an INTEGER and a BLOB.
abbrev slot_types : List ColumnType
slot_types = simple_type sql_clob ∷ simple_type sql_integer ∷ simple_type sql_blob ∷ []

abbrev slot_values : List Value
slot_values = string (65 ∷ []) ∷ int64 (pos 7) ∷ bytes (1 ∷ []) ∷ []

abbrev slot_lobs : List PendingLob
slot_lobs =
    (record (clob_lob (65 ∷ []) none (pos 0)) { id = negsuc 0 })
    ∷ (record (blob_lob (1 ∷ []) none (pos 0)) { id = negsuc 1 })
    ∷ []

lobs_prepared : (lob_slots silent_host slot_types slot_values (negsuc 0)).lobs ≡ some slot_lobs
unfolding lob_slots lob_slot bind_slot next_lob_id with_lob is_bound sent_or_refused blob_param
    clob_param utf16_encode utf16_rune ◌-ℤ◌
lobs_prepared = refl

lob_slots_lem_example :
    let p = lob_slots silent_host slot_types slot_values (negsuc 0) in
    (map (λ l. l.id) slot_lobs ≡ ids_from 0 2)
    × (p.seq ≡ negsuc (0 + 2))
    × (new_refs slot_types slot_values p.values ≡ map (λ l. (l.id, l.is_clob)) slot_lobs)
    × (all_bound slot_types p.values ≡ true)
lob_slots_lem_example =
    lob_slots_lem silent_host slot_types slot_values 0 (omega arith) slot_lobs lobs_prepared

abbrev here : Session
here = record { database_id = pos 1; session_id = pos 9 }

three_bytes-IsReply : IsReply (byte_reply (pos 0) (1 ∷ 2 ∷ 3 ∷ []))
unfolding IsReply
three_bytes-IsReply = (omega arith, omega arith)

read_lob_response-reply_bytes_example :
    read_lob_response (reply_bytes here (pos 5) (byte_reply (pos 0) (1 ∷ 2 ∷ 3 ∷ [])) ++ (8 ∷ []))
    ≡ received (reply_fields (byte_reply (pos 0) (1 ∷ 2 ∷ 3 ∷ []))) (8 ∷ [])
read_lob_response-reply_bytes_example =
    read_lob_response-reply_bytes here (pos 5) (byte_reply (pos 0) (1 ∷ 2 ∷ 3 ∷ [])) (8 ∷ [])
      (omega arith, omega arith) (omega arith) three_bytes-IsReply

abbrev two_at_a_time : List ℕ → List LobRequest → LobRequest → Option Bytes
two_at_a_time content sent (get_length id) =
    some (reply_bytes here (pos 5) (status lob_resp_set (pos (length content))))
two_at_a_time content sent (get_bytes id off n) =
    some (reply_bytes here (pos 5) (byte_reply (pos off) (take 2 (drop off content))))
two_at_a_time content sent (get_chars id off n) =
    some (reply_bytes here (pos 5) (char_reply (pos off) (take 2 (drop off content))))

set_status : is_status lob_resp_set ≡ true
unfolding is_status
set_status = refl

Serves-bytes :
    Serves
      (two_at_a_time (1 ∷ 2 ∷ 3 ∷ []))
      here
      (pos 5)
      (get_bytes (pos 5))
      byte_reply
      (1 ∷ 2 ∷ 3 ∷ [])
Serves-bytes = record {
  length_type = lob_resp_set;
  length_status = (set_status, omega arith);
  says_length = λ sent. refl;
  says_block = λ sent off n inside positive. (2, omega arith, refl);
}

Serves-chars :
    Serves
      (two_at_a_time (utf16_encode greeting))
      here
      (pos 5)
      (get_chars (pos 5))
      char_reply
      (utf16_encode greeting)
Serves-chars = record {
  length_type = lob_resp_set;
  length_status = (set_status, omega arith);
  says_length = λ sent. refl;
  says_block = λ sent off n inside positive. (2, omega arith, refl);
}

fetch_lob-blob_example :
    (fetch_lob (two_at_a_time (1 ∷ 2 ∷ 3 ∷ [])) (pos 5) false (ready [])).0
    ≡ fetched (bytes (1 ∷ 2 ∷ 3 ∷ []))
fetch_lob-blob_example =
    fetch_lob-blob (two_at_a_time (1 ∷ 2 ∷ 3 ∷ [])) here (pos 5) (omega arith, omega arith)
      (omega arith) (1 ∷ 2 ∷ 3 ∷ []) (omega arith) Serves-bytes []

greeting_small : length (utf16_encode greeting) < 2 ^ 63
unfolding utf16_encode utf16_rune
greeting_small = omega arith

fetch_lob-clob_example :
    (fetch_lob (two_at_a_time (utf16_encode greeting)) (pos 5) true (ready [])).0
    ≡ fetched (string greeting)
fetch_lob-clob_example =
    fetch_lob-clob (two_at_a_time (utf16_encode greeting)) here (pos 5) (omega arith, omega arith)
      (omega arith) greeting (inr (omega arith, omega arith), (inl (omega arith), tt))
      greeting_small Serves-chars []
