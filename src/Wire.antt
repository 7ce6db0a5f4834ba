-- ===== src/Wire.antt =====
-- conn.go: send, receive and the handshake, over the bytes of the connection. A write to c.bw shows
-- its own error at Flush, which is not modelled here.
pub mod Receive
use go_hsql.Base.{
  ℕ, zero, suc, ◌⊎◌, inl, inr, Bool, true, false, Option, none, some, List, [], ◌∷◌, ◌++◌, ◌==◌,
  if◌then◌else◌, length,
}
use go_hsql.Base.Int.{ℤ}
use go_hsql.Base.Words.{Bytes, wrap}
use go_hsql.Proto.Const.{
  network_compatibility_version_int, mode_none, mode_connect, mode_connect_acknowledge,
}
use go_hsql.Proto.Errors.{Error, Outcome, ok, err, panic}
use go_hsql.Proto.Utf8.{Text}
use go_hsql.Proto.Frame.{Stream, got, failed, read_frame, write_frame, write_terminator}
use go_hsql.Proto.RowOutput.{write_int}
use go_hsql.Proto.Types.Coerce.{Host}
use go_hsql.Proto.Result.{Result, Response, new_result}
use go_hsql.Proto.Result.Encode.{encode_payload}
use go_hsql.Proto.Result.Decode.{decode_result}
use go_hsql.Lob.Frames.{Session, PendingLob, write_lob_create}
use go_hsql.Lob.Params.{prepare_array_params, prepare_lob_params}
use go_hsql.Config.Properties.{parse_server_properties}
use go_hsql.Config.Dsn.{Config}

-- What receive returns, with the unread stream behind a whole response.
pub data Received : Type 0 where
  response : Response → Bytes → Received
  receive_error : Error → Received
  receive_panic : Received

unfoldable pub add_chained : Result → Received → Received
add_chained r (response res s) = response (record res { chained = r ∷ res.chained }) s
add_chained r (receive_error e) = receive_error e
add_chained r receive_panic = receive_panic

-- A chained frame that was decoded, in front of those that follow it.
unfoldable pub with_chained : Outcome Result → Received → Received
unfolding add_chained
with_chained (ok r) rest = add_chained r rest
with_chained (err e) rest = receive_error e
with_chained panic rest = receive_panic

-- The frame of one turn of the loop, which goes on with the stream behind it.
unfoldable pub after_frame : Result → (Bytes → Received) → Stream (ℕ × Bytes) → Received
unfolding with_chained
after_frame main loop (failed e) = receive_error e
after_frame main loop (got (mode, payload) s) =
    if mode == mode_none
    then response (record { main = main; chained = [] }) s
    else with_chained (decode_result mode payload) (loop s)

-- The loop over the chained frames: each takes at least one byte, so the stream's length is enough.
unfoldable pub receive_chained : ℕ → Result → Bytes → Received
unfolding after_frame
receive_chained zero main s = receive_panic
receive_chained (suc fuel) main s = after_frame main (receive_chained fuel main) (read_frame s)

unfoldable pub receive_main : Outcome Result → Bytes → Received
unfolding receive_chained
receive_main (ok r) s = receive_chained (suc (length s)) r s
receive_main (err e) s = receive_error e
receive_main panic s = receive_panic

unfoldable pub receive_first : Stream (ℕ × Bytes) → Received
unfolding receive_main
receive_first (failed e) = receive_error e
receive_first (got (mode, payload) s) = receive_main (decode_result mode payload) s

unfoldable pub receive : Bytes → Received
unfolding receive_first
receive s = receive_first (read_frame s)

-- What send has written, with the flag of c.broken; or an error before anything was written.
pub data Sent : Type 0 where
  sent : Bytes → Sent
  cut_short : Bytes → Sent
  not_sent : Sent
  send_panic : Sent

-- The LOBs of a request, up to the first whose reader fails.
unfoldable pub write_lobs : Session → List PendingLob → Bytes × Bool
unfolding write_lob_create
write_lobs c [] = ([], true)
write_lobs c (lob ∷ lobs) =
    let (b, written) = write_lob_create c lob in
    let (more, all) = write_lobs c lobs in if written then (b ++ more, all) else (b, false)

unfoldable pub write_request : Session → ℕ → List PendingLob → Outcome Bytes → Sent
unfolding write_lobs
write_request c mode lobs (ok payload) =
    let (b, all) = write_lobs c lobs in
    if all
    then sent (write_frame mode payload ++ (b ++ write_terminator))
    else cut_short (write_frame mode payload ++ b)
write_request c mode lobs (err e) = not_sent
write_request c mode lobs panic = send_panic

module _ (host : Host) where
  unfoldable pub send_prepared : Session → Result → Option (List PendingLob) → Sent
  unfolding write_request
  send_prepared c req none = not_sent
  send_prepared c req (some lobs) = write_request c req.mode lobs (encode_payload host req)

  -- send: the request, whose slots it binds, the sequence of LOB ids, and what it has written.
  unfoldable pub send : Session → Result → ℤ → Result × ℤ × Sent
  unfolding send_prepared
  send c req seq =
      let (bound, arrays) = prepare_array_params req in
      let (ready, seq_after, lobs) = prepare_lob_params host bound seq in
      if arrays then (ready, seq_after, send_prepared c ready lobs) else (bound, seq, not_sent)

-- The version in front of the first frame, and the CONNECT request.
unfoldable pub version_bytes : Bytes
version_bytes = write_int network_compatibility_version_int

unfoldable pub connect_request : {A : Type 0} → Config A → Result
connect_request cfg = record (new_result mode_connect) {
  database_name = cfg.database;
  user = cfg.user;
  password = cfg.password;
  zone_string = cfg.zone;
  time_zone_seconds = wrap 32 cfg.time_zone_seconds;
}

pub data HandshakeError : Type 0 where
  exchange_failed : HandshakeError
  unexpected_response : ℕ → HandshakeError

-- What a connection keeps of the CONNECTACKNOWLEDGE.
pub record Acknowledged : Type 0 where
  pub session_id : ℤ
  pub database_id : ℤ
  pub random_id : ℤ
  pub server_props : List (Text × Text)

-- The end of handshake behind the exchange.
unfoldable pub acknowledged : Received → HandshakeError ⊎ Acknowledged
acknowledged (response res s) =
    if res.main.mode == mode_connect_acknowledge
    then inr (record {
      session_id = res.main.session_id;
      database_id = res.main.database_id;
      random_id = res.main.random_id;
      server_props = parse_server_properties res.main.client_props;
    })
    else inl (unexpected_response res.main.mode)
acknowledged (receive_error e) = inl exchange_failed
acknowledged receive_panic = inl exchange_failed
