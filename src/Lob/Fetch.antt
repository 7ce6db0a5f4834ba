-- ===== src/Lob/Fetch.antt =====
-- lob.go: the exchange of LOB requests, and the fetch of a LOB. What the server sends back to a
-- request, behind the requests that were made before, is a parameter, which is none where a write or
-- Flush fails.
pub mod Content
use go_hsql.Base.{
  ℕ, zero, suc, ◌+◌, ◌-◌, Bool, true, ◌||◌, Option, none, some, List, [], ◌∷◌, ◌++◌, ltb,
  if◌then◌else◌, length,
}
use go_hsql.Base.Int.{ℤ, pos, negsuc}
use go_hsql.Base.Words.{Bytes}
use go_hsql.Proto.Const.{mode_none, lob_req_get_length, lob_req_get_bytes, lob_req_get_chars}
use go_hsql.Proto.RowOutput.{write_long}
use go_hsql.Proto.Types.Value.{Value, bytes, string}
use go_hsql.Lob.Utf16.{utf16_decode}
use go_hsql.Lob.Frames.{Session, write_lob_header, max_lob_chunk}
use go_hsql.Lob.Response.{
  LobError, connection_closed, write_error, LobResponse, Receipt, received, refused, panicked,
  read_lob_response,
}

-- The requests that the driver makes, with their offsets and lengths.
pub data LobRequest : Type 0 where
  get_length : ℤ → LobRequest
  get_bytes : ℤ → ℕ → ℕ → LobRequest
  get_chars : ℤ → ℕ → ℕ → LobRequest

-- What writeReq writes, with the terminator.
unfoldable pub request_bytes : Session → LobRequest → Bytes
request_bytes c (get_length id) =
    write_lob_header c lob_req_get_length id ++ write_long (pos 0) ++ (mode_none ∷ [])
request_bytes c (get_bytes id off n) =
    write_lob_header c lob_req_get_bytes id
    ++ write_long (pos off)
    ++ write_long (pos n)
    ++ (mode_none ∷ [])
request_bytes c (get_chars id off n) =
    write_lob_header c lob_req_get_chars id
    ++ write_long (pos off)
    ++ write_long (pos n)
    ++ (mode_none ∷ [])

-- What the LOB calls use of the connection: the unread stream is not read again once it is broken.
pub record LobConn : Type 0 where
  pub closed : Bool
  pub broken : Bool
  pub unread : Bytes
  pub requests : List LobRequest

pub data Fetched (A : Type 0) : Type 0 where
  fetched : A → Fetched A
  lob_failed : LobError → Fetched A
  lob_panicked : Fetched A

abbrev pub LobAction : Type 0 → Type 0
LobAction A = LobConn → Fetched A × LobConn

-- `if err != nil { return nil, err }`.
unfoldable pub and_then :
    {A B : Type 0} → (A → LobAction B) → Fetched A × LobConn → Fetched B × LobConn
and_then f (fetched a, c) = f a c
and_then f (lob_failed e, c) = (lob_failed e, c)
and_then f (lob_panicked, c) = (lob_panicked, c)

-- lobExchange behind readLobResponse.
unfoldable pub settle_lob : Receipt LobResponse → LobAction LobResponse
settle_lob (received resp rest) c = (fetched resp, record c { unread = rest })
settle_lob (refused e) c = (lob_failed e, record c { broken = true })
settle_lob panicked c = (lob_panicked, c)

-- The length of the next request, min(length - off, maxLobChunk).
unfoldable pub next_length : ℕ → ℕ → ℕ
next_length length off = if ltb max_lob_chunk (length - off) then max_lob_chunk else length - off

-- The end of a turn of the loops below: an empty block ends the loop, which goes on behind another.
unfoldable pub add_block :
    (ℕ → List ℕ → LobAction (List ℕ)) → ℕ → List ℕ → List ℕ → LobAction (List ℕ)
add_block loop off out [] c = (fetched out, c)
add_block loop off out (u ∷ units) c = loop (off + length (u ∷ units)) (out ++ (u ∷ units)) c

module _ (server : List LobRequest → LobRequest → Option Bytes) where
  unfoldable pub lob_exchange : LobRequest → LobAction LobResponse
  unfolding settle_lob
  lob_exchange req c =
      if c.closed || c.broken
      then (lob_failed connection_closed, c)
      else elim (server c.requests req) [
        | none ↦ (lob_failed write_error, record c { broken = true })
        | some reply ↦
            settle_lob (read_lob_response (c.unread ++ reply))
              (record c { requests = c.requests ++ (req ∷ []) })
      ]

  unfoldable pub lob_length : ℤ → LobAction ℤ
  lob_length id c =
      and_then (λ resp d. (fetched resp.block_length, d)) (lob_exchange (get_length id) c)

  -- The loop that lobGetBytes and lobGetChars share, from an offset and what was read before it.
  -- Each turn but the last moves the offset by one or more.
  unfoldable pub get_blocks :
      (ℕ → ℕ → LobRequest) → (LobResponse → List ℕ) → ℕ → ℕ → ℕ → List ℕ → LobAction (List ℕ)
  unfolding add_block
  get_blocks request block total zero off out c = (fetched out, c)
  get_blocks request block total (suc fuel) off out c =
      if ltb off total
      then and_then (λ resp. add_block (get_blocks request block total fuel) off out (block resp))
          (lob_exchange (request off (next_length total off)) c)
      else (fetched out, c)

  -- make([]byte, 0, length) panics where the length is negative.
  unfoldable pub lob_get_bytes : ℤ → ℤ → LobAction Value
  lob_get_bytes id (pos n) c =
      and_then (λ b d. (fetched (bytes b), d))
        (get_blocks (get_bytes id) (λ resp. resp.byte_block) n (suc n) 0 [] c)
  lob_get_bytes id (negsuc n) c = (lob_panicked, c)

  unfoldable pub lob_get_chars : ℤ → ℤ → LobAction Value
  lob_get_chars id (pos n) c =
      and_then (λ units d. (fetched (string (utf16_decode units)), d))
        (get_blocks (get_chars id) (λ resp. resp.char_block) n (suc n) 0 [] c)
  lob_get_chars id (negsuc n) c = (lob_panicked, c)

  -- fetchLob of LobRef{ID: id, IsClob: is_clob}.
  unfoldable pub fetch_lob : ℤ → Bool → LobAction Value
  fetch_lob id is_clob c =
      and_then (λ n. if is_clob then lob_get_chars id n else lob_get_bytes id n) (lob_length id c)
