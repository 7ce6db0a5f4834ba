-- ===== src/Lob/Fetch/Content.antt =====
-- lob.go fetchLob: the content that it reads from a server that has it.
use go_hsql.Base.{
  ℕ, zero, suc, ◌+◌, ◌^◌, ◌≤◌, ◌<◌, ◌≡◌, refl, sym, ap, ◌∙◌, inl, inr, true, false, Option, some,
  List, [], ◌∷◌, ◌++◌, append-nil, arith, ltb, ltb→lt, Bool-cases, length, All, take, drop,
  length-take, length-drop,
}
use go_hsql.Base.Int.{ℤ, pos}
use go_hsql.Base.Words.{Bytes, IsInt}
use go_hsql.Proto.Types.Value.{bytes, string}
use go_hsql.Proto.Utf8.{Text, IsRune}
use go_hsql.Lob.Utf16.{utf16_encode, utf16_decode}
use go_hsql.Lob.Utf16.Chunks.{utf16_decode-utf16_encode}
use go_hsql.Lob.Frames.{Session}
use go_hsql.Lob.Response.{LobResponse, received, is_status, read_lob_response, no_block}
use go_hsql.Lob.Fetch.{
  LobRequest, get_length, get_bytes, get_chars, LobConn, Fetched, fetched, lob_failed, lob_panicked,
  LobAction, and_then, settle_lob, next_length, add_block, lob_exchange, lob_length, get_blocks,
  lob_get_bytes, lob_get_chars, fetch_lob,
}
use go_hsql.Lob.Response.RoundTrip.{
  LobReply, status, byte_reply, char_reply, reply_bytes, reply_fields, IsReply, IsSession,
  read_lob_response-reply_bytes,
}

-- An open connection with nothing unread, behind these requests.
abbrev pub ready : List LobRequest → LobConn
ready sent = record { closed = false; broken = false; unread = []; requests = sent }

-- A server that has the content behind an id: it answers the length, and to a request inside the
-- content a block that is not empty and starts at the offset of the request.
pub record Serves (server : List LobRequest → LobRequest → Option Bytes) (c : Session) (id : ℤ)
    (request : ℕ → ℕ → LobRequest) (reply : ℤ → List ℕ → LobReply) (content : List ℕ) : Type 0 where
  pub length_type : ℤ
  pub length_status : (is_status length_type ≡ true) × IsInt 32 length_type
  pub says_length :
      (sent : List LobRequest)
      → server sent (get_length id)
        ≡ some (reply_bytes c id (status length_type (pos (length content))))
  pub says_block :
      (sent : List LobRequest)
      → (off n : ℕ) → off < length content
      → 0 < n
      → (m : ℕ) × (0 < m)
        × (server sent (request off n)
            ≡ some (reply_bytes c id (reply (pos off) (take m (drop off content)))))

take_nil : {A : Type 0} → (n : ℕ) → ◌≡◌ {A = List A} (take n []) []
take_nil zero = refl
take_nil (suc n) = refl

suc_sum : (a b : ℕ) → suc (a + b) ≡ suc a + b
suc_sum a b = omega arith

take-length_take : {A : Type 0} → (m : ℕ) → (xs : List A) → take (length (take m xs)) xs ≡ take m xs
take-length_take zero [] = refl
take-length_take zero (x ∷ xs) = refl
take-length_take (suc m) [] = refl
take-length_take (suc m) (x ∷ xs) = ap (λ ys. x ∷ ys) (take-length_take m xs)

-- What stands in front of an offset, with a block at that offset.
take-block :
    (off m : ℕ)
    → (xs : List ℕ)
    → take off xs ++ take m (drop off xs) ≡ take (off + length (take m (drop off xs))) xs
take-block zero m xs = sym (take-length_take m xs) ∙ ap (λ n. take n xs) (omega arith)
take-block (suc off) m [] = take_nil m ∙ sym (take_nil (suc off + length (take m [])))
take-block (suc off) m (x ∷ xs) =
    ap (λ ys. x ∷ ys) (take-block off m xs)
    ∙ ap (λ n. take n (x ∷ xs)) (suc_sum off (length (take m (drop off xs))))

take_beyond : (n : ℕ) → (xs : List ℕ) → length xs ≤ n → take n xs ≡ xs
take_beyond n [] beyond = take_nil n
take_beyond zero (x ∷ xs) beyond = ground arith
take_beyond (suc n) (x ∷ xs) beyond = ap (λ ys. x ∷ ys) (take_beyond n xs (omega arith))

add_block-units :
    (loop : ℕ → List ℕ → LobAction (List ℕ))
    → (off : ℕ) → (out b : List ℕ) → (c : LobConn) → 0 < length b
    → add_block loop off out b c ≡ loop (off + length b) (out ++ b) c
unfolding add_block
add_block-units loop off out [] c filled = ground arith
add_block-units loop off out (u ∷ b) c filled = refl

module _ (server : List LobRequest → LobRequest → Option Bytes) (c : Session) (id : ℤ)
    (session : IsSession c) (is_id : IsInt 64 id) where
  reply_read :
      (r : LobReply)
      → IsReply r
      → read_lob_response (reply_bytes c id r) ≡ received (reply_fields r) []
  reply_read r is_reply =
      ap read_lob_response (sym (append-nil (reply_bytes c id r)))
      ∙ read_lob_response-reply_bytes c id r [] session is_id is_reply

  exchange-reply :
      (sent : List LobRequest)
      → (req : LobRequest) → (r : LobReply) → IsReply r
      → server sent req ≡ some (reply_bytes c id r)
      → lob_exchange server req (ready sent)
        ≡ (fetched (reply_fields r), ready (sent ++ (req ∷ [])))
  unfolding lob_exchange settle_lob
  exchange-reply sent req r is_reply says = rw (says, reply_read r is_reply) refl

  module _ (request : ℕ → ℕ → LobRequest) (reply : ℤ → List ℕ → LobReply)
      (block : LobResponse → List ℕ)
      (is_reply : (off : ℕ)
        → (b : List ℕ) → off < 2 ^ 63
        → length b < 2 ^ 63
        → IsReply (reply (pos off) b))
      (is_block : (off : ℕ) → (b : List ℕ) → block (reply_fields (reply (pos off) b)) ≡ b)
      (content : List ℕ) (small : length content < 2 ^ 63)
      (serves : Serves server c id request reply content) where
    next_length_positive : (total off : ℕ) → off < total → 0 < next_length total off
    unfolding next_length
    next_length_positive total off inside = ground arith

    block_bounds :
        (off m : ℕ)
        → off < length content
        → 0 < m
        → (0 < length (take m (drop off content)))
          × (off + length (take m (drop off content)) ≤ length content)
    block_bounds off m inside positive =
        let taken = length-take m (drop off content) in
        let dropped = length-drop off content in (omega arith, omega arith)

    -- The rest of the loop, from an offset on.
    get_blocks-content :
        (fuel off : ℕ)
        → (sent : List LobRequest) → off ≤ length content
        → length content < off + fuel
        → (get_blocks server request block
            (length content)
            fuel
            off
            (take off content)
            (ready sent)).0
          ≡ fetched content
    unfolding get_blocks and_then
    get_blocks-content zero off sent inside enough =
        ap fetched (take_beyond off content (omega arith))
    get_blocks-content (suc fuel) off sent inside enough =
        elim (Bool-cases (ltb off (length content))) [
          | inr e ↦ rw (e) (ap fetched (take_beyond off content (ground arith)))
          | inl e ↦
              let lt = ltb→lt off (length content) e in
              let n = next_length (length content) off in
              let (m, positive, says) =
                serves.says_block sent off n lt (next_length_positive (length content) off lt) in
              let b = take m (drop off content) in
              let (filled, stays) = block_bounds off m lt positive in
              rw
                (
                  e,
                  exchange-reply sent (request off n) (reply (pos off) b)
                      (is_reply off b (omega arith) (omega arith)) says,
                  is_block off b,
                  add_block-units (get_blocks server request block (length content) fuel) off
                      (take off content) b (ready (sent ++ (request off n ∷ []))) filled,
                  take-block off m content,
                )
                (get_blocks-content fuel (off + length b) (sent ++ (request off n ∷ [])) stays
                  (omega arith))
        ]

  length-content :
      (request : ℕ → ℕ → LobRequest)
      → (reply : ℤ → List ℕ → LobReply) → (content : List ℕ) → length content < 2 ^ 63
      → (serves : Serves server c id request reply content) → (sent : List LobRequest)
      → lob_length server id (ready sent)
        ≡ (fetched (pos (length content)), ready (sent ++ (get_length id ∷ [])))
  unfolding lob_length and_then IsReply no_block reply_fields
  length-content request reply content small serves sent =
      rw
        (exchange-reply sent (get_length id) (status serves.length_type (pos (length content)))
          (serves.length_status.0, serves.length_status.1, small) (serves.says_length sent))
        refl

  fetched-then :
      {A B : Type 0}
      → (f : A → Fetched B) → (r : Fetched A × LobConn) → (a : A) → r.0 ≡ fetched a
      → (and_then (λ x d. (f x, d)) r).0 ≡ f a
  unfolding and_then
  fetched-then f (fetched x, d) a e = ap f (ground arith)
  fetched-then f (lob_failed err, d) a e = ground arith
  fetched-then f (lob_panicked, d) a e = ground arith

  blocks-content :
      (request : ℕ → ℕ → LobRequest)
      → (reply : ℤ → List ℕ → LobReply) → (block : LobResponse → List ℕ)
      → ((off : ℕ) → (b : List ℕ) → off < 2 ^ 63 → length b < 2 ^ 63 → IsReply (reply (pos off) b))
      → ((off : ℕ) → (b : List ℕ) → block (reply_fields (reply (pos off) b)) ≡ b)
      → (content : List ℕ) → length content < 2 ^ 63
      → Serves server c id request reply content
      → (sent : List LobRequest)
      → (get_blocks server request block
          (length content)
          (suc (length content))
          0
          []
          (ready sent)).0
        ≡ fetched content
  blocks-content request reply block is_reply is_block content small serves sent =
      get_blocks-content request reply block is_reply is_block content small serves
        (suc (length content)) 0 sent (omega arith) (omega arith)

  -- A BLOB of less than 2^63 bytes behind an id, on a server that answers each request inside it
  -- with a block of at least one byte: the fetch returns all its bytes.
  pub fetch_lob-blob :
      (content : List ℕ)
      → length content < 2 ^ 63
      → Serves server c id (get_bytes id) byte_reply content
      → (sent : List LobRequest)
      → (fetch_lob server id false (ready sent)).0 ≡ fetched (bytes content)
  unfolding fetch_lob lob_get_bytes IsReply reply_fields and_then
  fetch_lob-blob content small serves sent =
      rw (length-content (get_bytes id) byte_reply content small serves sent) (
        fetched-then (λ b. fetched (bytes b)) _ content
          (blocks-content (get_bytes id) byte_reply (λ resp. resp.byte_block)
            (λ off b below fits. (below, fits)) (λ off b. refl) content small serves
            (sent ++ (get_length id ∷ []))))

  -- A CLOB behind an id that holds the UTF-16 encoding of a text of valid runes, of less than 2^63
  -- code units, on a server that answers each request inside it with a block of at least one code
  -- unit: the fetch returns the text.
  pub fetch_lob-clob :
      (s : Text)
      → All IsRune s
      → length (utf16_encode s) < 2 ^ 63
      → Serves server c id (get_chars id) char_reply (utf16_encode s)
      → (sent : List LobRequest) → (fetch_lob server id true (ready sent)).0 ≡ fetched (string s)
  unfolding fetch_lob lob_get_chars IsReply reply_fields and_then
  fetch_lob-clob s valid small serves sent =
      rw (length-content (get_chars id) char_reply (utf16_encode s) small serves sent) (
        fetched-then (λ units. fetched (string (utf16_decode units))) _ (utf16_encode s)
          (blocks-content (get_chars id) char_reply (λ resp. resp.char_block)
            (λ off b below fits. (below, fits)) (λ off b. refl) (utf16_encode s) small serves
            (sent ++ (get_length id ∷ [])))
        ∙ ap (λ t. fetched (string t)) (utf16_decode-utf16_encode s valid))
