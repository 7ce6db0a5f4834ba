-- ===== src/Conn.antt =====
-- conn.go: the connection's flags and execCtx, the one way in which the operations reach the server.
-- The server and the wire are a parameter: what the exchange of a request gives, behind the requests
-- that were made before.
pub mod Frame
pub mod Tx
pub mod Session
pub mod Rows
pub mod Cursor
pub mod Stmt
pub mod ColumnTypes
pub mod Arrays
pub mod Out
pub mod Info
pub mod Results
use go_hsql.Base.{
  ℕ, ◌⊎◌, inl, inr, Bool, true, false, not, ◌&&◌, ◌||◌, List, [], ◌∷◌, ◌++◌, ◌==◌, if◌then◌else◌,
}
use go_hsql.Base.Int.{ℤ, negsuc}
use go_hsql.Proto.Const.{
  mode_error, mode_exec_direct, statement_return_any, return_no_generated_keys,
}
use go_hsql.Proto.Utf8.{Text}
use go_hsql.Proto.Result.{Result, Response, new_result}

pub record Conn : Type 0 where
  pub closed : Bool
  pub broken : Bool
  pub autocommit : Bool
  pub tx_altered_session : Bool
  pub lob_id_seq : ℤ
  pub fetch_size : ℤ
  -- The requests that were handed to exchange or send, in order.
  pub requests : List Result

-- The fields that connect sets.
abbrev pub new_conn : ℤ → Conn
new_conn fetch_size = record {
  closed = false;
  broken = false;
  autocommit = true;
  tx_altered_session = false;
  lob_id_seq = negsuc 0;
  fetch_size = fetch_size;
  requests = [];
}

-- What exchange returns: a response, or an error of the encoding, the wire or the decoding.
pub data Reply : Type 0 where
  failed : Reply
  answered : Response → Reply

pub data ConnError : Type 0 where
  -- driver.ErrBadConn, driver.ErrSkip and ctx.Err().
  bad_conn skip context_error : ConnError
  exchange_error : ConnError
  -- errors.go Error.
  server_error : Text → Text → ℤ → ConnError
  nested_transaction : ConnError
  unsupported_isolation : ℕ → ConnError
  empty_savepoint_name : ConnError
  unexpected_mode : ℕ → ConnError

-- ctx.Err() in front of an exchange and behind it, by the requests that were made so far: it may end
-- between two requests of one call.
pub record Context : Type 0 where
  pub done_before : List Result → Bool
  pub done_after : List Result → Bool

-- context.Background().
abbrev pub background : Context
background = record { done_before = λ requests. false; done_after = λ requests. false }

abbrev pub Returned : Type 0 → Type 0
Returned A = (ConnError ⊎ A) × Conn

-- A Go function on the connection that returns a value or an error.
abbrev pub Action : Type 0 → Type 0
Action A = Conn → Returned A

abbrev pub pure : {A : Type 0} → A → Action A
pure a c = (inr a, c)

abbrev pub fail : {A : Type 0} → ConnError → Action A
fail e c = (inl e, c)

-- `if err != nil { return err }`.
unfoldable pub next : {A B : Type 0} → (A → Action B) → Returned A → Returned B
next f (inl e, c) = (inl e, c)
next f (inr a, c) = f a c

infixl 5 ◌>>=◌
unfoldable pub ◌>>=◌ : {A B : Type 0} → Action A → (A → Action B) → Action B
unfolding next
(m >>= f) c = next f (m c)

unfoldable pub is_valid : Conn → Bool
is_valid c = not c.closed && not c.broken

-- `if c.closed || c.broken { return driver.ErrBadConn }`.
unfoldable pub if_valid : {A : Type 0} → Action A → Action A
if_valid m c = if c.closed || c.broken then (inl bad_conn, c) else m c

-- errorFromResult.
abbrev pub error_from_result : Result → ConnError
error_from_result r = server_error r.message r.sql_state r.error_code

-- execCtx behind the exchange.
unfoldable pub settle : Context → Reply → Action Response
settle ctx failed c = (
  inl (if ctx.done_after c.requests then context_error else exchange_error),
  record c { broken = true },
)
settle ctx (answered res) c =
    if res.main.mode == mode_error then (inl (error_from_result res.main), c) else (inr res, c)

abbrev pub requested : Result → Conn → Conn
requested req c = record c { requests = c.requests ++ (req ∷ []) }

module _ (exchange : List Result → Result → Reply) where
  unfoldable pub exec_ctx : Context → Result → Action Response
  unfolding settle
  exec_ctx ctx req c =
      if c.closed || c.broken
      then (inl bad_conn, c)
      else if ctx.done_before c.requests
      then (inl context_error, c)
      else settle ctx (exchange c.requests req) (requested req c)

-- newExecDirect.
unfoldable pub new_exec_direct : Text → Conn → Result
new_exec_direct sql c = record (new_result mode_exec_direct) {
  sql = sql;
  statement_return_type = statement_return_any;
  generate_keys = return_no_generated_keys;
  fetch_size = c.fetch_size;
}
