-- ===== src/Conn/Tx.antt =====
-- tx.go: BeginTx, Commit, Rollback and the reset of the session's characteristics.
pub mod Properties
pub mod Failure
use go_hsql.Base.{
  ℕ, ◌⊎◌, inl, inr, Bool, true, false, not, ◌||◌, Option, none, some, List, [], ◌∷◌, ◌++◌, ◌==◌,
  if◌then◌else◌,
}
use go_hsql.Base.Int.{ℤ}
use go_hsql.Proto.Const.{
  mode_end_tran, tx_commit, tx_rollback, attr_isolation, attr_autocommit, attr_connection_readonly,
  tx_read_committed, tx_serializable,
}
use go_hsql.Proto.Utf8.{Text}
use go_hsql.Proto.Result.{Result, new_result}
use go_hsql.Proto.Result.SessionAttr.{new_session_attr_request}
use go_hsql.Conn.{
  Conn, Reply, ConnError, nested_transaction, unsupported_isolation, Context, background, Returned,
  Action, pure, fail, ◌>>=◌, if_valid, exec_ctx,
}
use go_hsql.Conn.Session.{ignore, exec_sql}

-- The levels of database/sql.
abbrev pub level_default : ℕ
level_default = 0

abbrev pub level_read_uncommitted : ℕ
level_read_uncommitted = 1

abbrev pub level_read_committed : ℕ
level_read_committed = 2

abbrev pub level_repeatable_read : ℕ
level_repeatable_read = 4

abbrev pub level_serializable : ℕ
level_serializable = 6

abbrev pub isolation_prefix : Text
isolation_prefix =
    83 ∷ 69 ∷ 84 ∷ 32 ∷ 84 ∷ 82 ∷ 65 ∷ 78 ∷ 83 ∷ 65 ∷ 67 ∷ 84 ∷ 73 ∷ 79 ∷ 78 ∷ 32 ∷ 73 ∷ 83 ∷ 79
    ∷ 76 ∷ 65 ∷ 84 ∷ 73 ∷ 79 ∷ 78 ∷ 32 ∷ 76 ∷ 69 ∷ 86 ∷ 69 ∷ 76 ∷ 32 ∷ []

abbrev pub read_only_sql : Text
read_only_sql =
    83 ∷ 69 ∷ 84 ∷ 32 ∷ 84 ∷ 82 ∷ 65 ∷ 78 ∷ 83 ∷ 65 ∷ 67 ∷ 84 ∷ 73 ∷ 79 ∷ 78 ∷ 32 ∷ 82 ∷ 69 ∷ 65
    ∷ 68 ∷ 32 ∷ 79 ∷ 78 ∷ 76 ∷ 89 ∷ []

unfoldable pub isolation_sql : ℕ → Option Text
isolation_sql level =
    if level == level_read_uncommitted
    then some (82 ∷ 69 ∷ 65 ∷ 68 ∷ 32 ∷ 85 ∷ 78 ∷ 67 ∷ 79 ∷ 77 ∷ 77 ∷ 73 ∷ 84 ∷ 84 ∷ 69 ∷ 68 ∷ [])
    else if level == level_read_committed
    then some (82 ∷ 69 ∷ 65 ∷ 68 ∷ 32 ∷ 67 ∷ 79 ∷ 77 ∷ 77 ∷ 73 ∷ 84 ∷ 84 ∷ 69 ∷ 68 ∷ [])
    else if level == level_repeatable_read
    then some (82 ∷ 69 ∷ 80 ∷ 69 ∷ 65 ∷ 84 ∷ 65 ∷ 66 ∷ 76 ∷ 69 ∷ 32 ∷ 82 ∷ 69 ∷ 65 ∷ 68 ∷ [])
    else if level == level_serializable
    then some (83 ∷ 69 ∷ 82 ∷ 73 ∷ 65 ∷ 76 ∷ 73 ∷ 90 ∷ 65 ∷ 66 ∷ 76 ∷ 69 ∷ [])
    else none

abbrev is_error : {A : Type 0} → ConnError ⊎ A → Bool
is_error (inl e) = true
is_error (inr a) = false

-- c.txAlteredSession = true, c.autocommit = b.
unfoldable pub set_altered : Action Unit
set_altered c = (inr tt, record c { tx_altered_session = true })

unfoldable pub set_autocommit : Bool → Action Unit
set_autocommit b c = (inr tt, record c { autocommit = b })

-- The loop over the errors: the three requests are made first, whatever they return.
unfoldable pub break_on_error : Bool → Conn → Conn
break_on_error true c = record c { broken = true }
break_on_error false c = c

module _ (exchange : List Result → Result → Reply) where
  unfoldable pub set_session_attr_bool : Context → ℤ → Bool → Action Unit
  set_session_attr_bool ctx attr v =
      ignore (exec_ctx exchange ctx (new_session_attr_request attr none (some v) none))

  unfoldable pub set_session_attr_int : Context → ℤ → ℤ → Action Unit
  set_session_attr_int ctx attr v =
      ignore (exec_ctx exchange ctx (new_session_attr_request attr (some v) none none))

  unfoldable pub end_tran : ℤ → Action Unit
  end_tran tx_type =
      ignore
        (exec_ctx exchange background (record (new_result mode_end_tran) { tx_type = tx_type }))

  -- The statement behind the isolation level, which has to be one that HSQLDB has.
  unfoldable pub set_isolation : Context → ℕ → Option Text → Action Unit
  set_isolation ctx level none = fail (unsupported_isolation level)
  set_isolation ctx level (some iso) =
      exec_sql exchange ctx (isolation_prefix ++ iso) >>= λ a. set_altered

  unfoldable pub begin_isolation : Context → ℕ → Action Unit
  begin_isolation ctx level =
      if level == level_default then pure tt else set_isolation ctx level (isolation_sql level)

  unfoldable pub begin_read_only : Context → Bool → Action Unit
  begin_read_only ctx true = exec_sql exchange ctx read_only_sql >>= λ a. set_altered
  begin_read_only ctx false = pure tt

  unfoldable pub begin_steps : Context → ℕ → Bool → Action Unit
  begin_steps ctx level read_only = begin_isolation ctx level >>= λ a.
      begin_read_only ctx read_only >>= λ b.
      set_session_attr_bool ctx attr_autocommit false >>= λ d. set_autocommit false

  unfoldable pub begin_tx : Context → ℕ → Bool → Action Unit
  begin_tx ctx level read_only = if_valid (λ c.
      if not c.autocommit then (inl nested_transaction, c) else begin_steps ctx level read_only c)

  unfoldable pub toggle_isolation : Conn → Conn
  toggle_isolation c =
      let (first, d) = set_session_attr_int background attr_isolation tx_serializable c in
      let (second, e) = set_session_attr_int background attr_isolation tx_read_committed d in
      let (third, f) = set_session_attr_bool background attr_connection_readonly false e in
      break_on_error (is_error first || (is_error second || is_error third)) f

  unfoldable pub reset_unless : Bool → Conn → Conn
  reset_unless true c = c
  reset_unless false c = toggle_isolation (record c { tx_altered_session = false })

  unfoldable pub reset_session_characteristics : Conn → Conn
  unfolding reset_unless
  reset_session_characteristics c =
      reset_unless (not c.tx_altered_session || (c.closed || c.broken)) c

  -- finish behind the second request, where the ENDTRAN has been answered.
  unfoldable pub restored : Returned Unit → Returned Unit
  restored (inl e, c) = (inl e, c)
  restored (inr u, c) = (inr tt, reset_session_characteristics (record c { autocommit = true }))

  -- finish behind the ENDTRAN: its error is returned, and autocommit is restored all the same.
  unfoldable pub ended : Returned Unit → Returned Unit
  ended (inl e, c) =
      let (r, d) = set_session_attr_bool background attr_autocommit true c in
      (inl e, reset_session_characteristics (record d { autocommit = true }))
  ended (inr u, c) = restored (set_session_attr_bool background attr_autocommit true c)

  unfoldable pub finish : ℤ → Action Unit
  finish tx_type = if_valid (λ c. ended (end_tran tx_type c))

  unfoldable pub commit : Action Unit
  commit = finish tx_commit

  unfoldable pub rollback : Action Unit
  rollback = finish tx_rollback
