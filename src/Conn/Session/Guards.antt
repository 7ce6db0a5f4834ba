-- ===== src/Conn/Session/Guards.antt =====
-- conn.go, conn_query.go, tx.go, savepoint.go, twophase.go, stmt.go, batch.go, rows.go and
-- sessionattr.go: one call over a connection that is closed or broken.
use go_hsql.Base.{
  ℕ, ◌≡◌, refl, ◌⊎◌, inl, inr, Bool, true, false, not, ◌&&◌, ◌||◌, List, [], ◌∷◌, arith, ap,
  if◌then◌else◌, Option, leb, length,
}
use go_hsql.Base.Int.{ℤ, eqb_ℤ, ltb_ℤ, pos}
use go_hsql.Proto.Utf8.{Text}
use go_hsql.Proto.Types.Value.{Value}
use go_hsql.Proto.Result.{Result}
use go_hsql.Conn.{Conn, Reply, Context, Action, Returned, bad_conn, ◌>>=◌, next, if_valid, is_valid}
use go_hsql.Conn.Session.{
  ping, reset_session, exec_context, savepoint, savepoint_end, prepare_commit,
}
use go_hsql.Conn.Tx.{begin_tx, finish}
use go_hsql.Conn.Stmt.{Stmt, OnStmt, prepare_context, prepared, close_stmt, told, exec_batch}
use go_hsql.Conn.Rows.{
  Rows, Paged, next_row, fetch_more, fetched, after_fetch, take_row, close_current, close_rows,
  next_result_set, advanced,
}
use go_hsql.Conn.Cursor.{
  Updates, UpdatableRows, CursorError, update_row_at, update_at, updated, delete_row_at, deleted,
  insert_if, insert_at, inserted,
}
use go_hsql.Conn.Info.{session_info, session_attr_row}
use go_hsql.Conn.Out.{Argument}
use go_hsql.Conn.Results.{query_context, execute, exec_prepared_batch}
use go_hsql.Conn.Frame.{exec_ctx_invalid}

pub invalid_of :
    (closed broken : Bool) → (not closed && not broken) ≡ false → (closed || broken) ≡ true
invalid_of closed broken h = ground arith

module _ (exchange : List Result → Result → Reply) where
  guarded :
      {A : Type 0} (m : Action A) (c : Conn)
      → (c.closed || c.broken) ≡ true
      → if_valid m c ≡ (inl bad_conn, c)
  unfolding if_valid
  guarded m c h = rw (h) refl

  pub if_valid_invalid :
      {A : Type 0} (m : Action A) (c : Conn) → (c.closed || c.broken) ≡ true → (if_valid m c).1 ≡ c
  if_valid_invalid m c h = ap (λ p. p.1) (guarded m c h)

  both :
      {A : Type 0} (f : A → Conn) (b : Bool) (p q : A) (c : Conn)
      → f p ≡ c
      → f q ≡ c
      → f (if b then p else q) ≡ c
  both f true p q c h k = h
  both f false p q c h k = k

  either : {A : Type 0} (b : Bool) (p q r : A) → p ≡ r → q ≡ r → ◌≡◌ {A = A} (if b then p else q) r
  either true p q r h k = h
  either false p q r h k = k

  prepare_refused :
      (ctx : Context) (query : Text) (c : Conn)
      → (c.closed || c.broken) ≡ true
      → prepare_context exchange ctx query c ≡ (inl bad_conn, c)
  unfolding prepare_context prepared
  prepare_refused ctx query c h =
      either c.closed _ _ (inl bad_conn, c) refl (rw (exec_ctx_invalid exchange ctx _ c h) refl)

  pub prepare_invalid :
      (ctx : Context) (query : Text) (c : Conn)
      → (c.closed || c.broken) ≡ true
      → (prepare_context exchange ctx query c).1 ≡ c
  prepare_invalid ctx query c h = ap (λ p. p.1) (prepare_refused ctx query c h)

  pub close_stmt_invalid :
      (s : Stmt) (c : Conn) → (c.closed || c.broken) ≡ true → (close_stmt exchange s c).2 ≡ c
  unfolding close_stmt told
  close_stmt_invalid s c h =
      both {A = OnStmt Unit} (λ p. p.2) (s.closed || c.closed) _ _ c refl
        (rw (exec_ctx_invalid exchange _ _ c h) refl)

  pub execute_invalid :
      (ctx : Context) (s : Stmt) (args : List Argument) (c : Conn)
      → (c.closed || c.broken) ≡ true
      → (execute exchange ctx s args c).1 ≡ c
  unfolding execute
  execute_invalid ctx s args c h = rw (h) refl

  close_current_invalid :
      (r : Rows) (c : Conn) → (c.closed || c.broken) ≡ true → (close_current exchange r c).1 ≡ c
  unfolding close_current
  close_current_invalid r c h =
      both {A = Returned Unit} (λ p. p.1) (c.closed || eqb_ℤ r.result_id (pos 0)) _ _ c refl
        (both {A = Returned Unit} (λ p. p.1) (not (ltb_ℤ r.abs_pos r.total)) _ _ c refl
          (rw (exec_ctx_invalid exchange _ _ c h) refl))

  advanced_invalid :
      (r : Rows) (c : Conn) (l : List Result) (p : Returned Unit)
      → p.1 ≡ c
      → (advanced r c l p).2 ≡ c
  unfolding advanced
  advanced_invalid r c [] p h = refl
  advanced_invalid r c (res ∷ more) (inl e, d) h = h
  advanced_invalid r c (res ∷ more) (inr u, d) h = h

  pub next_result_set_invalid :
      (r : Rows) (c : Conn) → (c.closed || c.broken) ≡ true → (next_result_set exchange r c).2 ≡ c
  unfolding next_result_set
  next_result_set_invalid r c h =
      advanced_invalid r c r.next_results (close_current exchange r c) (close_current_invalid r c h)

  pub close_rows_invalid :
      (r : Rows) (c : Conn) → (c.closed || c.broken) ≡ true → (close_rows exchange r c).2 ≡ c
  unfolding close_rows
  close_rows_invalid r c h = close_current_invalid r c h

  fetch_more_invalid :
      (r : Rows) (c : Conn) → (c.closed || c.broken) ≡ true → (fetch_more exchange r c).2 ≡ c
  unfolding fetch_more fetched
  fetch_more_invalid r c h =
      both {A = Paged Unit} (λ p. p.2) (not (ltb_ℤ r.abs_pos r.total)) _ _ c refl
        (rw (exec_ctx_invalid exchange _ _ c h) refl)

  after_fetch_invalid : (p : Paged Unit) (c : Conn) → p.2 ≡ c → (after_fetch p).2 ≡ c
  unfolding after_fetch take_row
  after_fetch_invalid (inl e, r, d) c h = h
  after_fetch_invalid (inr u, r, d) c h =
      both {A = Paged (Option (List Value))} (λ p. p.2) (r.done || leb (length r.block) r.block_pos)
        _ _ c h h

  pub next_row_invalid :
      (r : Rows) (c : Conn) → (c.closed || c.broken) ≡ true → (next_row exchange r c).2 ≡ c
  unfolding next_row take_row
  next_row_invalid r c h =
      both {A = Paged (Option (List Value))} (λ p. p.2) r.done _ _ c refl
        (both {A = Paged (Option (List Value))} (λ p. p.2) (leb (length r.block) r.block_pos) _ _ c
          (after_fetch_invalid (fetch_more exchange r c) c (fetch_more_invalid r c h)) refl)

  pub info_invalid :
      (ctx : Context) (c : Conn)
      → (c.closed || c.broken) ≡ true
      → session_info exchange ctx c ≡ (inl bad_conn, c)
  unfolding session_info session_attr_row if_valid ◌>>=◌ next
  info_invalid ctx c h = rw (h) refl

  -- The guarded calls return driver.ErrBadConn, for which database/sql tries another connection, and
  -- leave the connection as it is.
  abbrev pub Refuses :
      Context → Text → ℕ → ℕ → Bool → ℤ → List Text → List (List Value) → Conn → Type 0
  Refuses ctx query level x read_only tx_type sqls rows c =
      (ping exchange ctx c ≡ (inl bad_conn, c))
      × (reset_session exchange ctx c ≡ (inl bad_conn, c))
      × (exec_context exchange {A = Value} ctx query [] c ≡ (inl bad_conn, c))
      × (query_context exchange {A = Value} ctx query [] c ≡ (inl bad_conn, c))
      × (begin_tx exchange ctx level read_only c ≡ (inl bad_conn, c))
      × (finish exchange tx_type c ≡ (inl bad_conn, c))
      × (savepoint exchange ctx (x ∷ query) c ≡ (inl bad_conn, c))
      × (savepoint_end exchange ctx tx_type (x ∷ query) c ≡ (inl bad_conn, c))
      × (prepare_commit exchange ctx c ≡ (inl bad_conn, c))
      × (session_info exchange ctx c ≡ (inl bad_conn, c))
      × (prepare_context exchange ctx query c ≡ (inl bad_conn, c))
      × (exec_batch exchange ctx sqls c ≡ (inl bad_conn, c))
      × (exec_prepared_batch exchange ctx query rows c ≡ (inl bad_conn, c))

  pub calls_refused :
      (c : Conn) (ctx : Context) (query : Text) (level x : ℕ) (read_only : Bool) (tx_type : ℤ)
      (sqls : List Text) (rows : List (List Value))
      → is_valid c ≡ false
      → Refuses ctx query level x read_only tx_type sqls rows c
  unfolding is_valid ping reset_session exec_context query_context begin_tx finish savepoint
      savepoint_end prepare_commit exec_batch exec_prepared_batch
  calls_refused c ctx query level x read_only tx_type sqls rows h =
      let e = invalid_of c.closed c.broken h in
      (
        guarded _ c e,
        guarded _ c e,
        guarded _ c e,
        guarded _ c e,
        guarded _ c e,
        guarded _ c e,
        guarded _ c e,
        guarded _ c e,
        guarded _ c e,
        info_invalid ctx c e,
        prepare_refused ctx query c e,
        guarded _ c e,
        guarded _ c e,
      )

module _ (equal_fold : Text → Text → Bool) (exchange : List Result → Result → Reply) where
  update_at_invalid :
      (ctx : Context) (p : CursorError ⊎ (List Value × List Bool)) (i : ℕ) (row : List Value)
      (u : UpdatableRows) (c : Conn)
      → (c.closed || c.broken) ≡ true
      → (update_at equal_fold exchange ctx p i row u c).2 ≡ c
  unfolding update_at updated
  update_at_invalid ctx (inl e) i row u c h = refl
  update_at_invalid ctx (inr p) i row u c h = rw (exec_ctx_invalid exchange ctx _ c h) refl

  pub update_row_invalid :
      (ctx : Context) (updates : Updates) (p : CursorError ⊎ (ℕ × List Value)) (u : UpdatableRows)
      (c : Conn)
      → (c.closed || c.broken) ≡ true
      → (update_row_at equal_fold exchange ctx updates p u c).2 ≡ c
  unfolding update_row_at
  update_row_invalid ctx updates (inl e) u c h = refl
  update_row_invalid ctx [] (inr p) u c h = refl
  update_row_invalid ctx (x ∷ updates) (inr p) u c h = update_at_invalid ctx _ p.0 p.1 u c h

  pub delete_row_invalid :
      (ctx : Context) (p : CursorError ⊎ (ℕ × List Value)) (u : UpdatableRows) (c : Conn)
      → (c.closed || c.broken) ≡ true
      → (delete_row_at equal_fold exchange ctx p u c).2 ≡ c
  unfolding delete_row_at deleted
  delete_row_invalid ctx (inl e) u c h = refl
  delete_row_invalid ctx (inr p) u c h = rw (exec_ctx_invalid exchange ctx _ c h) refl

  insert_at_invalid :
      (ctx : Context) (p : CursorError ⊎ (List Value × List Bool)) (u : UpdatableRows) (c : Conn)
      → (c.closed || c.broken) ≡ true
      → (insert_at equal_fold exchange ctx p u c).2 ≡ c
  unfolding insert_at inserted
  insert_at_invalid ctx (inl e) u c h = refl
  insert_at_invalid ctx (inr p) u c h = rw (exec_ctx_invalid exchange ctx _ c h) refl

  pub insert_row_invalid :
      (b : Bool) (ctx : Context) (values : Updates) (u : UpdatableRows) (c : Conn)
      → (c.closed || c.broken) ≡ true
      → (insert_if equal_fold exchange b ctx values u c).2 ≡ c
  unfolding insert_if
  insert_row_invalid true ctx values u c h = refl
  insert_row_invalid false ctx values u c h = insert_at_invalid ctx _ u c h
