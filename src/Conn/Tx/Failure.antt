-- ===== src/Conn/Tx/Failure.antt =====
-- tx.go finish where the ENDTRAN fails.
use go_hsql.Base.{
  ◌≡◌, refl, inl, inr, Bool, true, false, not, ◌||◌, none, some, List, [], ◌∷◌, ◌++◌, subst, ◌==◌,
  arith, Bool-cases,
}
use go_hsql.Base.Int.{ℤ}
use go_hsql.Proto.Const.{
  mode_error, mode_end_tran, attr_isolation, attr_autocommit, attr_connection_readonly,
  tx_read_committed, tx_serializable,
}
use go_hsql.Proto.Result.{Result, Response, new_result}
use go_hsql.Proto.Result.SessionAttr.{new_session_attr_request}
use go_hsql.Conn.{
  Conn, Reply, ConnError, exchange_error, answered, failed, error_from_result, background, if_valid,
  is_valid, requested,
}
use go_hsql.Conn.Tx.{
  set_session_attr_bool, set_session_attr_int, end_tran, break_on_error, toggle_isolation,
  reset_unless, reset_session_characteristics, ended, finish,
}
use go_hsql.Conn.Frame.Requests.{
  Grows, Grows-refl, Grows-trans, told-Grows, told_sent, told_refused, told_lost, told_invalid,
}
use go_hsql.Conn.Tx.Properties.{not_invalid, reset_autocommit}

-- The requests of finish.
abbrev pub ending : ℤ → Result
ending tx_type = record (new_result mode_end_tran) { tx_type = tx_type }

abbrev pub restoring : Result
restoring = new_session_attr_request attr_autocommit none (some true) none

or_true : (b : Bool) → (b || true) ≡ true
or_true b = ground arith

module _ (exchange : List Result → Result → Reply) where
  attr_bool-Grows :
      (attr : ℤ) (v : Bool) (c : Conn)
      → Grows c.requests (set_session_attr_bool exchange background attr v c).1.requests
  unfolding set_session_attr_bool
  attr_bool-Grows attr v c =
      told-Grows exchange background (new_session_attr_request attr none (some v) none) c

  attr_int-Grows :
      (attr v : ℤ) (c : Conn)
      → Grows c.requests (set_session_attr_int exchange background attr v c).1.requests
  unfolding set_session_attr_int
  attr_int-Grows attr v c =
      told-Grows exchange background (new_session_attr_request attr (some v) none none) c

  break-requests : (b : Bool) (c : Conn) → (break_on_error b c).requests ≡ c.requests
  unfolding break_on_error
  break-requests true c = refl
  break-requests false c = refl

  toggle-Grows : (c : Conn) → Grows c.requests (toggle_isolation exchange c).requests
  unfolding toggle_isolation
  toggle-Grows c =
      let d = (set_session_attr_int exchange background attr_isolation tx_serializable c).1 in
      let e = (set_session_attr_int exchange background attr_isolation tx_read_committed d).1 in
      let f = (set_session_attr_bool exchange background attr_connection_readonly false e).1 in
      rw (break-requests _ f) (
        Grows-trans c.requests d.requests f.requests
          (attr_int-Grows attr_isolation tx_serializable c)
          (Grows-trans d.requests e.requests f.requests
            (attr_int-Grows attr_isolation tx_read_committed d)
            (attr_bool-Grows attr_connection_readonly false e)))

  reset-Grows : (c : Conn) → Grows c.requests (reset_session_characteristics exchange c).requests
  unfolding reset_session_characteristics reset_unless
  reset-Grows c = elim (Bool-cases (not c.tx_altered_session || (c.closed || c.broken))) [
    | inl e ↦ rw (e) (Grows-refl c.requests)
    | inr e ↦ rw (e) (toggle-Grows (record c { tx_altered_session = false }))
  ]

  -- The restoring request goes out over a valid connection behind an ENDTRAN that has failed.
  ended_refused :
      (x : ConnError) (c : Conn)
      → (c.closed || c.broken) ≡ false
      → ((ended exchange (inl x, c)).0 ≡ inl x)
        × ((ended exchange (inl x, c)).1.autocommit ≡ true)
        × Grows (c.requests ++ (restoring ∷ [])) (ended exchange (inl x, c)).1.requests
  unfolding ended set_session_attr_bool
  ended_refused x c e =
      let d = (set_session_attr_bool exchange background attr_autocommit true c).1 in
      (
        refl,
        reset_autocommit exchange (record d { autocommit = true }),
        subst
            (λ l.
              Grows l
                (reset_session_characteristics exchange (record d { autocommit = true })).requests)
            (told_sent exchange restoring c e) (reset-Grows (record d { autocommit = true })),
      )

  end_tran_refused :
      (tx_type : ℤ) (c : Conn) (res : Response)
      → (c.closed || c.broken) ≡ false
      → exchange c.requests (ending tx_type) ≡ answered res
      → (res.main.mode == mode_error) ≡ true
      → end_tran exchange tx_type c
        ≡ (inl (error_from_result res.main), requested (ending tx_type) c)
  unfolding end_tran
  end_tran_refused tx_type c res e reply bad =
      told_refused exchange (ending tx_type) c res e reply bad

  -- Where the server answers the ENDTRAN of a valid connection with an error, Commit or Rollback
  -- returns this error, autocommit is on for the connection's own record, and the requests are the
  -- ENDTRAN, then the SETSESSIONATTR that puts autocommit on again, and any others behind these two,
  -- whatever the server answers to the second one and to the others.
  pub finish_error :
      (tx_type : ℤ) (c : Conn) (res : Response)
      → is_valid c ≡ true
      → exchange c.requests (ending tx_type) ≡ answered res
      → (res.main.mode == mode_error) ≡ true
      → ((finish exchange tx_type c).0 ≡ inl (error_from_result res.main))
        × ((finish exchange tx_type c).1.autocommit ≡ true)
        × Grows
            ((c.requests ++ (ending tx_type ∷ [])) ++ (restoring ∷ []))
            (finish exchange tx_type c).1.requests
  unfolding finish if_valid is_valid
  finish_error tx_type c res v reply bad =
      let e = not_invalid c.closed c.broken v in
      rw (e, end_tran_refused tx_type c res e reply bad)
        (ended_refused (error_from_result res.main) (requested (ending tx_type) c) e)

  ended_invalid :
      (x : ConnError) (c : Conn)
      → (c.closed || c.broken) ≡ true
      → ended exchange (inl x, c) ≡ (inl x, record c { autocommit = true })
  unfolding ended set_session_attr_bool reset_session_characteristics reset_unless
  ended_invalid x c e =
      rw (told_invalid exchange background restoring c e, e, or_true (not c.tx_altered_session))
        refl

  -- Where the wire fails under the ENDTRAN of a valid connection, Commit or Rollback returns that
  -- error, and all that has changed is that the ENDTRAN was made, that the connection is broken and
  -- that autocommit is on for its own record: nothing more is sent.
  pub finish_lost :
      (tx_type : ℤ) (c : Conn)
      → is_valid c ≡ true
      → exchange c.requests (ending tx_type) ≡ failed
      → finish exchange tx_type c ≡ (
        inl exchange_error,
        record (requested (ending tx_type) c) { broken = true; autocommit = true },
      )
  unfolding finish if_valid is_valid end_tran
  finish_lost tx_type c v reply =
      let e = not_invalid c.closed c.broken v in
      rw (e, told_lost exchange (ending tx_type) c e reply)
        (ended_invalid exchange_error (record (requested (ending tx_type) c) { broken = true })
          (or_true c.closed))
