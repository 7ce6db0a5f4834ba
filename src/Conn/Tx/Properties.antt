-- ===== src/Conn/Tx/Properties.antt =====
-- tx.go: what BeginTx and finish leave behind.
use go_hsql.Base.{
  ℕ, ◌≡◌, refl, sym, ap, ◌∙◌, inl, inr, Bool, true, false, not, ◌&&◌, ◌||◌, none, some, List, arith,
  if◌then◌else◌, Bool-cases,
}
use go_hsql.Base.Int.{ℤ}
use go_hsql.Proto.Const.{
  attr_isolation, attr_autocommit, attr_connection_readonly, tx_read_committed, tx_serializable,
}
use go_hsql.Proto.Result.{Result}
use go_hsql.Proto.Result.SessionAttr.{new_session_attr_request}
use go_hsql.Conn.{
  Conn, Reply, nested_transaction, Context, background, Returned, ◌>>=◌, is_valid, requested,
}
use go_hsql.Conn.Frame.{
  Kept, Kept-refl, Kept-trans, next_ok, if_valid_ok, refused_ok, told-Kept, told_ok,
}
use go_hsql.Conn.Tx.{
  set_autocommit, set_session_attr_bool, set_session_attr_int, end_tran, begin_isolation,
  begin_read_only, begin_steps, begin_tx, break_on_error, toggle_isolation, reset_unless,
  reset_session_characteristics, restored, ended, finish,
}

not_altered :
    (altered closed broken : Bool)
    → (not altered || (closed || broken)) ≡ true
    → (not closed && not broken) ≡ true
    → altered ≡ false
not_altered altered closed broken h k = ground arith

pub not_invalid :
    (closed broken : Bool) → (not closed && not broken) ≡ true → (closed || broken) ≡ false
not_invalid closed broken h = ground arith

break-Kept : (b : Bool) (c : Conn) → Kept c (break_on_error b c)
unfolding break_on_error
break-Kept true c = record {
  closed_kept = refl;
  autocommit_kept = refl;
  altered_kept = refl;
  lob_kept = refl;
  broken_kept = λ h. refl;
}
break-Kept false c = Kept-refl c

module _ (exchange : List Result → Result → Reply) where
  attr_ok :
      (ctx : Context) (attr : ℤ) (v : Bool) (c d : Conn) (u : Unit)
      → set_session_attr_bool exchange ctx attr v c ≡ (inr u, d)
      → (is_valid c ≡ true) × (d ≡ requested (new_session_attr_request attr none (some v) none) c)
  unfolding set_session_attr_bool
  attr_ok ctx attr v c d u h =
      told_ok exchange ctx (new_session_attr_request attr none (some v) none) c d u h

  begin_steps_ok :
      (ctx : Context) (level : ℕ) (read_only : Bool) (c e : Conn) (u : Unit)
      → begin_steps exchange ctx level read_only c ≡ (inr u, e)
      → (is_valid e ≡ true) × (e.autocommit ≡ false)
  unfolding begin_steps ◌>>=◌ set_autocommit is_valid
  begin_steps_ok ctx level read_only c e u h =
      let (a, d1, iso, h1) =
        next_ok
          (λ a. begin_read_only exchange ctx read_only >>= λ b.
            set_session_attr_bool exchange ctx attr_autocommit false >>= λ d. set_autocommit false)
          (begin_isolation exchange ctx level c) e u h in
      let (b, d2, ro, h2) =
        next_ok
          (λ b.
            set_session_attr_bool exchange ctx attr_autocommit false >>= λ d. set_autocommit false)
          (begin_read_only exchange ctx read_only d1) e u h1 in
      let (v, d3, attr, h3) =
        next_ok (λ d. set_autocommit false)
          (set_session_attr_bool exchange ctx attr_autocommit false d2) e u h2 in
      let (valid, made) = attr_ok ctx attr_autocommit false d2 d3 v attr in
      let ended_in =
        sym (ap (λ p. p.1) h3) ∙ ap (λ (d : Conn). record d { autocommit = false }) made in
      (ap is_valid ended_in ∙ valid, ap (λ d. d.autocommit) ended_in)

  -- Where BeginTx succeeds, the connection was outside a transaction, and it is now valid and inside
  -- of one.
  pub begin_tx_ok :
      (ctx : Context) (level : ℕ) (read_only : Bool) (c e : Conn) (u : Unit)
      → begin_tx exchange ctx level read_only c ≡ (inr u, e)
      → (c.autocommit ≡ true) × (is_valid e ≡ true) × (e.autocommit ≡ false)
  unfolding begin_tx
  begin_tx_ok ctx level read_only c e u h =
      let k =
        if_valid_ok
          (λ d.
            if not d.autocommit
            then (inl nested_transaction, d)
            else begin_steps exchange ctx level read_only d)
          c e u h in
      elim (Bool-cases c.autocommit) [
        | inl t ↦
            let (valid, inside) =
              begin_steps_ok ctx level read_only c e u (sym (rw (t) refl) ∙ k) in
            (t, valid, inside)
        | inr f ↦ refused_ok nested_transaction u c e (sym (rw (f) refl) ∙ k)
      ]

  attr_bool-Kept :
      (attr : ℤ) (v : Bool) (c : Conn)
      → Kept c (set_session_attr_bool exchange background attr v c).1
  unfolding set_session_attr_bool
  attr_bool-Kept attr v c =
      told-Kept exchange background (new_session_attr_request attr none (some v) none) c

  attr_int-Kept :
      (attr v : ℤ) (c : Conn) → Kept c (set_session_attr_int exchange background attr v c).1
  unfolding set_session_attr_int
  attr_int-Kept attr v c =
      told-Kept exchange background (new_session_attr_request attr (some v) none none) c

  toggle-Kept : (c : Conn) → Kept c (toggle_isolation exchange c)
  unfolding toggle_isolation
  toggle-Kept c = Kept-trans (attr_int-Kept attr_isolation tx_serializable c) (
      Kept-trans (attr_int-Kept attr_isolation tx_read_committed _)
        (Kept-trans (attr_bool-Kept attr_connection_readonly false _) (break-Kept _ _)))

  unless_altered :
      (b : Bool) (c : Conn)
      → (b ≡ true → c.tx_altered_session ≡ false)
      → (reset_unless exchange b c).tx_altered_session ≡ false
  unfolding reset_unless
  unless_altered true c h = h refl
  unless_altered false c h = (toggle-Kept (record c { tx_altered_session = false })).altered_kept

  unless_autocommit : (b : Bool) (c : Conn) → (reset_unless exchange b c).autocommit ≡ c.autocommit
  unfolding reset_unless
  unless_autocommit true c = refl
  unless_autocommit false c =
      (toggle-Kept (record c { tx_altered_session = false })).autocommit_kept

  reset_altered :
      (c : Conn)
      → is_valid c ≡ true
      → (reset_session_characteristics exchange c).tx_altered_session ≡ false
  unfolding reset_session_characteristics is_valid
  reset_altered c h =
      unless_altered (not c.tx_altered_session || (c.closed || c.broken)) c
        (λ t. not_altered c.tx_altered_session c.closed c.broken t h)

  pub reset_autocommit :
      (c : Conn) → (reset_session_characteristics exchange c).autocommit ≡ c.autocommit
  unfolding reset_session_characteristics
  reset_autocommit c = unless_autocommit (not c.tx_altered_session || (c.closed || c.broken)) c

  restored_ok :
      (c e : Conn) (u : Unit) (p : Returned Unit)
      → set_session_attr_bool exchange background attr_autocommit true c ≡ p
      → restored exchange p ≡ (inr u, e)
      → (e.autocommit ≡ true) × (e.tx_altered_session ≡ false)
  unfolding restored is_valid
  restored_ok c e u (inl x, d) s h = refused_ok x u d e h
  restored_ok c e u (inr v, d) s h =
      let (valid, made) = attr_ok background attr_autocommit true c d v s in
      let f = record d { autocommit = true } in
      let same = sym (ap (λ p. p.1) h) in
      (
        ap (λ g. g.autocommit) same ∙ reset_autocommit f,
        ap (λ g. g.tx_altered_session) same ∙ reset_altered f (ap is_valid made ∙ valid),
      )

  ended_ok :
      (p : Returned Unit) (e : Conn) (u : Unit)
      → ended exchange p ≡ (inr u, e)
      → (e.autocommit ≡ true) × (e.tx_altered_session ≡ false)
  unfolding ended
  ended_ok (inl x, c) e u h = refused_ok x u _ e h
  ended_ok (inr v, c) e u h =
      restored_ok c e u (set_session_attr_bool exchange background attr_autocommit true c) refl h

  -- Where Commit or Rollback succeeds, the connection is outside a transaction again, and the change
  -- of the session's characteristics is no longer pending.
  pub finish_ok :
      (tx_type : ℤ) (c e : Conn) (u : Unit)
      → finish exchange tx_type c ≡ (inr u, e)
      → (e.autocommit ≡ true) × (e.tx_altered_session ≡ false)
  unfolding finish
  finish_ok tx_type c e u h =
      ended_ok (end_tran exchange tx_type c) e u
        (if_valid_ok (λ d. ended exchange (end_tran exchange tx_type d)) c e u h)
