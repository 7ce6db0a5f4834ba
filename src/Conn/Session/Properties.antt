-- ===== src/Conn/Session/Properties.antt =====
-- conn.go: what ResetSession leaves behind.
use go_hsql.Base.{◌≡◌, sym, ap, ◌∙◌, inr, true, List}
use go_hsql.Base.Int.{negsuc}
use go_hsql.Proto.Utf8.{Text}
use go_hsql.Proto.Result.{Result}
use go_hsql.Conn.{Conn, Reply, Context, ◌>>=◌, is_valid, requested, new_exec_direct}
use go_hsql.Conn.Frame.{next_ok, if_valid_ok, told_ok}
use go_hsql.Conn.Session.{rollback_sql, set_autocommit_sql, exec_sql, reset_fields, reset_session}

-- The connection behind a ResetSession that succeeds.
abbrev pub was_reset : Conn → Conn
was_reset c =
    record (requested (new_exec_direct set_autocommit_sql c)
      (requested (new_exec_direct rollback_sql c) c)) { autocommit = true; lob_id_seq = negsuc 0 }

module _ (exchange : List Result → Result → Reply) where
  sql_ok :
      (ctx : Context) (sql : Text) (c d : Conn) (u : Unit)
      → exec_sql exchange ctx sql c ≡ (inr u, d)
      → (is_valid c ≡ true) × (d ≡ requested (new_exec_direct sql c) c)
  unfolding exec_sql
  sql_ok ctx sql c d u h = told_ok exchange ctx (new_exec_direct sql c) c d u h

  -- Where ResetSession succeeds, it was on a valid connection, two statements were sent, ROLLBACK and
  -- then SET AUTOCOMMIT TRUE, autocommit is on, the sequence of the LOB ids starts again at -1,
  -- and nothing else has changed: not the flag for changed session characteristics either.
  pub reset_session_ok :
      (ctx : Context) (c e : Conn) (u : Unit)
      → reset_session exchange ctx c ≡ (inr u, e)
      → (is_valid c ≡ true) × (e ≡ was_reset c)
  unfolding reset_session ◌>>=◌ reset_fields new_exec_direct
  reset_session_ok ctx c e u h =
      let k =
        if_valid_ok
          (exec_sql exchange ctx rollback_sql >>= λ a.
            exec_sql exchange ctx set_autocommit_sql >>= λ b. reset_fields)
          c e u h in
      let (a, d1, first, h1) =
        next_ok (λ a. exec_sql exchange ctx set_autocommit_sql >>= λ b. reset_fields)
          (exec_sql exchange ctx rollback_sql c) e u k in
      let (b, d2, second, h2) =
        next_ok (λ b. reset_fields) (exec_sql exchange ctx set_autocommit_sql d1) e u h1 in
      let (valid, made) = sql_ok ctx rollback_sql c d1 a first in
      let (valid2, made2) = sql_ok ctx set_autocommit_sql d1 d2 b second in
      (
        valid,
        sym (ap (λ p. p.1) h2)
            ∙ (ap (λ (d : Conn). record d { autocommit = true; lob_id_seq = negsuc 0 }) made2
                ∙ ap
                    (λ (d : Conn). record (requested (new_exec_direct set_autocommit_sql d) d) {
                      autocommit = true;
                      lob_id_seq = negsuc 0;
                    })
                    made),
      )
