-- ===== src/Conn/Frame/Requests.antt =====
-- conn.go execCtx: the requests that are made.
use go_hsql.Base.{
  ◌≡◌, refl, sym, ap, ◌∙◌, inl, inr, true, false, ◌||◌, List, [], ◌∷◌, ◌++◌, append_assoc,
  append-nil, arith, ◌==◌, Bool-cases,
}
use go_hsql.Proto.Const.{mode_error}
use go_hsql.Proto.Result.{Result, Response}
use go_hsql.Conn.{
  pure, Conn, Reply, failed, answered, bad_conn, exchange_error, Context, Returned, next, ◌>>=◌,
  settle, requested, exec_ctx, background, error_from_result,
}
use go_hsql.Conn.Frame.{exec_ctx_invalid, exec_ctx_done, exec_ctx_sent}

-- The requests that were made stay, and others come behind them.
abbrev pub Grows : List Result → List Result → Type 0
Grows before after = (more : List Result) × (after ≡ before ++ more)

pub Grows-refl : (l : List Result) → Grows l l
Grows-refl l = ([], sym (append-nil l))

pub Grows-trans : (k l m : List Result) → Grows k l → Grows l m → Grows k m
Grows-trans k l m (a, h) (b, i) = (a ++ b, i ∙ (ap (λ x. x ++ b) h ∙ append_assoc k a b))

settle-requests :
    (ctx : Context) (reply : Reply) (c : Conn) → (settle ctx reply c).1.requests ≡ c.requests
unfolding settle
settle-requests ctx failed c = refl
settle-requests ctx (answered res) c = ground arith

next-requests : {A : Type 0} (p : Returned A) → (next (λ a. pure tt) p).1.requests ≡ p.1.requests
unfolding next
next-requests (inl e, d) = refl
next-requests (inr a, d) = refl

module _ (exchange : List Result → Result → Reply) where
  exec_ctx-Grows :
      (ctx : Context) (req : Result) (c : Conn)
      → Grows c.requests (exec_ctx exchange ctx req c).1.requests
  exec_ctx-Grows ctx req c = elim (Bool-cases (c.closed || c.broken)) [
    | inl e ↦ rw (exec_ctx_invalid exchange ctx req c e) (Grows-refl c.requests)
    | inr e ↦ elim (Bool-cases (ctx.done_before c.requests)) [
      | inl f ↦ rw (exec_ctx_done exchange ctx req c e f) (Grows-refl c.requests)
      | inr f ↦
          rw (exec_ctx_sent exchange ctx req c e f)
            (req ∷ [], settle-requests ctx (exchange c.requests req) (requested req c))
    ]
  ]

  pub told-Grows :
      (ctx : Context) (req : Result) (c : Conn)
      → Grows c.requests ((exec_ctx exchange ctx req >>= λ a. pure tt) c).1.requests
  unfolding ◌>>=◌
  told-Grows ctx req c = rw (next-requests (exec_ctx exchange ctx req c)) (exec_ctx-Grows ctx req c)

  -- A request over a valid connection is made, whatever comes of it.
  pub told_sent :
      (req : Result) (c : Conn)
      → (c.closed || c.broken) ≡ false
      → ((exec_ctx exchange background req >>= λ a. pure tt) c).1.requests
        ≡ c.requests ++ (req ∷ [])
  unfolding ◌>>=◌
  told_sent req c e = rw (next-requests (exec_ctx exchange background req c)) (
      rw (exec_ctx_sent exchange background req c e refl)
        (settle-requests background (exchange c.requests req) (requested req c)))

  -- An answer that is an error leaves the connection as it is but for the request.
  pub told_refused :
      (req : Result) (c : Conn) (res : Response)
      → (c.closed || c.broken) ≡ false
      → exchange c.requests req ≡ answered res
      → (res.main.mode == mode_error) ≡ true
      → (exec_ctx exchange background req >>= λ a. pure tt) c
        ≡ (inl (error_from_result res.main), requested req c)
  unfolding ◌>>=◌ next settle
  told_refused req c res e reply bad =
      rw (exec_ctx_sent exchange background req c e refl, reply, bad) refl

  -- A wire that fails breaks the connection.
  pub told_lost :
      (req : Result) (c : Conn)
      → (c.closed || c.broken) ≡ false
      → exchange c.requests req ≡ failed
      → (exec_ctx exchange background req >>= λ a. pure tt) c
        ≡ (inl exchange_error, record (requested req c) { broken = true })
  unfolding ◌>>=◌ next settle
  told_lost req c e reply = rw (exec_ctx_sent exchange background req c e refl, reply) refl

  pub told_invalid :
      (ctx : Context) (req : Result) (c : Conn)
      → (c.closed || c.broken) ≡ true
      → (exec_ctx exchange ctx req >>= λ a. pure tt) c ≡ (inl bad_conn, c)
  unfolding ◌>>=◌ next
  told_invalid ctx req c e = rw (exec_ctx_invalid exchange ctx req c e) refl
