-- ===== src/Conn/Frame.antt =====
-- conn.go: what execCtx and its callers keep of the connection.
pub mod Requests
use go_hsql.Base.{
  ◌≡◌, refl, sym, ap, ◌∙◌, inl, inr, Bool, true, false, not, ◌&&◌, ◌||◌, List, arith, ◌==◌,
  Bool-cases,
}
use go_hsql.Proto.Const.{mode_error}
use go_hsql.Proto.Result.{Result, Response}
use go_hsql.Conn.{
  pure, Conn, Reply, failed, answered, ConnError, bad_conn, context_error, Context, Returned,
  Action, next, ◌>>=◌, if_valid, is_valid, settle, requested, exec_ctx,
}

-- What an operation keeps that only talks to the server: the flags, but that it may break.
pub record Kept (c d : Conn) : Type 0 where
  pub closed_kept : d.closed ≡ c.closed
  pub autocommit_kept : d.autocommit ≡ c.autocommit
  pub altered_kept : d.tx_altered_session ≡ c.tx_altered_session
  pub lob_kept : d.lob_id_seq ≡ c.lob_id_seq
  pub broken_kept : c.broken ≡ true → d.broken ≡ true

pub Kept-refl : (c : Conn) → Kept c c
Kept-refl c = record {
  closed_kept = refl;
  autocommit_kept = refl;
  altered_kept = refl;
  lob_kept = refl;
  broken_kept = λ h. h;
}

pub Kept-trans : {c d e : Conn} → Kept c d → Kept d e → Kept c e
Kept-trans h k = record {
  closed_kept = k.closed_kept ∙ h.closed_kept;
  autocommit_kept = k.autocommit_kept ∙ h.autocommit_kept;
  altered_kept = k.altered_kept ∙ h.altered_kept;
  lob_kept = k.lob_kept ∙ h.lob_kept;
  broken_kept = λ b. k.broken_kept (h.broken_kept b);
}

settle-Kept : (ctx : Context) (reply : Reply) (c : Conn) → Kept c (settle ctx reply c).1
unfolding settle
settle-Kept ctx failed c = record {
  closed_kept = refl;
  autocommit_kept = refl;
  altered_kept = refl;
  lob_kept = refl;
  broken_kept = λ h. refl;
}
settle-Kept ctx (answered res) c = elim (Bool-cases (res.main.mode == mode_error)) [
  | inl e ↦ rw (e) (Kept-refl c)
  | inr e ↦ rw (e) (Kept-refl c)
]

requested-Kept : (req : Result) (c : Conn) → Kept c (requested req c)
requested-Kept req c = record {
  closed_kept = refl;
  autocommit_kept = refl;
  altered_kept = refl;
  lob_kept = refl;
  broken_kept = λ h. h;
}

settle_ok :
    (ctx : Context) (reply : Reply) (c d : Conn) (res : Response)
    → settle ctx reply c ≡ (inr res, d)
    → d ≡ c
unfolding settle
settle_ok ctx reply c d res h = ground arith

valid_of : (closed broken : Bool) → (closed || broken) ≡ false → (not closed && not broken) ≡ true
valid_of closed broken h = ground arith

pub refused_ok :
    {A : Type 0} (e : ConnError) (a : A) (c d : Conn) {P : Type 0}
    → ◌≡◌ {A = Returned A} (inl e, c) (inr a, d)
    → P
refused_ok e a c d h = ground arith

module _ (exchange : List Result → Result → Reply) where
  -- The three ways of execCtx: refused, given up, or exchanged.
  pub exec_ctx_invalid :
      (ctx : Context) (req : Result) (c : Conn)
      → (c.closed || c.broken) ≡ true
      → exec_ctx exchange ctx req c ≡ (inl bad_conn, c)
  unfolding exec_ctx
  exec_ctx_invalid ctx req c e = rw (e) refl

  pub exec_ctx_done :
      (ctx : Context) (req : Result) (c : Conn)
      → (c.closed || c.broken) ≡ false
      → ctx.done_before c.requests ≡ true
      → exec_ctx exchange ctx req c ≡ (inl context_error, c)
  unfolding exec_ctx
  exec_ctx_done ctx req c e f = rw (e, f) refl

  pub exec_ctx_sent :
      (ctx : Context) (req : Result) (c : Conn)
      → (c.closed || c.broken) ≡ false
      → ctx.done_before c.requests ≡ false
      → exec_ctx exchange ctx req c ≡ settle ctx (exchange c.requests req) (requested req c)
  unfolding exec_ctx
  exec_ctx_sent ctx req c e f = rw (e, f) refl

  pub exec_ctx-Kept :
      (ctx : Context) (req : Result) (c : Conn) → Kept c (exec_ctx exchange ctx req c).1
  exec_ctx-Kept ctx req c = elim (Bool-cases (c.closed || c.broken)) [
    | inl e ↦ rw (exec_ctx_invalid ctx req c e) (Kept-refl c)
    | inr e ↦ elim (Bool-cases (ctx.done_before c.requests)) [
      | inl f ↦ rw (exec_ctx_done ctx req c e f) (Kept-refl c)
      | inr f ↦ rw (exec_ctx_sent ctx req c e f) (
          Kept-trans (requested-Kept req c)
            (settle-Kept ctx (exchange c.requests req) (requested req c)))
    ]
  ]

  -- A response comes back only over a connection that is valid, and nothing of it has changed but
  -- that the request is made.
  pub exec_ctx_ok :
      (ctx : Context) (req : Result) (c d : Conn) (res : Response)
      → exec_ctx exchange ctx req c ≡ (inr res, d)
      → (is_valid c ≡ true) × (d ≡ requested req c)
  unfolding is_valid
  exec_ctx_ok ctx req c d res h = elim (Bool-cases (c.closed || c.broken)) [
    | inl e ↦ refused_ok bad_conn res c d (sym (exec_ctx_invalid ctx req c e) ∙ h)
    | inr e ↦ elim (Bool-cases (ctx.done_before c.requests)) [
      | inl f ↦ refused_ok context_error res c d (sym (exec_ctx_done ctx req c e f) ∙ h)
      | inr f ↦ (
        valid_of c.closed c.broken e,
        settle_ok ctx (exchange c.requests req) (requested req c) d res
            (sym (exec_ctx_sent ctx req c e f) ∙ h),
      )
    ]
  ]

-- A bind that succeeds, taken apart.
pub next_ok :
    {A B : Type 0} (f : A → Action B) (p : Returned A) (e : Conn) (b : B)
    → next f p ≡ (inr b, e)
    → (a : A) × (d : Conn) × (p ≡ (inr a, d)) × (f a d ≡ (inr b, e))
unfolding next
next_ok f (inl x, c) e b h = refused_ok x b c e h
next_ok f (inr a, c) e b h = (a, c, refl, h)

pub if_valid_ok :
    {A : Type 0} (m : Action A) (c d : Conn) (a : A) → if_valid m c ≡ (inr a, d) → m c ≡ (inr a, d)
unfolding if_valid
if_valid_ok m c d a h = elim (Bool-cases (c.closed || c.broken)) [
  | inl e ↦ refused_ok bad_conn a c d (sym (rw (e) refl) ∙ h)
  | inr e ↦ (sym (rw (e) refl) ∙ h)
]

next-Kept : {A : Type 0} (c : Conn) (p : Returned A) → Kept c p.1 → Kept c (next (λ a. pure tt) p).1
unfolding next
next-Kept c (inl e, d) h = h
next-Kept c (inr a, d) h = h

module _ (exchange : List Result → Result → Reply) where
  -- The same of an operation that only wants to know whether a request has failed.
  pub told-Kept :
      (ctx : Context) (req : Result) (c : Conn)
      → Kept c ((exec_ctx exchange ctx req >>= λ a. pure tt) c).1
  unfolding ◌>>=◌
  told-Kept ctx req c = next-Kept c (exec_ctx exchange ctx req c) (exec_ctx-Kept exchange ctx req c)

  pub told_ok :
      (ctx : Context) (req : Result) (c d : Conn) (u : Unit)
      → (exec_ctx exchange ctx req >>= λ a. pure tt) c ≡ (inr u, d)
      → (is_valid c ≡ true) × (d ≡ requested req c)
  unfolding ◌>>=◌
  told_ok ctx req c d u h =
      let (res, e, sent, same) =
        next_ok (λ (a : Response). pure tt) (exec_ctx exchange ctx req c) d u h in
      let (valid, made) = exec_ctx_ok exchange ctx req c e res sent in
      (valid, sym (ap (λ p. p.1) same) ∙ made)
