-- ===== src/Conn/Cursor/Query/Opened.antt =====
-- updatable.go QueryUpdatable: what it returns.
use go_hsql.Base.{
  ◌≡◌, refl, ◌⊎◌, inl, inr, true, false, ◌||◌, Option, none, some, List, ◌==◌, Bool-cases, subst,
}
use go_hsql.Proto.Const.{mode_prepare_ack}
use go_hsql.Proto.Utf8.{Text}
use go_hsql.Proto.Types.Value.{Value}
use go_hsql.Proto.Metadata.{Metadata}
use go_hsql.Proto.Result.{RowSet, Result, Response}
use go_hsql.Conn.{Conn, Reply, Returned, Context, exec_ctx}
use go_hsql.Conn.Rows.{is_rows_result}
use go_hsql.Conn.Stmt.{Stmt, OnStmt, close_stmt}
use go_hsql.Conn.Cursor.{UpdatableRows, new_updatable_rows}
use go_hsql.Conn.Cursor.Properties.{IsCursor, new_updatable_rows-IsCursor}
use go_hsql.Conn.Cursor.Query.{
  QueryError, query_failed, not_updatable, Queried, stmt_of, prepare_updatable, is_updatable,
  has_extension, cursor_of, opened_or, after_execute, after_prepare, query_updatable,
}

-- A cursor that a caller may work with: it is open and in front of its first row, its statement is
-- open, and its metadata has the columns of a cursor behind the visible ones.
pub record IsOpened (u : UpdatableRows) (s : Stmt) : Type 0 where
  pub is_cursor : IsCursor u
  pub rows_open : u.closed ≡ false
  pub stmt_open : s.closed ≡ false
  pub in_front : u.next_pos ≡ 0
  pub extended : has_extension u.meta ≡ true

AreOpened : Queried → Type 0
AreOpened (inl e, c) = Unit
AreOpened (inr (u, s), c) = IsOpened u s

new_updatable_rows-IsOpened :
    (m : Metadata)
    → (rs : RowSet) → (s : Stmt) → s.closed ≡ false
    → has_extension m ≡ true
    → IsOpened (new_updatable_rows m rs) s
unfolding new_updatable_rows
new_updatable_rows-IsOpened m rs s still_open extended = record {
  is_cursor = new_updatable_rows-IsCursor m rs;
  rows_open = refl;
  stmt_open = still_open;
  in_front = refl;
  extended = extended;
}

AreRows : QueryError ⊎ UpdatableRows → Stmt → Type 0
AreRows (inl e) s = Unit
AreRows (inr u) s = IsOpened u s

cursor_of-AreRows :
    (res : Result)
    → (m : Option Metadata) → (rs : Option RowSet) → (s : Stmt) → s.closed ≡ false
    → AreRows (cursor_of res m rs) s
unfolding cursor_of AreRows
cursor_of-AreRows res none rs s still_open = tt
cursor_of-AreRows res (some m) none s still_open = tt
cursor_of-AreRows res (some m) (some rs) s still_open = elim (Bool-cases (is_rows_result res)) [
  | inr e ↦ rw (e) tt
  | inl e ↦ elim (Bool-cases (has_extension m)) [
    | inr f ↦ rw (e, f) tt
    | inl f ↦ rw (e, f) (new_updatable_rows-IsOpened m rs s still_open f)
  ]
]

opened_or-AreOpened :
    (close : Stmt → Conn → OnStmt Unit)
    → (s : Stmt) → (r : QueryError ⊎ UpdatableRows) → (c : Conn) → AreRows r s
    → AreOpened (opened_or close s r c)
unfolding opened_or AreOpened AreRows
opened_or-AreOpened close s (inl e) c are_rows = tt
opened_or-AreOpened close s (inr u) c are_rows = are_rows

after_execute-AreOpened :
    (close : Stmt → Conn → OnStmt Unit)
    → (s : Stmt) → s.closed ≡ false
    → (r : Returned Response) → AreOpened (after_execute close s r)
unfolding after_execute AreRows
after_execute-AreOpened close s still_open (inl e, c) =
    opened_or-AreOpened close s (inl (query_failed e)) c tt
after_execute-AreOpened close s still_open (inr res, c) =
    opened_or-AreOpened close s (cursor_of res.main res.main.meta res.main.row_set) c
      (cursor_of-AreRows res.main res.main.meta res.main.row_set s still_open)

module _ (exchange : List Result → Result → Reply) where
  after_prepare-AreOpened :
      (ctx : Context)
      → (args : List Value) → (r : Returned Response)
      → AreOpened (after_prepare exchange ctx args r)
  unfolding after_prepare AreOpened AreRows
  after_prepare-AreOpened ctx args (inl e, c) = tt
  after_prepare-AreOpened ctx args (inr res, c) =
      elim (Bool-cases (res.main.mode == mode_prepare_ack)) [
        | inr e ↦ rw (e) tt
        | inl e ↦ elim (Bool-cases (is_updatable res.main)) [
          | inr f ↦
              rw (e, f)
                (opened_or-AreOpened (close_stmt exchange) (stmt_of res.main) (inl not_updatable) c
                  tt)
          | inl f ↦
              rw (e, f) (after_execute-AreOpened (close_stmt exchange) (stmt_of res.main) refl _)
        ]
      ]

  query_updatable-AreOpened :
      (ctx : Context)
      → (query : Text) → (args : List Value) → (c : Conn)
      → AreOpened (query_updatable exchange ctx query args c)
  unfolding query_updatable AreOpened
  query_updatable-AreOpened ctx query args c = elim (Bool-cases (c.closed || c.broken)) [
    | inl e ↦ rw (e) tt
    | inr e ↦
        rw (e)
          (after_prepare-AreOpened ctx args (exec_ctx exchange ctx (prepare_updatable query) c))
  ]

  -- The rows that QueryUpdatable returns, whatever the server answers: they are open, have one server
  -- number for each row and stand in front of the first one, their statement is open, and their
  -- metadata has the columns of a cursor behind the visible ones.
  pub query_updatable-IsOpened :
      (ctx : Context)
      → (query : Text) → (args : List Value) → (c d : Conn) → (u : UpdatableRows) → (s : Stmt)
      → query_updatable exchange ctx query args c ≡ (inr (u, s), d)
      → IsOpened u s
  unfolding AreOpened
  query_updatable-IsOpened ctx query args c d u s returned =
      subst AreOpened returned (query_updatable-AreOpened ctx query args c)
