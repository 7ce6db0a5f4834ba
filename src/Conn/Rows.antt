-- ===== src/Conn/Rows.antt =====
-- rows.go: the paging of a result set. A row is taken as it arrived; the copy of its cells to the
-- caller, which fetches LOBs and prints arrays, is in Lob/Resolve.
pub mod Drain
use go_hsql.Base.{
  ℕ, suc, ◌⊎◌, inl, inr, Bool, true, false, not, ◌||◌, Option, none, some, List, [], ◌∷◌, ltb, leb,
  ◌==◌, if◌then◌else◌, length, get_or,
}
use go_hsql.Base.Words.{wrap}
use go_hsql.Base.Int.{ℤ, pos, ◌+ℤ◌, ltb_ℤ, eqb_ℤ}
use go_hsql.Proto.Const.{
  mode_data, mode_request_data, mode_data_head, mode_generated, mode_close_result,
}
use go_hsql.Proto.Types.Value.{Value}
use go_hsql.Proto.Metadata.{Metadata}
use go_hsql.Proto.Result.{RowSet, empty_row_set, Result, Response, new_result}
use go_hsql.Conn.{Conn, Reply, ConnError, Returned, background, exec_ctx}

pub record Rows : Type 0 where
  pub meta : Option Metadata
  pub result_id : ℤ
  pub total : ℤ
  pub block : List (List Value)
  pub block_pos : ℕ
  pub abs_pos : ℤ
  pub done : Bool
  pub next_results : List Result

-- A method of rows: what it returns, the rows and the connection.
abbrev pub Paged : Type 0 → Type 0
Paged A = (ConnError ⊎ A) × Rows × Conn

-- r.done = true.
abbrev pub finished : Rows → Rows
finished r = record r { done = true }

unfoldable pub is_rows_result : Result → Bool
is_rows_result res =
    if (res.mode == mode_data || res.mode == mode_data_head) || res.mode == mode_generated
    then elim res.meta [
      | none ↦ false
      | some m ↦ elim res.row_set [ none ↦ false | some rs ↦ true ]
    ]
    else false

abbrev is_none : {A : Type 0} → Option A → Bool
is_none none = true
is_none (some a) = false

abbrev row_set_of : Option RowSet → RowSet
row_set_of none = empty_row_set
row_set_of (some rs) = rs

unfoldable pub load_result : Result → List Result → Rows
load_result res more =
    let rs = row_set_of res.row_set in
    record {
      meta = res.meta;
      result_id = rs.id;
      total = rs.size;
      block = rs.rows;
      block_pos = 0;
      abs_pos = pos 0;
      done = is_none res.meta;
      next_results = more;
    }

-- The chained results that are result sets.
unfoldable pub rows_results : List Result → List Result
rows_results [] = []
rows_results (res ∷ more) =
    let rest = rows_results more in if is_rows_result res then res ∷ rest else rest

unfoldable pub new_rows : Response → Rows
new_rows res = load_result res.main (rows_results res.chained)

-- The request for the block at the next unread row.
unfoldable pub request_data : Rows → Conn → Result
request_data r c = record (new_result mode_request_data) {
  id = r.result_id;
  update_count = r.abs_pos;
  fetch_size = c.fetch_size;
}

unfoldable pub has_next_result_set : Rows → Bool
has_next_result_set r = ltb 0 (length r.next_results)

-- The row at blockPos is taken; the int32 absPos wraps.
unfoldable pub take_row : Rows → Conn → Paged (Option (List Value))
take_row r c = (
  inr (some (get_or r.block r.block_pos [])),
  record r { block_pos = suc r.block_pos; abs_pos = wrap 32 (r.abs_pos +ℤ pos 1) },
  c,
)

-- A fetched block takes the place of the one that is used up.
unfoldable pub use_block : Option Metadata → List (List Value) → Rows → Conn → Paged Unit
use_block m [] r c = (inr tt, finished r, c)
use_block none (row ∷ rows) r c = (inr tt, record r { block = row ∷ rows; block_pos = 0 }, c)
use_block (some m) (row ∷ rows) r c =
    (inr tt, record r { block = row ∷ rows; block_pos = 0; meta = some m }, c)

unfoldable pub use_row_set : Option Metadata → Option RowSet → Rows → Conn → Paged Unit
unfolding use_block
use_row_set m none r c = (inr tt, finished r, c)
use_row_set m (some rs) r c = use_block m rs.rows r c

unfoldable pub fetched : Returned Response → Rows → Paged Unit
unfolding use_row_set
fetched (inl e, c) r = (inl e, r, c)
fetched (inr res, c) r = use_row_set res.main.meta res.main.row_set r c

-- Next behind fetchMore.
unfoldable pub after_fetch : Paged Unit → Paged (Option (List Value))
after_fetch (inl e, r, c) = (inl e, r, c)
after_fetch (inr u, r, c) =
    if r.done || leb (length r.block) r.block_pos then (inr none, finished r, c) else take_row r c

-- NextResultSet behind closeCurrent, which is not called where no result set is left.
unfoldable pub advanced : Rows → Conn → List Result → Returned Unit → Paged (Option Unit)
advanced r c [] p = (inr none, r, c)
advanced r c (res ∷ more) (inl e, d) = (inl e, r, d)
advanced r c (res ∷ more) (inr u, d) = (inr (some tt), load_result res more, d)

module _ (exchange : List Result → Result → Reply) where
  unfoldable pub fetch_more : Rows → Conn → Paged Unit
  fetch_more r c =
      if not (ltb_ℤ r.abs_pos r.total)
      then (inr tt, finished r, c)
      else fetched (exec_ctx exchange background (request_data r c) c) r

  -- Next: a row, or none for io.EOF.
  unfoldable pub next_row : Rows → Conn → Paged (Option (List Value))
  next_row r c =
      if r.done
      then (inr none, r, c)
      else if leb (length r.block) r.block_pos
      then after_fetch (fetch_more r c)
      else take_row r c

  -- The CLOSE_RESULT, which is left out where the server keeps no cursor.
  unfoldable pub close_current : Rows → Conn → Returned Unit
  close_current r c =
      if c.closed || eqb_ℤ r.result_id (pos 0)
      then (inr tt, c)
      else if not (ltb_ℤ r.abs_pos r.total)
      then (inr tt, c)
      else told (
          exec_ctx exchange background (record (new_result mode_close_result) { id = r.result_id })
            c)
    where
      told : Returned Response → Returned Unit
      told (inl e, d) = (inl e, d)
      told (inr res, d) = (inr tt, d)

  unfoldable pub close_rows : Rows → Conn → Paged Unit
  close_rows r c =
      let (u, d) = close_current r c in (u, record r { done = true; next_results = [] }, d)

  -- NextResultSet: none for io.EOF.
  unfoldable pub next_result_set : Rows → Conn → Paged (Option Unit)
  unfolding advanced
  next_result_set r c = advanced r c r.next_results (close_current r c)
