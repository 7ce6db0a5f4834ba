-- ===== src/Conn/Rows/Drain/Blocks.antt =====
-- rows.go: one call of Next, inside a block, at its end, and at the end of the result.
use go_hsql.Base.{
  ℕ, zero, suc, ◌^◌, ◌≤◌, ◌<◌, ◌≡◌, refl, ap, ◌∙◌, inr, true, false, not, ◌||◌, Option, none, some,
  List, [], ◌∷◌, ◌++◌, arith, leb, ◌==◌, length, get_or, drop, length-drop,
}
use go_hsql.Base.Int.{ℤ, pos, ◌+ℤ◌, ltb_ℤ}
use go_hsql.Base.Words.{wrap}
use go_hsql.Proto.Const.{mode_error, mode_request_data}
use go_hsql.Proto.Types.Value.{Value}
use go_hsql.Proto.Metadata.{Metadata}
use go_hsql.Proto.Result.{RowSet, Result, Response}
use go_hsql.Conn.{Conn, Reply, answered, background, settle, requested}
use go_hsql.Conn.Frame.{exec_ctx_sent}
use go_hsql.Conn.Rows.{
  Rows, finished, request_data, take_row, use_block, use_row_set, fetched, after_fetch, fetch_more,
  next_row,
}

-- What a REQUESTDATA for the rows from the k-th on is answered with: at least one row, and the rows
-- of the whole result from there on.
pub record IsBlock (all : List (List Value)) (k : ℕ) (reply : Reply) : Type 0 where
  pub response : Response
  pub row_set : RowSet
  pub first : List Value
  pub others : List (List Value)
  pub remaining : List (List Value)
  pub is_answer : reply ≡ answered response
  pub is_no_error : (response.main.mode == mode_error) ≡ false
  pub has_row_set : response.main.row_set ≡ some row_set
  pub has_rows : row_set.rows ≡ first ∷ others
  pub is_part : (first ∷ others) ++ remaining ≡ drop k all

-- A server that keeps the result `all` under the id, and answers each request for more of it.
abbrev pub Serves : (List Result → Result → Reply) → ℤ → List (List Value) → Type 0
Serves exchange id all =
    (requests : List Result) (req : Result) (k : ℕ)
    → req.mode ≡ mode_request_data
    → req.id ≡ id
    → req.update_count ≡ pos k
    → k < length all
    → IsBlock all k (exchange requests req)

-- The rows of a result of which k rows have been read.
abbrev pub rows_at : Option Metadata → ℤ → ℕ → List (List Value) → ℕ → ℕ → List Result → Rows
rows_at m id total block block_pos k more = record {
  meta = m;
  result_id = id;
  total = pos total;
  block = block;
  block_pos = block_pos;
  abs_pos = pos k;
  done = false;
  next_results = more;
}

-- Where a list is left behind the first n elements, its head is the n-th element.
pub drop_some :
    {A : Type 0} (n : ℕ) (xs : List A) (d x : A) (rest : List A)
    → drop n xs ≡ x ∷ rest
    → (get_or xs n d ≡ x) × (n < length xs) × (drop (suc n) xs ≡ rest)
drop_some zero [] d x rest h = absurd (ground arith)
drop_some (suc n) [] d x rest h = absurd (ground arith)
drop_some zero (y ∷ xs) d x rest h = (ap (λ l. get_or l 0 d) h, omega arith, ap (drop 1) h)
drop_some (suc n) (y ∷ xs) d x rest h =
    let (head, lt, tail) = drop_some n xs d x rest h in (head, omega (arith, lt), tail)

pub drop_none : {A : Type 0} (n : ℕ) (xs : List A) → drop n xs ≡ [] → length xs ≤ n
drop_none n xs h = omega (arith, length-drop n xs, ap length h)

leb-true : (a b : ℕ) → a ≤ b → leb a b ≡ true
leb-true a b h = ground arith

leb-false : (a b : ℕ) → b < a → leb a b ≡ false
leb-false a b h = ground arith

eqb_done : (k n : ℕ) → n ≤ k → not (ltb_ℤ (pos k) (pos n)) ≡ true
eqb_done k n h = ground arith

eqb_more : (k n : ℕ) → k < n → not (ltb_ℤ (pos k) (pos n)) ≡ false
eqb_more k n h = ground arith

plus_one : (k : ℕ) → pos k +ℤ pos 1 ≡ pos (suc k)
unfolding ◌+ℤ◌
plus_one k = ground arith

wrap_pos : (n : ℕ) → n < 2 ^ 31 → wrap 32 (pos n) ≡ pos n
wrap_pos n h = ground arith

wrap_next : (k : ℕ) → suc k < 2 ^ 31 → wrap 32 (pos k +ℤ pos 1) ≡ pos (suc k)
wrap_next k h = ap (wrap 32) (plus_one k) ∙ wrap_pos (suc k) h

settle_answered :
    (reply : Reply) (res : Response) (c : Conn)
    → reply ≡ answered res
    → (res.main.mode == mode_error) ≡ false
    → settle background reply c ≡ (inr res, c)
unfolding settle
settle_answered reply res c e f = rw (e, f) refl

-- The row at the position is handed out.
take_row_lem :
    (m : Option Metadata) (id : ℤ) (total : ℕ) (block : List (List Value)) (p k : ℕ)
    (more : List Result) (c : Conn) (row : List Value)
    → get_or block p [] ≡ row
    → suc k < 2 ^ 31
    → take_row (rows_at m id total block p k more) c
      ≡ (inr (some row), rows_at m id total block (suc p) (suc k) more, c)
unfolding take_row
take_row_lem m id total block p k more c row h fits = rw (h, wrap_next k fits) refl

use_block_lem :
    (n m : Option Metadata) (id : ℤ) (total : ℕ) (block : List (List Value)) (p k : ℕ)
    (more : List Result) (c : Conn) (row : List Value) (rows : List (List Value))
    → (l : Option Metadata) × (use_block n (row ∷ rows) (rows_at m id total block p k more) c
        ≡ (inr tt, rows_at l id total (row ∷ rows) 0 k more, c))
unfolding use_block
use_block_lem none m id total block p k more c row rows = (m, refl)
use_block_lem (some n) m id total block p k more c row rows = (some n, refl)

after_fetch_lem :
    (m : Option Metadata) (id : ℤ) (total : ℕ) (k : ℕ) (more : List Result) (c : Conn)
    (row : List Value) (rows : List (List Value))
    → suc k < 2 ^ 31
    → after_fetch (inr tt, rows_at m id total (row ∷ rows) 0 k more, c)
      ≡ (inr (some row), rows_at m id total (row ∷ rows) 1 (suc k) more, c)
unfolding after_fetch
after_fetch_lem m id total k more c row rows fits =
    rw (leb-false (length (row ∷ rows)) 0 (omega arith))
      (take_row_lem m id total (row ∷ rows) 0 k more c row refl fits)

module _ (exchange : List Result → Result → Reply) where
  fetch_more_lem :
      (m : Option Metadata) (id : ℤ) (all block : List (List Value)) (p k : ℕ) (more : List Result)
      (c : Conn)
      → k < length all
      → (c.closed || c.broken) ≡ false
      → (b : IsBlock all k
          (exchange c.requests (request_data (rows_at m id (length all) block p k more) c)))
      → fetch_more exchange (rows_at m id (length all) block p k more) c
        ≡ use_block b.response.main.meta
            (b.first ∷ b.others)
            (rows_at m id (length all) block p k more)
            (requested (request_data (rows_at m id (length all) block p k more) c) c)
  unfolding fetch_more fetched use_row_set
  fetch_more_lem m id all block p k more c lt valid b =
      let r = rows_at m id (length all) block p k more in
      let req = request_data r c in
      rw
        (
          eqb_more k (length all) lt,
          exec_ctx_sent exchange background req c valid refl,
          settle_answered (exchange c.requests req) b.response (requested req c) b.is_answer
              b.is_no_error,
          b.has_row_set,
          b.has_rows,
        )
        refl

  pub next_row_inside :
      (m : Option Metadata) (id : ℤ) (total : ℕ) (block : List (List Value)) (p k : ℕ)
      (more : List Result) (c : Conn) (row : List Value)
      → p < length block
      → get_or block p [] ≡ row
      → suc k < 2 ^ 31
      → next_row exchange (rows_at m id total block p k more) c
        ≡ (inr (some row), rows_at m id total block (suc p) (suc k) more, c)
  unfolding next_row
  next_row_inside m id total block p k more c row lt h fits =
      rw (leb-false (length block) p lt) (take_row_lem m id total block p k more c row h fits)

  pub next_row_end :
      (m : Option Metadata) (id : ℤ) (total : ℕ) (block : List (List Value)) (p k : ℕ)
      (more : List Result) (c : Conn)
      → length block ≤ p
      → total ≤ k
      → (next_row exchange (rows_at m id total block p k more) c)
        ≡ (inr none, finished (rows_at m id total block p k more), c)
  unfolding next_row fetch_more after_fetch
  next_row_end m id total block p k more c le done =
      rw (leb-true (length block) p le, eqb_done k total done) refl

  -- The block is used up, and the next one is fetched.
  pub next_row_fetch :
      (m : Option Metadata) (id : ℤ) (all block : List (List Value)) (p k : ℕ) (more : List Result)
      (c : Conn)
      → length block ≤ p
      → k < length all
      → length all < 2 ^ 31
      → (c.closed || c.broken) ≡ false
      → (b : IsBlock all k
          (exchange c.requests (request_data (rows_at m id (length all) block p k more) c)))
      → (n : Option Metadata) × (next_row exchange (rows_at m id (length all) block p k more) c ≡ (
        inr (some b.first),
        rows_at n id (length all) (b.first ∷ b.others) 1 (suc k) more,
        requested (request_data (rows_at m id (length all) block p k more) c) c,
      ))
  unfolding next_row
  next_row_fetch m id all block p k more c le lt fits valid b =
      let r = rows_at m id (length all) block p k more in
      let d = requested (request_data r c) c in
      let (n, used) =
        use_block_lem b.response.main.meta m id (length all) block p k more d b.first b.others in
      (
        n,
        rw (leb-true (length block) p le) (
            ap after_fetch (fetch_more_lem m id all block p k more c lt valid b ∙ used)
            ∙ after_fetch_lem n id (length all) k more d b.first b.others (omega arith)),
      )
