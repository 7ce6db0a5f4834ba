-- ===== src/Conn/Rows/Drain.antt =====
-- rows.go: reading a result set to its end, over a server that hands it out in blocks.
pub mod Blocks
use go_hsql.Base.{
  ℕ, zero, suc, ◌^◌, ◌<◌, ◌≡◌, refl, ap, ◌∙◌, inl, inr, Bool, true, false, ◌||◌, Option, none, some,
  List, [], ◌∷◌, ◌++◌, arith, length, get_or, drop,
}
use go_hsql.Base.Int.{ℤ, pos}
use go_hsql.Proto.Types.Value.{Value}
use go_hsql.Proto.Metadata.{Metadata}
use go_hsql.Proto.Result.{RowSet, Result, Response}
use go_hsql.Conn.{Conn, Reply, requested}
use go_hsql.Conn.Rows.{new_rows, load_result, rows_results, Rows, Paged, request_data, next_row}
use go_hsql.Conn.Rows.Drain.Blocks.{
  Serves, rows_at, drop_some, drop_none, next_row_inside, next_row_end, next_row_fetch,
}

-- The caller's loop: Next until it returns io.EOF or another error; true stands for io.EOF.
abbrev collect :
    (Rows → Conn → List (List Value) × Bool)
    → Paged (Option (List Value))
    → List (List Value) × Bool
collect more (inl e, r, c) = ([], false)
collect more (inr none, r, c) = ([], true)
collect more (inr (some row), r, c) = let (rows, end) = more r c in (row ∷ rows, end)

module _ (exchange : List Result → Result → Reply) where
  unfoldable pub drain : ℕ → Rows → Conn → List (List Value) × Bool
  drain zero r c = ([], false)
  drain (suc n) r c = collect (drain n) (next_row exchange r c)

module _ (exchange : List Result → Result → Reply) where
  -- A result set of which k rows have been read, whose block holds the next rows: reading to the end
  -- gives the others, each of them once and in order, and ends with io.EOF, within one call of
  -- Next more than there are rows left.
  pub drain_lem :
      (m : Option Metadata) (id : ℤ) (all block rest left behind : List (List Value)) (p k : ℕ)
      (more : List Result) (c : Conn)
      → Serves exchange id all
      → length all < 2 ^ 31
      → (c.closed || c.broken) ≡ false
      → drop p block ≡ left
      → left ++ behind ≡ rest
      → drop k all ≡ rest
      → drain exchange (suc (length rest)) (rows_at m id (length all) block p k more) c
        ≡ (rest, true)
  unfolding drain request_data
  drain_lem m id all block [] [] behind p k more c serves fits valid e f g =
      ap (collect (drain exchange 0)) (
        next_row_end exchange m id (length all) block p k more c (drop_none p block e)
          (drop_none k all g))
  drain_lem m id all block [] (y ∷ left) behind p k more c serves fits valid e f g =
      absurd (ground arith)
  drain_lem m id all block (x ∷ rest) [] behind p k more c serves fits valid e f g =
      let (head, lt, tail) = drop_some k all [] x rest g in
      let b =
        serves c.requests (request_data (rows_at m id (length all) block p k more) c) k refl refl
          refl lt in
      let d = requested (request_data (rows_at m id (length all) block p k more) c) c in
      let (n, stepped) =
        next_row_fetch exchange m id all block p k more c (drop_none p block e) lt fits valid b in
      let part = b.is_part ∙ g in
      ap (collect (drain exchange (suc (length rest)))) stepped
      ∙ (ap (λ q. (b.first ∷ q.0, q.1))
            (drain_lem n id all (b.first ∷ b.others) rest b.others b.remaining 1 (suc k) more d
              serves fits valid refl (ap (drop 1) part) tail)
          ∙ ap (λ y. (y ∷ rest, true)) (ap (λ l. get_or l 0 []) part))
  drain_lem m id all block (x ∷ rest) (y ∷ left) behind p k more c serves fits valid e f g =
      let (head, lt, tail) = drop_some k all [] x rest g in
      let (row, inside, others) = drop_some p block [] y left e in
      ap (collect (drain exchange (suc (length rest))))
        (next_row_inside exchange m id (length all) block p k more c y inside row (omega arith))
      ∙ (ap (λ q. (y ∷ q.0, q.1))
            (drain_lem m id all block rest left behind (suc p) (suc k) more c serves fits valid
              others (ap (drop 1) f) tail)
          ∙ ap (λ z. (z ∷ rest, true)) (ap (λ l. get_or l 0 []) f))

  -- Where the first block is the front of a result whose other rows the server keeps, of less than
  -- 2^31 rows, and the connection is valid, calling Next until io.EOF gives all of the rows, each
  -- once and in order, and io.EOF comes within one call more than there are rows.
  pub drain-new_rows :
      (res : Response) (m : Metadata) (rs : RowSet) (all behind : List (List Value)) (c : Conn)
      → res.main.meta ≡ some m
      → res.main.row_set ≡ some rs
      → rs.size ≡ pos (length all)
      → rs.rows ++ behind ≡ all
      → Serves exchange rs.id all
      → length all < 2 ^ 31
      → (c.closed || c.broken) ≡ false
      → drain exchange (suc (length all)) (new_rows res) c ≡ (all, true)
  unfolding new_rows load_result
  drain-new_rows res m rs all behind c hm hr hs front serves fits valid =
      rw (hm, hr, hs)
        (drain_lem (some m) rs.id all rs.rows all rs.rows behind 0 0 (rows_results res.chained) c
          serves fits valid refl front refl)
