-- ===== src/Lob/Resolve.antt =====
-- rows.go resolveValue, and callable.go applyOutParams, which resolves the values of a CALL_RESPONSE.
pub mod Types
use go_hsql.Base.{
  ℕ, zero, suc, ◌⊎◌, inl, inr, Option, none, some, List, [], ◌∷◌, ◌==◌, if◌then◌else◌, length,
  get_elem?, take,
}
use go_hsql.Proto.Const.{mode_call_response}
use go_hsql.Proto.Types.Value.{Value, Values, nil, cons, string, array_value, lob_ref}
use go_hsql.Proto.Result.{Result, RowSet}
use go_hsql.Conn.Cursor.{UpdatableRows, CursorError, current}
use go_hsql.Conn.Arrays.{ArrayHost, encode_array_text}
use go_hsql.Conn.Out.{
  OutDest, Out, OutError, OutHost, no_out_values, no_values, out_of_range, unresolved,
  assign_out_value,
}
use go_hsql.Lob.Fetch.{
  LobRequest, LobConn, LobAction, Fetched, fetched, lob_failed, lob_panicked, and_then, fetch_lob,
}
use go_hsql.Base.Words.{Bytes}

abbrev pub put_value : Value → LobAction Values → LobAction Values
put_value v rest c = and_then (λ vs d. (fetched (cons v vs), d)) (rest c)

module _ (server : List LobRequest → LobRequest → Option Bytes) where
  -- The elements of an ARRAY with the LOBs among them fetched, in order.
  unfoldable pub resolve_elements : Values → LobAction Values
  unfolding and_then
  resolve_elements nil c = (fetched nil, c)
  resolve_elements (cons (lob_ref id is_clob) vs) c =
      and_then (λ v. put_value v (resolve_elements vs)) (fetch_lob server id is_clob c)
  resolve_elements (cons v vs) c = put_value v (resolve_elements vs) c

  unfoldable pub resolve_value : ArrayHost → Value → LobAction Value
  unfolding resolve_elements and_then
  resolve_value host (lob_ref id is_clob) c = fetch_lob server id is_clob c
  resolve_value host (array_value vs elem_code) c =
      and_then (λ ws d. (fetched (string (encode_array_text host ws)), d)) (resolve_elements vs c)
  resolve_value host v c = (fetched v, c)

-- The destinations that were assigned, by position, and the error that ended the loop, if one did.
abbrev pub Applied : Type 0
Applied = List (ℕ × Value) × Option OutError × LobConn

unfoldable pub put_assigned : ℕ → Value → Applied → Applied
put_assigned i v (assigned, e, c) = ((i, v) ∷ assigned, e, c)

-- What follows the assignment to the destination at a position.
unfoldable pub after_assign : ℕ → OutError ⊎ Value → (LobConn → Applied) → LobConn → Applied
unfolding put_assigned
after_assign i (inl e) rest c = ([], some e, c)
after_assign i (inr v) rest c = put_assigned i v (rest c)

unfoldable pub after_resolve :
    OutHost → ℕ → OutDest → (LobConn → Applied) → Fetched Value × LobConn → Applied
unfolding after_assign
after_resolve host i dest rest (fetched v, c) = after_assign i (assign_out_value host dest v) rest c
after_resolve host i dest rest (lob_failed e, c) = ([], some unresolved, c)
after_resolve host i dest rest (lob_panicked, c) = ([], some unresolved, c)

module _ (server : List LobRequest → LobRequest → Option Bytes) (arrays : ArrayHost)
    (host : OutHost) where
  -- The loop over the destinations, in the order in which the map is ranged over.
  unfoldable pub apply_outs : List Value → List (ℕ × Out) → LobConn → Applied
  unfolding after_resolve resolve_value
  apply_outs row [] c = ([], none, c)
  apply_outs row ((i, o) ∷ outs) c = elim (get_elem? row i) [
    | none ↦ ([], some (out_of_range i), c)
    | some v ↦ after_resolve host i o.dest (apply_outs row outs) (resolve_value server arrays v c)
  ]

  unfoldable pub apply_row : Option RowSet → List (ℕ × Out) → LobConn → Applied
  unfolding apply_outs
  apply_row none outs c = ([], some no_values, c)
  apply_row (some rs) outs c = first_row rs.rows
    where
      first_row : List (List Value) → Applied
      first_row [] = ([], some no_values, c)
      first_row (row ∷ rows) = apply_outs row outs c

  -- applyOutParams of a response that is not nil.
  unfoldable pub apply_out_params : Result → List (ℕ × Out) → LobConn → Applied
  unfolding apply_row
  apply_out_params res [] c = ([], none, c)
  apply_out_params res (o ∷ outs) c =
      if res.mode == mode_call_response
      then apply_row res.row_set (o ∷ outs) c
      else ([], some (no_out_values res.mode), c)

module _ (server : List LobRequest → LobRequest → Option Bytes) (arrays : ArrayHost) where
  -- The cells that Next copies to dest, in order: n is the smaller of the lengths of dest and of the
  -- columns, and a row has a cell for each.
  unfoldable pub copy_cells : ℕ → List Value → LobAction (List Value)
  unfolding and_then resolve_value
  copy_cells zero row c = (fetched [], c)
  copy_cells (suc n) [] c = (lob_panicked, c)
  copy_cells (suc n) (v ∷ row) c =
      and_then (λ w d. and_then (λ ws e. (fetched (w ∷ ws), e)) (copy_cells n row d))
        (resolve_value server arrays v c)

module _ (server : List LobRequest → LobRequest → Option Bytes) (arrays : ArrayHost)
    (host : OutHost) where
  -- The loop of UpdatableRows.Scan from column i on. A row that is too short for its columns panics,
  -- for which unresolved stands too.
  unfoldable pub scan_cells : ℕ → List OutDest → List Value → LobConn → Applied
  unfolding after_resolve resolve_value
  scan_cells i [] row c = ([], none, c)
  scan_cells i (dest ∷ dests) [] c = ([], some unresolved, c)
  scan_cells i (dest ∷ dests) (v ∷ row) c =
      after_resolve host i dest (scan_cells (suc i) dests row) (resolve_value server arrays v c)

  unfoldable pub scan_current :
      UpdatableRows
      → List OutDest
      → CursorError ⊎ (ℕ × List Value)
      → LobConn
      → CursorError ⊎ Applied
  unfolding scan_cells
  scan_current u dests (inl e) c = inl e
  scan_current u dests (inr (i, row)) c =
      inr (scan_cells 0 (take (length u.meta.columns) dests) row c)

  -- Scan of the current row.
  unfoldable pub scan_row : UpdatableRows → List OutDest → LobConn → CursorError ⊎ Applied
  unfolding scan_current current
  scan_row u dests c = scan_current u dests (current u) c
