-- ===== src/Conn/Cursor/Properties.antt =====
-- updatable.go: the client-side copy keeps one server number for each row.
use go_hsql.Base.{
  ℕ, zero, suc, ◌-◌, ◌≤◌, ◌<◌, ◌≡◌, refl, sym, ap, ◌∙◌, ◌⊎◌, inl, inr, Bool, true, false, ◌||◌,
  Option, none, some, List, [], ◌∷◌, arith, leb, Bool-cases, length, get_elem?,
}
use go_hsql.Base.Int.{ℤ, eqb_ℤ}
use go_hsql.Proto.Utf8.{Text}
use go_hsql.Proto.Types.Value.{Value}
use go_hsql.Proto.Metadata.{Metadata}
use go_hsql.Proto.Result.{RowSet, Result, Response}
use go_hsql.Conn.{Conn, Reply, Returned, Context}
use go_hsql.Conn.Cursor.{
  UpdatableRows, CursorError, Updates, number_from, new_updatable_rows, advance_row, row_at,
  current_at, current_if, current, remove, replace_row, merge_number, merge_rows,
  merge_updated_rows, updated, deleted, inserted, update_at, update_row_at, update_row,
  delete_row_at, delete_row, insert_at, insert_if, insert_row,
}

-- One server number for each row, and a position that is no further than the last row.
pub record IsCursor (u : UpdatableRows) : Type 0 where
  pub numbered : length u.server_nums ≡ length u.rows
  pub position : u.next_pos ≤ length u.rows

length-number_from : (start n : ℕ) → length (number_from start n) ≡ n
unfolding number_from
length-number_from start zero = refl
length-number_from start (suc n) = ap suc (length-number_from (suc start) n)

pub new_updatable_rows-IsCursor : (m : Metadata) (rs : RowSet) → IsCursor (new_updatable_rows m rs)
unfolding new_updatable_rows
new_updatable_rows-IsCursor m rs = record {
  numbered = length-number_from 0 (length rs.rows);
  position = omega arith;
}

pub advance_row-IsCursor : (u : UpdatableRows) → IsCursor u → IsCursor (advance_row u).1
unfolding advance_row
advance_row-IsCursor u h = elim (Bool-cases (u.closed || leb (length u.rows) u.next_pos)) [
  | inl t ↦ rw (t) h
  | inr f ↦ rw (f) (record { numbered = h.numbered; position = ground arith })
]

length-replace_row :
    (n : ℤ) (row : List Value) (nums : List ℤ) (rows : List (List Value))
    → length (replace_row n row nums rows) ≡ length rows
unfolding replace_row
length-replace_row n row [] rows = refl
length-replace_row n row (m ∷ nums) [] = refl
length-replace_row n row (m ∷ nums) (r ∷ rows) = elim (Bool-cases (eqb_ℤ m n)) [
  | inl t ↦ rw (t) refl
  | inr f ↦ rw (f) (ap suc (length-replace_row n row nums rows))
]

merge_number-IsCursor :
    (n : Option ℤ) (row : List Value) (u : UpdatableRows)
    → IsCursor u
    → IsCursor (merge_number n row u)
unfolding merge_number
merge_number-IsCursor none row u h = h
merge_number-IsCursor (some n) row u h = record {
  numbered = h.numbered ∙ sym (length-replace_row n row u.server_nums u.rows);
  position = omega (arith, h.position, length-replace_row n row u.server_nums u.rows);
}

merge_rows-IsCursor :
    (rows : List (List Value)) (u : UpdatableRows) → IsCursor u → IsCursor (merge_rows rows u)
unfolding merge_rows
merge_rows-IsCursor [] u h = h
merge_rows-IsCursor (row ∷ rows) u h = merge_rows-IsCursor rows _ (merge_number-IsCursor _ row u h)

merge_updated_rows-IsCursor :
    (rs : Option RowSet) (u : UpdatableRows) → IsCursor u → IsCursor (merge_updated_rows rs u)
unfolding merge_updated_rows
merge_updated_rows-IsCursor none u h = h
merge_updated_rows-IsCursor (some rs) u h = merge_rows-IsCursor rs.rows u h

length-remove :
    {A : Type 0} (i : ℕ) (xs : List A) → i < length xs → length (remove i xs) ≡ length xs - 1
unfolding remove
length-remove zero [] h = omega arith
length-remove zero (x ∷ xs) h = omega arith
length-remove (suc i) [] h = absurd (omega arith)
length-remove (suc i) (x ∷ xs) h = omega (arith, length-remove i xs (omega arith))

get_elem-lt : {A : Type 0} (xs : List A) (i : ℕ) (x : A) → get_elem? xs i ≡ some x → i < length xs
get_elem-lt [] i x h = ground arith
get_elem-lt (y ∷ xs) zero x h = omega arith
get_elem-lt (y ∷ xs) (suc i) x h = omega (arith, get_elem-lt xs i x h)

abbrev index_of : CursorError ⊎ (ℕ × List Value) → ℕ
index_of (inl e) = 0
index_of (inr p) = p.0

row_at_bound :
    (j : ℕ) (rows : List (List Value)) (o : Option (List Value)) (i : ℕ) (row : List Value)
    → get_elem? rows j ≡ o
    → row_at j o ≡ inr (i, row)
    → i < length rows
unfolding row_at
row_at_bound j rows none i row e h = ground arith
row_at_bound j rows (some r) i row e h = omega (arith, get_elem-lt rows j r e, ap index_of h)

current_if_bound :
    (closed : Bool) (p : ℕ) (rows : List (List Value)) (i : ℕ) (row : List Value)
    → current_if closed p rows ≡ inr (i, row)
    → i < length rows
unfolding current_if current_at
current_if_bound true p rows i row h = ground arith
current_if_bound false zero rows i row h = ground arith
current_if_bound false (suc j) rows i row h = row_at_bound j rows (get_elem? rows j) i row refl h

-- The row that is current stands in the copy.
current_bound :
    (u : UpdatableRows) (i : ℕ) (row : List Value) → current u ≡ inr (i, row) → i < length u.rows
unfolding current
current_bound u i row h = current_if_bound u.closed u.next_pos u.rows i row h

deleted-IsCursor :
    (u : UpdatableRows) (i : ℕ) (p : Returned Response)
    → i < length u.rows
    → IsCursor u
    → IsCursor (deleted u i p).1
unfolding deleted
deleted-IsCursor u i (inl e, c) b h = h
deleted-IsCursor u i (inr res, c) b h = record {
  numbered =
      length-remove i u.server_nums (omega (arith, h.numbered))
      ∙ (ap (λ n. n - 1) h.numbered ∙ sym (length-remove i u.rows b));
  position = omega (arith, length-remove i u.rows b);
}

updated-IsCursor :
    (u : UpdatableRows) (p : Returned Response) → IsCursor u → IsCursor (updated u p).1
unfolding updated
updated-IsCursor u (inl e, c) h = h
updated-IsCursor u (inr res, c) h = merge_updated_rows-IsCursor res.main.row_set u h

inserted-IsCursor :
    (u : UpdatableRows) (p : Returned Response) → IsCursor u → IsCursor (inserted u p).1
unfolding inserted
inserted-IsCursor u (inl e, c) h = h
inserted-IsCursor u (inr res, c) h = h

module _ (equal_fold : Text → Text → Bool) (exchange : List Result → Result → Reply) where
  delete_at-IsCursor :
      (ctx : Context) (p : CursorError ⊎ (ℕ × List Value)) (u : UpdatableRows) (c : Conn)
      → ((i : ℕ) (row : List Value) → p ≡ inr (i, row) → i < length u.rows)
      → IsCursor u
      → IsCursor (delete_row_at equal_fold exchange ctx p u c).1
  unfolding delete_row_at
  delete_at-IsCursor ctx (inl e) u c b h = h
  delete_at-IsCursor ctx (inr (i, row)) u c b h = deleted-IsCursor u i _ (b i row refl) h

  update_at-IsCursor :
      (ctx : Context) (s : CursorError ⊎ (List Value × List Bool)) (i : ℕ) (row : List Value)
      (u : UpdatableRows) (c : Conn)
      → IsCursor u
      → IsCursor (update_at equal_fold exchange ctx s i row u c).1
  unfolding update_at
  update_at-IsCursor ctx (inl e) i row u c h = h
  update_at-IsCursor ctx (inr (values, marked)) i row u c h = updated-IsCursor u _ h

  update_row_at-IsCursor :
      (ctx : Context) (updates : Updates) (p : CursorError ⊎ (ℕ × List Value)) (u : UpdatableRows)
      (c : Conn)
      → IsCursor u
      → IsCursor (update_row_at equal_fold exchange ctx updates p u c).1
  unfolding update_row_at
  update_row_at-IsCursor ctx updates (inl e) u c h = h
  update_row_at-IsCursor ctx [] (inr (i, row)) u c h = h
  update_row_at-IsCursor ctx (x ∷ updates) (inr (i, row)) u c h =
      update_at-IsCursor ctx _ i row u c h

  insert_at-IsCursor :
      (ctx : Context) (s : CursorError ⊎ (List Value × List Bool)) (u : UpdatableRows) (c : Conn)
      → IsCursor u
      → IsCursor (insert_at equal_fold exchange ctx s u c).1
  unfolding insert_at
  insert_at-IsCursor ctx (inl e) u c h = h
  insert_at-IsCursor ctx (inr (row, marked)) u c h = inserted-IsCursor u _ h

  insert_if-IsCursor :
      (closed : Bool) (ctx : Context) (values : Updates) (u : UpdatableRows) (c : Conn)
      → IsCursor u
      → IsCursor (insert_if equal_fold exchange closed ctx values u c).1
  unfolding insert_if
  insert_if-IsCursor true ctx values u c h = h
  insert_if-IsCursor false ctx values u c h = insert_at-IsCursor ctx _ u c h

  -- UpdateRow, DeleteRow and InsertRow keep one server number for each row and the position inside
  -- the copy, whatever the server answers and whether they succeed or fail.
  pub changes-IsCursor :
      (ctx : Context) (updates : Updates) (u : UpdatableRows) (c : Conn)
      → IsCursor u
      → IsCursor (update_row equal_fold exchange ctx updates u c).1
        × IsCursor (delete_row equal_fold exchange ctx u c).1
        × IsCursor (insert_row equal_fold exchange ctx updates u c).1
  unfolding update_row delete_row insert_row
  changes-IsCursor ctx updates u c h = (
    update_row_at-IsCursor ctx updates (current u) u c h,
    delete_at-IsCursor ctx (current u) u c (current_bound u) h,
    insert_if-IsCursor u.closed ctx updates u c h,
  )
