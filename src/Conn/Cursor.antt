-- ===== src/Conn/Cursor.antt =====
-- updatable.go: the client-side copy of an updatable result set, and how the cursor's operations
-- change it.
pub mod Properties
pub mod Query
use go_hsql.Base.{
  ℕ, zero, suc, ◌+◌, ◌⊎◌, inl, inr, Bool, true, false, ◌||◌, Option, none, some, List, [], ◌∷◌,
  ◌++◌, ltb, leb, if◌then◌else◌, length, get_elem?, set, get_or, take, drop, replicate,
}
use go_hsql.Base.Words.{wrap}
use go_hsql.Base.Int.{ℤ, pos, pos_part, eqb_ℤ}
use go_hsql.Proto.Const.{
  mode_update_result, action_update_cursor, action_delete_cursor, action_insert_cursor,
  sys_offset_row_id, sys_offset_row_num, sql_all_types,
}
use go_hsql.Proto.Utf8.{Text}
use go_hsql.Proto.Types.Kind.{ColumnType, simple_type}
use go_hsql.Proto.Types.Value.{Value, null, int64}
use go_hsql.Proto.Metadata.{Column, Metadata, empty_metadata, meta_update_result}
use go_hsql.Proto.Result.{RowSet, Result, Response, new_result}
use go_hsql.Conn.{Conn, Reply, ConnError, Returned, Context, exec_ctx}

-- The fields of UpdatableRows that its operations read or change; `pos + 1` stands for pos.
pub record UpdatableRows : Type 0 where
  pub meta : Metadata
  pub result_id : ℤ
  pub rows : List (List Value)
  pub server_nums : List ℤ
  pub next_pos : ℕ
  pub closed : Bool

pub data CursorError : Type 0 where
  rows_closed no_current_row : CursorError
  no_such_column : Text → CursorError
  conn_error : ConnError → CursorError

-- 0, 1, …, n - 1, from a start.
unfoldable pub number_from : ℕ → ℕ → List ℤ
number_from start zero = []
number_from start (suc n) = pos start ∷ number_from (suc start) n

-- The copy that QueryUpdatable returns for the rows of the response.
unfoldable pub new_updatable_rows : Metadata → RowSet → UpdatableRows
new_updatable_rows m rs = record {
  meta = m;
  result_id = rs.id;
  rows = rs.rows;
  server_nums = number_from 0 (length rs.rows);
  next_pos = 0;
  closed = false;
}

unfoldable pub len : UpdatableRows → ℕ
len u = length u.rows

-- Next.
unfoldable pub advance_row : UpdatableRows → Bool × UpdatableRows
advance_row u =
    if u.closed || leb (length u.rows) u.next_pos
    then (false, u)
    else (true, record u { next_pos = suc u.next_pos })

unfoldable pub row_at : ℕ → Option (List Value) → CursorError ⊎ (ℕ × List Value)
row_at i none = inl no_current_row
row_at i (some row) = inr (i, row)

-- The index of the row that Next selected, and the row.
unfoldable pub current_at : ℕ → List (List Value) → CursorError ⊎ (ℕ × List Value)
unfolding row_at
current_at zero rows = inl no_current_row
current_at (suc i) rows = row_at i (get_elem? rows i)

unfoldable pub current_if : Bool → ℕ → List (List Value) → CursorError ⊎ (ℕ × List Value)
current_if true p rows = inl rows_closed
current_if false p rows = current_at p rows

unfoldable pub current : UpdatableRows → CursorError ⊎ (ℕ × List Value)
unfolding current_if
current u = current_if u.closed u.next_pos u.rows

-- append(s[:i], s[i+1:]...).
unfoldable pub remove : {A : Type 0} → ℕ → List A → List A
remove i xs = take i xs ++ drop (suc i) xs

-- values[i] = v, where there is such a place.
unfoldable pub put : {A : Type 0} → ℕ → A → List A → List A
put i v values = if ltb i (length values) then set values i v else values

unfoldable pub fill_row_identity : UpdatableRows → ℕ → List Value → List Value → List Value
fill_row_identity u i row values =
    let visible = pos_part u.meta.column_count in
    let id = visible + sys_offset_row_id in
    let with_id = if ltb id (length row) then put id (get_or row id null) values else values in
    put (visible + sys_offset_row_num) (int64 (get_or u.server_nums i (pos 0))) with_id

-- The request of sendCursorAction.
unfoldable pub cursor_action : UpdatableRows → ℤ → List ColumnType → List Value → Result
cursor_action u action types values = record (new_result mode_update_result) {
  id = u.result_id;
  action_type = action;
  meta = some (record empty_metadata {
    meta_type = meta_update_result;
    column_count = wrap 32 (pos (length types));
    types = types;
  });
  batch_rows = values ∷ [];
}

-- The first row with the server's number takes the row that the server sent.
unfoldable pub replace_row : ℤ → List Value → List ℤ → List (List Value) → List (List Value)
replace_row n updated [] rows = rows
replace_row n updated (m ∷ nums) [] = []
replace_row n updated (m ∷ nums) (row ∷ rows) =
    let rest = replace_row n updated nums rows in if eqb_ℤ m n then updated ∷ rows else row ∷ rest

-- updated[numIdx].(int64).
unfoldable pub number_of : Option Value → Option ℤ
number_of (some (int64 n)) = some n
number_of v = none

unfoldable pub merge_number : Option ℤ → List Value → UpdatableRows → UpdatableRows
merge_number none row u = u
merge_number (some n) row u = record u { rows = replace_row n row u.server_nums u.rows }

-- The loop of mergeUpdatedRows.
unfoldable pub merge_rows : List (List Value) → UpdatableRows → UpdatableRows
merge_rows [] u = u
merge_rows (updated ∷ more) u = merge_rows more (
    merge_number (number_of (get_elem? updated (pos_part u.meta.column_count + sys_offset_row_num)))
      updated u)

unfoldable pub merge_updated_rows : Option RowSet → UpdatableRows → UpdatableRows
unfolding merge_rows
merge_updated_rows none u = u
merge_updated_rows (some rs) u = merge_rows rs.rows u

-- The names and values of an update, in the order in which the map is walked.
abbrev pub Updates : Type 0
Updates = List (Text × Value)

abbrev pub Changed : Type 0
Changed = (CursorError ⊎ Unit) × UpdatableRows × Conn

-- `types[i] = SQL_ALL_TYPES` for the visible columns that are not set.
unfoldable pub mask_types : List Bool → List ColumnType → List ColumnType
mask_types [] types = types
mask_types (b ∷ marked) [] = []
mask_types (b ∷ marked) (t ∷ types) =
    (if b then t else simple_type sql_all_types) ∷ mask_types marked types

-- The search of columnIndex from the column i on; `equal_fold` is strings.EqualFold.
unfoldable pub index_from : (Text → Text → Bool) → ℕ → List Column → Text → Option ℕ
index_from equal_fold i [] name = none
index_from equal_fold i (c ∷ cs) name =
    let rest = index_from equal_fold (suc i) cs name in
    if equal_fold c.label name || equal_fold c.name name then some i else rest

unfoldable pub column_index : (Text → Text → Bool) → UpdatableRows → Text → Option ℕ
unfolding index_from
column_index equal_fold u name = index_from equal_fold 0 u.meta.columns name

-- The loop over the updates: values[idx] = v, set[idx] = true. Of metadata that the protocol has,
-- both slices have room for every column.
unfoldable pub set_updates :
    (Text → Option ℕ) → Updates → List Value → List Bool → CursorError ⊎ (List Value × List Bool)
set_updates index [] values marked = inr (values, marked)
set_updates index ((name, v) ∷ more) values marked = elim (index name) [
  | none ↦ inl (no_such_column name)
  | some i ↦ set_updates index more (put i v values) (put i true marked)
]

abbrev nulls : UpdatableRows → List Value
nulls u = replicate (length u.meta.types) null

-- UpdateRow and DeleteRow behind the answer.
unfoldable pub updated : UpdatableRows → Returned Response → Changed
updated u (inl e, c) = (inl (conn_error e), u, c)
updated u (inr res, c) = (inr tt, merge_updated_rows res.main.row_set u, c)

unfoldable pub deleted : UpdatableRows → ℕ → Returned Response → Changed
deleted u i (inl e, c) = (inl (conn_error e), u, c)
deleted u i (inr res, c) = (
  inr tt,
  record u { rows = remove i u.rows; server_nums = remove i u.server_nums; next_pos = i },
  c,
)

unfoldable pub inserted : UpdatableRows → Returned Response → Changed
inserted u (inl e, c) = (inl (conn_error e), u, c)
inserted u (inr res, c) = (inr tt, u, c)

module _ (equal_fold : Text → Text → Bool) (exchange : List Result → Result → Reply) where
  unfoldable pub update_at :
      Context
      → (CursorError ⊎ (List Value × List Bool))
      → ℕ
      → List Value
      → UpdatableRows
      → Conn
      → Changed
  update_at ctx (inl e) i row u c = (inl e, u, c)
  update_at ctx (inr (values, marked)) i row u c = updated u (
      exec_ctx exchange ctx
        (cursor_action u action_update_cursor (mask_types marked u.meta.types)
          (fill_row_identity u i row values))
        c)

  unfoldable pub update_row_at :
      Context → Updates → (CursorError ⊎ (ℕ × List Value)) → UpdatableRows → Conn → Changed
  unfolding update_at
  update_row_at ctx updates (inl e) u c = (inl e, u, c)
  update_row_at ctx [] (inr (i, row)) u c = (inr tt, u, c)
  update_row_at ctx (x ∷ updates) (inr (i, row)) u c =
      update_at ctx
        (set_updates (column_index equal_fold u) (x ∷ updates) (nulls u)
          (replicate (pos_part u.meta.column_count) false))
        i row u c

  unfoldable pub update_row : Context → Updates → UpdatableRows → Conn → Changed
  unfolding update_row_at
  update_row ctx updates u c = update_row_at ctx updates (current u) u c

  unfoldable pub delete_row_at :
      Context → (CursorError ⊎ (ℕ × List Value)) → UpdatableRows → Conn → Changed
  delete_row_at ctx (inl e) u c = (inl e, u, c)
  delete_row_at ctx (inr (i, row)) u c = deleted u i (
      exec_ctx exchange ctx
        (cursor_action u action_delete_cursor u.meta.types (fill_row_identity u i row (nulls u))) c)

  unfoldable pub delete_row : Context → UpdatableRows → Conn → Changed
  unfolding delete_row_at
  delete_row ctx u c = delete_row_at ctx (current u) u c

  unfoldable pub insert_at :
      Context → (CursorError ⊎ (List Value × List Bool)) → UpdatableRows → Conn → Changed
  insert_at ctx (inl e) u c = (inl e, u, c)
  insert_at ctx (inr (row, marked)) u c =
      inserted u (exec_ctx exchange ctx (cursor_action u action_insert_cursor u.meta.types row) c)

  unfoldable pub insert_if : Bool → Context → Updates → UpdatableRows → Conn → Changed
  insert_if true ctx values u c = (inl rows_closed, u, c)
  insert_if false ctx values u c =
      insert_at ctx (set_updates (column_index equal_fold u) values (nulls u) []) u c

  unfoldable pub insert_row : Context → Updates → UpdatableRows → Conn → Changed
  unfolding insert_if
  insert_row ctx values u c = insert_if u.closed ctx values u c
