-- ===== src/Conn/Info.antt =====
-- sessionattr.go: the session attributes that the server reports.
use go_hsql.Base.{
  ℕ, inl, inr, Bool, false, Option, none, some, List, [], ◌∷◌, ltb, if◌then◌else◌, length, get_or,
}
use go_hsql.Base.Int.{ℤ, eqb_ℤ}
use go_hsql.Base.Words.{to_word, wrap}
use go_hsql.Proto.Const.{
  mode_get_session_attr, attr_isolation, attr_autocommit, attr_connection_readonly, attr_catalog,
  attr_timezone, tx_read_uncommitted, tx_read_committed, tx_repeatable_read, tx_serializable,
}
use go_hsql.Proto.Utf8.{Text}
use go_hsql.Proto.Types.Value.{Value, null, int64, bool, string}
use go_hsql.Proto.Result.{Result, Response, RowSet, new_result}
use go_hsql.Conn.{
  Reply, unexpected_mode, Context, Action, Returned, pure, ◌>>=◌, if_valid, exec_ctx,
}

-- sql.IsolationLevel, as far as isolationFromWire gives it.
pub data IsolationLevel : Type 0 where
  level_default level_read_uncommitted level_read_committed level_repeatable_read
        level_serializable :
      IsolationLevel

pub record SessionInfo : Type 0 where
  pub isolation : IsolationLevel
  pub autocommit : Bool
  pub read_only : Bool
  pub catalog : Text
  pub time_zone : Text

abbrev attr_pos_integer : ℕ
attr_pos_integer = 1

abbrev attr_pos_boolean : ℕ
attr_pos_boolean = 2

abbrev attr_pos_varchar : ℕ
attr_pos_varchar = 3

unfoldable pub isolation_from_wire : ℤ → IsolationLevel
isolation_from_wire v =
    if eqb_ℤ v tx_read_uncommitted
    then level_read_uncommitted
    else if eqb_ℤ v tx_read_committed
    then level_read_committed
    else if eqb_ℤ v tx_repeatable_read
    then level_repeatable_read
    else if eqb_ℤ v tx_serializable
    then level_serializable
    else level_default

-- The first row, if it has more than three cells.
unfoldable pub attribute_row : Option RowSet → Option (List Value)
attribute_row none = none
attribute_row (some rs) = first_long rs.rows
  where
    first_long : List (List Value) → Option (List Value)
    first_long [] = none
    first_long (row ∷ rows) = if ltb attr_pos_varchar (length row) then some row else none

-- row[i].(T), which is the zero value for a cell of another type.
unfoldable pub isolation_cell : Value → IsolationLevel
unfolding isolation_from_wire
isolation_cell (int64 n) = isolation_from_wire (wrap 32 n)
isolation_cell v = level_default

unfoldable pub bool_cell : Value → Bool
bool_cell (bool b) = b
bool_cell v = false

unfoldable pub text_cell : Value → Text
text_cell (string s) = s
text_cell v = []

unfoldable pub attr_answer : Returned Response → Returned (List Value)
unfolding attribute_row
attr_answer (inl e, c) = (inl e, c)
attr_answer (inr res, c) = elim (attribute_row res.main.row_set) [
  | none ↦ (inl (unexpected_mode res.main.mode), c)
  | some row ↦ (inr row, c)
]

module _ (exchange : List Result → Result → Reply) where
  -- byte(attrID).
  unfoldable pub session_attr_row : Context → ℤ → Action (List Value)
  unfolding attr_answer
  session_attr_row ctx attr_id = if_valid (λ c. attr_answer (
      exec_ctx exchange ctx
        (record (new_result mode_get_session_attr) { statement_return_type = to_word 8 attr_id })
        c))

  unfoldable pub session_info : Context → Action SessionInfo
  unfolding isolation_cell bool_cell text_cell
  session_info ctx = session_attr_row ctx attr_isolation >>= λ iso.
      session_attr_row ctx attr_autocommit >>= λ ac.
      session_attr_row ctx attr_connection_readonly >>= λ ro.
      session_attr_row ctx attr_catalog >>= λ cat. session_attr_row ctx attr_timezone >>= λ tz.
      pure (record {
        isolation = isolation_cell (get_or iso attr_pos_integer null);
        autocommit = bool_cell (get_or ac attr_pos_boolean null);
        read_only = bool_cell (get_or ro attr_pos_boolean null);
        catalog = text_cell (get_or cat attr_pos_varchar null);
        time_zone = text_cell (get_or tz attr_pos_varchar null);
      })
