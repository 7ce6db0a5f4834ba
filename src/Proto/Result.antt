-- ===== src/Proto/Result.antt =====
-- internal/proto/result.go: Result and RowSet, NewResult and GeneratedKey. A Result that the
-- connection layer has drained carries the chained ones in a Response.
pub mod Encode
pub mod Decode
pub mod SessionAttr
pub mod RoundTrip
use go_hsql.Base.{ℕ, Option, none, some, List, [], ◌∷◌, ◌==◌, if◌then◌else◌}
use go_hsql.Base.Int.{ℤ, pos}
use go_hsql.Proto.Const.{mode_generated}
use go_hsql.Proto.Utf8.{Text}
use go_hsql.Proto.Types.Value.{Value, int64}
use go_hsql.Proto.Metadata.{Metadata}

pub record RowSet : Type 0 where
  pub id : ℤ
  pub size : ℤ
  pub current_offset : ℤ
  pub rows : List (List Value)

pub record Result : Type 0 where
  pub mode : ℕ
  pub database_name : Text
  pub user : Text
  pub password : Text
  pub zone_string : Text
  pub time_zone_seconds : ℤ
  pub database_id : ℤ
  pub session_id : ℤ
  pub random_id : ℤ
  pub client_props : Text
  pub message : Text
  pub sql_state : Text
  pub error_code : ℤ
  pub sql : Text
  pub statement_id : ℤ
  pub statement_return_type : ℕ
  pub rs_properties : ℕ
  pub generate_keys : ℕ
  pub query_timeout : ℤ
  pub fetch_size : ℤ
  pub update_count : ℤ
  pub id : ℤ
  pub tx_type : ℤ
  pub savepoint_name : Text
  pub connect_attr : ℤ
  pub action_type : ℤ
  pub meta : Option Metadata
  pub param_meta : Option Metadata
  pub row_set : Option RowSet
  pub param_values : List Value
  pub batch_rows : List (List Value)

-- &RowSet{}.
abbrev pub empty_row_set : RowSet
empty_row_set = record { id = pos 0; size = pos 0; current_offset = pos 0; rows = [] }

-- &Result{Mode: mode}.
abbrev pub new_result : ℕ → Result
new_result mode = record {
  mode = mode;
  database_name = [];
  user = [];
  password = [];
  zone_string = [];
  time_zone_seconds = pos 0;
  database_id = pos 0;
  session_id = pos 0;
  random_id = pos 0;
  client_props = [];
  message = [];
  sql_state = [];
  error_code = pos 0;
  sql = [];
  statement_id = pos 0;
  statement_return_type = 0;
  rs_properties = 0;
  generate_keys = 0;
  query_timeout = pos 0;
  fetch_size = pos 0;
  update_count = pos 0;
  id = pos 0;
  tx_type = pos 0;
  savepoint_name = [];
  connect_attr = pos 0;
  action_type = pos 0;
  meta = none;
  param_meta = none;
  row_set = none;
  param_values = [];
  batch_rows = [];
}

-- A response: the main Result and its field Chained.
pub record Response : Type 0 where
  pub main : Result
  pub chained : List Result

-- The key in the first cell of a row set, where that cell is an int64.
unfoldable pub first_key : List (List Value) → Option ℤ
first_key ((int64 n ∷ row) ∷ rows) = some n
first_key rows = none

-- A chained result's key: it is of mode GENERATED, and its first row starts with an int64.
unfoldable pub key_of : Result → Option ℤ
unfolding first_key
key_of r = elim r.row_set [
  | none ↦ none
  | some rs ↦ if r.mode == mode_generated then first_key rs.rows else none
]

-- The loop of GeneratedKey: a result without a key is passed over.
unfoldable pub generated_key : List Result → Option ℤ
generated_key [] = none
generated_key (r ∷ rs) = elim (key_of r) [ some n ↦ some n | none ↦ generated_key rs ]
