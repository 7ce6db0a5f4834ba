-- ===== src/Proto/Result/SessionAttr.antt =====
-- internal/proto/result.go SessionAttrMetadata and NewSessionAttrRequest.
use go_hsql.Base.{Bool, Option, none, some, List, [], ◌∷◌, map}
use go_hsql.Base.Int.{ℤ, pos}
use go_hsql.Proto.Const.{
  mode_set_session_attr, attr_pos_limit, sql_integer, sql_varchar, sql_boolean,
}
use go_hsql.Proto.Utf8.{Text}
use go_hsql.Proto.Types.Kind.{ColumnType, simple_type}
use go_hsql.Proto.Types.Value.{Value, null, int64, bool, string}
use go_hsql.Proto.Metadata.{Metadata, empty_metadata, meta_result}
use go_hsql.Proto.Metadata.Read.{column_of}
use go_hsql.Proto.Result.{Result, new_result}

abbrev pub session_attr_types : List ColumnType
session_attr_types =
    simple_type sql_integer
    ∷ simple_type sql_integer
    ∷ simple_type sql_boolean
    ∷ simple_type sql_varchar
    ∷ []

abbrev pub session_attr_metadata : Metadata
session_attr_metadata = record empty_metadata {
  meta_type = meta_result;
  column_count = pos attr_pos_limit;
  extended_count = pos attr_pos_limit;
  types = session_attr_types;
  columns = map (λ t. column_of t [] 0) session_attr_types;
}

-- A value that is given, or nil.
unfoldable pub given : {A : Type 0} → (A → Value) → Option A → Value
given f (some a) = f a
given f none = null

unfoldable pub new_session_attr_request : ℤ → Option ℤ → Option Bool → Option Text → Result
unfolding given
new_session_attr_request attr n b s = record (new_result mode_set_session_attr) {
  meta = some session_attr_metadata;
  batch_rows = (int64 attr ∷ given int64 n ∷ given bool b ∷ given string s ∷ []) ∷ [];
}
