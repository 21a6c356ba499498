-- ===== src/Compile/JsonPredicate.antt =====
-- crates/runtime/src/compile.rs: JSON extraction, comparison, containment and key existence.
pub mod Numbering
use ruprizzle_orm.Base.{
  Bool, true, false, List, [], ◌∷◌, Option, none, some, Text, str, to_string, if◌then◌else◌,
}
use ruprizzle_orm.Dialect.{Dialect, postgres, sqlite, mysql}
use ruprizzle_orm.Compile.Value.{Foreign, ℤ, Value, JsonView}
use ruprizzle_orm.Compile.Filter.{JsonPath, JsonPathSegment, key, index}
use ruprizzle_orm.Compile.State.{
  Step, ◌⨾◌, skip, push_str, push_quoted, push_bind, push_column, each_after, separated,
}
use ruprizzle_orm.Compile.Json.{
  push_json_array_key, push_json_path_key, push_json_string_literal, push_json_path_array,
  push_json_path_sqlite_mysql_with_key, push_json_path_sqlite_mysql,
}

module _ {F : Foreign} where
  -- A JSON number as a native value, or the document itself.
  unfoldable pub number_value : F.Json → Option ℤ → Option (F.F64) → Value F
  number_value v (some i) f = Value.i64 i
  number_value v none (some f) = Value.f64 f
  number_value v none none = Value.json v

  unfoldable pub sqlite_value : F.Json → JsonView (F.F64) → Value F
  unfolding number_value
  sqlite_value v JsonView.null = Value.null
  sqlite_value v (JsonView.bool b) = Value.bool b
  sqlite_value v (JsonView.number i f) = number_value v i f
  sqlite_value v (JsonView.string s) = Value.str s
  sqlite_value v JsonView.array = Value.json v
  sqlite_value v (JsonView.object keys) = Value.json v

  unfoldable pub mysql_value : F.Json → JsonView (F.F64) → Value F
  unfolding number_value
  mysql_value v (JsonView.string s) = Value.str s
  mysql_value v (JsonView.number i f) = number_value v i f
  mysql_value v _ = Value.json v

  unfoldable pub by_dialect : Dialect → Value F → Value F
  unfolding sqlite_value mysql_value
  by_dialect sqlite (Value.json v) = sqlite_value v (F.view v)
  by_dialect mysql (Value.json v) = mysql_value v (F.view v)
  by_dialect _ value = value

  unfoldable pub json_cmp_value : Dialect → Bool → Value F → Value F
  unfolding by_dialect
  json_cmp_value d text value = if text then value else by_dialect d value

  -- `if let Value::Json(Object(map)) = value`
  unfoldable pub object_keys : Value F → List Text
  object_keys (Value.json v) = elim (F.view v) [ JsonView.object keys ↦ keys | _ ↦ [] ]
  object_keys _ = []

  -- `if let Value::Str(k) = value`
  unfoldable pub text_key : Value F → Option Text
  text_key (Value.str k) = some k
  text_key _ = none

  unfoldable pub path_postgres : JsonPath → Bool → Step F
  path_postgres [] text = skip
  path_postgres (key k ∷ []) text =
      (if text then push_str (str "->>'") else push_str (str "->'"))
      ⨾ push_json_string_literal k
      ⨾ push_str (str "'")
  path_postgres (index i ∷ []) text =
      (if text
        then push_str (str "->>") ⨾ push_str (to_string i)
        else push_str (str "->") ⨾ push_str (to_string i))
  path_postgres (x ∷ y ∷ path) text =
      (if text then push_str (str "#>>") else push_str (str "#>"))
      ⨾ push_json_path_array (x ∷ y ∷ path)

module _ {F : Foreign} (table column : Text) where
  unfoldable pub push_json_expr_postgres : JsonPath → Bool → Step F
  push_json_expr_postgres path text = push_column postgres table column ⨾ path_postgres path text

  unfoldable pub push_json_expr_sqlite : JsonPath → Bool → Step F
  push_json_expr_sqlite [] text = push_column sqlite table column
  push_json_expr_sqlite path text =
      if text
      then push_column sqlite table column
        ⨾ push_str (str "->>'")
        ⨾ push_json_path_sqlite_mysql path
        ⨾ push_str (str "'")
      else push_str (str "json_extract(")
        ⨾ push_column sqlite table column
        ⨾ push_str (str ", '")
        ⨾ push_json_path_sqlite_mysql path
        ⨾ push_str (str "')")

  unfoldable pub push_json_expr_mysql : JsonPath → Bool → Step F
  push_json_expr_mysql [] text = push_column mysql table column
  push_json_expr_mysql path text =
      (if text then push_str (str "JSON_UNQUOTE(JSON_EXTRACT(") else push_str (str "JSON_EXTRACT("))
      ⨾ push_column mysql table column
      ⨾ push_str (str ", '")
      ⨾ push_json_path_sqlite_mysql path
      ⨾ push_str (str "'")
      ⨾ (if text then push_str (str "))") else push_str (str ")"))

  unfoldable pub push_json_expr : Dialect → JsonPath → Bool → Step F
  push_json_expr sqlite path text = push_json_expr_sqlite path text
  push_json_expr mysql path text = push_json_expr_mysql path text
  push_json_expr postgres path text = push_json_expr_postgres path text

  -- `json_type(column, 'path') IS NOT NULL`
  unfoldable pub type_is_not_null : JsonPath → Option Text → Step F
  type_is_not_null path extra =
      push_str (str "json_type(")
      ⨾ push_column sqlite table column
      ⨾ push_str (str ", '")
      ⨾ push_json_path_sqlite_mysql_with_key path extra
      ⨾ push_str (str "') IS NOT NULL")

  unfoldable pub contains_sqlite : JsonPath → List Text → Step F
  contains_sqlite path [] = type_is_not_null path none
  contains_sqlite path (k ∷ keys) =
      push_str (str "(")
      ⨾ separated (str " AND ") (λ k'. type_is_not_null path (some k')) (k ∷ keys)
      ⨾ push_str (str ")")

  unfoldable pub push_json_contains : Dialect → JsonPath → Value F → Step F
  push_json_contains postgres path value =
      push_json_expr postgres path false
      ⨾ push_str (str " @> ")
      ⨾ push_bind postgres value
      ⨾ push_str (str "::jsonb")
  push_json_contains mysql path value =
      push_str (str "JSON_CONTAINS(")
      ⨾ push_column mysql table column
      ⨾ push_str (str ", ")
      ⨾ push_bind mysql value
      ⨾ push_str (str ", '")
      ⨾ push_json_path_sqlite_mysql path
      ⨾ push_str (str "')")
  push_json_contains sqlite path value = contains_sqlite path (object_keys value)

  unfoldable pub push_json_has_key : Dialect → JsonPath → Value F → Step F
  push_json_has_key postgres path value =
      push_json_expr postgres [] false ⨾ push_str (str " ? ") ⨾ push_bind postgres value
  push_json_has_key mysql path value =
      push_str (str "JSON_CONTAINS_PATH(")
      ⨾ push_column mysql table column
      ⨾ push_str (str ", 'one', '")
      ⨾ push_json_path_sqlite_mysql_with_key path (text_key value)
      ⨾ push_str (str "')")
  push_json_has_key sqlite path value = type_is_not_null path (text_key value)
