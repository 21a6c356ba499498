-- ===== src/Compile/Array.antt =====
-- crates/runtime/src/compile.rs: predicates on array columns.
pub mod Numbering
use ruprizzle_orm.Base.{Bool, true, false, List, [], ◌∷◌, Option, none, some, Text, str}
use ruprizzle_orm.Dialect.{Dialect, postgres, sqlite, mysql}
use ruprizzle_orm.Compile.Value.{Foreign, Value, values}
use ruprizzle_orm.Compile.Filter.{ArrayFilterOp}
use ruprizzle_orm.Compile.State.{Step, ◌⨾◌, skip, push_str, push_bind, push_column, separated}

module _ {F : Foreign} where
  -- `JSON_ARRAY(?, ?, …)`
  unfoldable pub push_json_array : Dialect → List (Value F) → Step F
  push_json_array d vs =
      push_str (str "JSON_ARRAY(") ⨾ separated (str ", ") (push_bind d) vs ⨾ push_str (str ")")

  -- `values.first().cloned().unwrap_or(Value::Null)`
  unfoldable pub first_or_null : List (Value F) → Value F
  first_or_null [] = Value.null
  first_or_null (v ∷ vs) = v

module _ {F : Foreign} (table column : Text) where
  unfoldable pub array_op_postgres : ArrayFilterOp → List (Value F) → Step F
  array_op_postgres ArrayFilterOp.has vs =
      push_bind postgres (first_or_null vs)
      ⨾ push_str (str " = ANY(")
      ⨾ push_column postgres table column
      ⨾ push_str (str ")")
  array_op_postgres ArrayFilterOp.contains vs =
      push_column postgres table column
      ⨾ push_str (str " @> ")
      ⨾ push_bind postgres (Value.array (values vs))
  array_op_postgres ArrayFilterOp.contained_by vs =
      push_column postgres table column
      ⨾ push_str (str " <@ ")
      ⨾ push_bind postgres (Value.array (values vs))
  array_op_postgres ArrayFilterOp.overlaps vs =
      push_column postgres table column
      ⨾ push_str (str " && ")
      ⨾ push_bind postgres (Value.array (values vs))
  array_op_postgres ArrayFilterOp.is_empty vs =
      push_str (str "(cardinality(")
      ⨾ push_column postgres table column
      ⨾ push_str (str ") IS NULL OR cardinality(")
      ⨾ push_column postgres table column
      ⨾ push_str (str ") = 0)")
  array_op_postgres ArrayFilterOp.is_not_empty vs =
      push_str (str "cardinality(") ⨾ push_column postgres table column ⨾ push_str (str ") > 0")

  unfoldable pub mysql_candidate : List (Value F) → Step F
  mysql_candidate [] = push_str (str "JSON_ARRAY()")
  mysql_candidate (v ∷ vs) = push_json_array mysql (v ∷ [])

  unfoldable pub array_op_mysql : ArrayFilterOp → List (Value F) → Step F
  array_op_mysql ArrayFilterOp.has vs =
      push_str (str "JSON_CONTAINS(")
      ⨾ push_column mysql table column
      ⨾ push_str (str ", ")
      ⨾ mysql_candidate vs
      ⨾ push_str (str ", '$')")
  array_op_mysql ArrayFilterOp.contains vs =
      push_str (str "JSON_CONTAINS(")
      ⨾ push_column mysql table column
      ⨾ push_str (str ", ")
      ⨾ push_json_array mysql vs
      ⨾ push_str (str ", '$')")
  array_op_mysql ArrayFilterOp.contained_by vs =
      push_str (str "JSON_CONTAINS(")
      ⨾ push_json_array mysql vs
      ⨾ push_str (str ", ")
      ⨾ push_column mysql table column
      ⨾ push_str (str ", '$')")
  array_op_mysql ArrayFilterOp.overlaps vs =
      push_str (str "JSON_OVERLAPS(")
      ⨾ push_column mysql table column
      ⨾ push_str (str ", ")
      ⨾ push_json_array mysql vs
      ⨾ push_str (str ")")
  array_op_mysql ArrayFilterOp.is_empty vs =
      push_str (str "(JSON_LENGTH(")
      ⨾ push_column mysql table column
      ⨾ push_str (str ") IS NULL OR JSON_LENGTH(")
      ⨾ push_column mysql table column
      ⨾ push_str (str ") = 0)")
  array_op_mysql ArrayFilterOp.is_not_empty vs =
      push_str (str "JSON_LENGTH(") ⨾ push_column mysql table column ⨾ push_str (str ") > 0")

  unfoldable pub each_exists : Value F → Step F
  each_exists v =
      push_str (str "EXISTS (SELECT 1 FROM json_each(")
      ⨾ push_column sqlite table column
      ⨾ push_str (str ") WHERE json_each.value = ")
      ⨾ push_bind sqlite v
      ⨾ push_str (str ")")

  unfoldable pub array_op_sqlite : ArrayFilterOp → List (Value F) → Step F
  array_op_sqlite ArrayFilterOp.has vs = each_exists (first_or_null vs)
  array_op_sqlite ArrayFilterOp.contains [] = push_str (str "1")
  array_op_sqlite ArrayFilterOp.contains (v ∷ vs) = separated (str " AND ") each_exists (v ∷ vs)
  array_op_sqlite ArrayFilterOp.contained_by [] =
      push_str (str "(json_array_length(")
      ⨾ push_column sqlite table column
      ⨾ push_str (str ") = 0)")
  array_op_sqlite ArrayFilterOp.contained_by (v ∷ vs) =
      push_str (str "NOT EXISTS (SELECT 1 FROM json_each(")
      ⨾ push_column sqlite table column
      ⨾ push_str (str ") WHERE json_each.value NOT IN (")
      ⨾ separated (str ", ") (push_bind sqlite) (v ∷ vs)
      ⨾ push_str (str "))")
  array_op_sqlite ArrayFilterOp.overlaps [] = push_str (str "0")
  array_op_sqlite ArrayFilterOp.overlaps (v ∷ vs) =
      push_str (str "EXISTS (SELECT 1 FROM json_each(")
      ⨾ push_column sqlite table column
      ⨾ push_str (str ") WHERE json_each.value IN (")
      ⨾ separated (str ", ") (push_bind sqlite) (v ∷ vs)
      ⨾ push_str (str "))")
  array_op_sqlite ArrayFilterOp.is_empty vs =
      push_str (str "(json_array_length(")
      ⨾ push_column sqlite table column
      ⨾ push_str (str ") IS NULL OR json_array_length(")
      ⨾ push_column sqlite table column
      ⨾ push_str (str ") = 0)")
  array_op_sqlite ArrayFilterOp.is_not_empty vs =
      push_str (str "json_array_length(") ⨾ push_column sqlite table column ⨾ push_str (str ") > 0")

  unfoldable pub push_array_op : Dialect → ArrayFilterOp → List (Value F) → Step F
  push_array_op postgres op vs = array_op_postgres op vs
  push_array_op mysql op vs = array_op_mysql op vs
  push_array_op sqlite op vs = array_op_sqlite op vs
