-- ===== src/Compile/Write.antt =====
-- crates/runtime/src/compile.rs: the statements that write rows.
pub mod Numbering
pub mod Upsert
use ruprizzle_orm.Base.{
  ℕ, Bool, true, false, List, [], ◌∷◌, map, Option, none, some, Text, str, if◌then◌else◌,
}
use ruprizzle_orm.Dialect.{Dialect, postgres, sqlite, mysql, upsert_clause}
use ruprizzle_orm.Compile.Value.{Foreign, Value}
use ruprizzle_orm.Compile.Filter.{FilterNode, CompiledSql, JsonPath}
use ruprizzle_orm.Compile.State.{
  Step, ◌⨾◌, skip, new, finish, push_str, push_quoted, push_bind, separated,
}
use ruprizzle_orm.Compile.Json.{push_json_path_array, push_json_path_sqlite_mysql}
use ruprizzle_orm.Compile.Clauses.{push_where, push_returning}

-- A column and the value it is given.
pub record Assignment (F : Foreign) : Type 0 where
  pub column : Text
  pub value : Value F

-- A single `UPDATE` set clause.
pub data SetExpr (F : Foreign) : Type 0 where
  column : Text → Value F → SetExpr F
  json_set : Text → JsonPath → Value F → SetExpr F

module _ {F : Foreign} (d : Dialect) where
  unfoldable pub push_names : List (Assignment F) → Step F
  push_names values = separated (str ", ") (λ a. push_quoted d a.column) values

  unfoldable pub push_values : List (Assignment F) → Step F
  push_values values = separated (str ", ") (λ a. push_bind d a.value) values

  -- `INSERT INTO table (columns) VALUES `, behind its first words.
  unfoldable pub push_into : Text → List (Assignment F) → Step F
  push_into table values =
      push_quoted d table ⨾ push_str (str " (") ⨾ push_names values ⨾ push_str (str ") VALUES ")

  unfoldable pub push_row : List (Assignment F) → Step F
  push_row row = push_str (str "(") ⨾ push_values row ⨾ push_str (str ")")

  unfoldable pub insert_steps : Text → List (Assignment F) → List Text → Step F
  insert_steps table values returning =
      push_into table values ⨾ push_row values ⨾ push_returning d returning

  unfoldable pub insert : Text → List (Assignment F) → List Text → CompiledSql F
  insert table values returning =
      finish ((push_str (str "INSERT INTO ") ⨾ insert_steps table values returning) new)

  unfoldable pub insert_many_steps :
      Text → List (Assignment F) → List (List (Assignment F)) → List Text → Step F
  insert_many_steps table first rows returning =
      push_into table first ⨾ separated (str ", ") push_row rows ⨾ push_returning d returning

  unfoldable pub insert_many : Text → List (List (Assignment F)) → List Text → CompiledSql F
  insert_many table [] returning = finish new
  insert_many table (first ∷ rows) returning =
      finish (
        (push_str (str "INSERT INTO ") ⨾ insert_many_steps table first (first ∷ rows) returning)
          new)

  unfoldable pub upsert_steps :
      Text → List (Assignment F) → List Text → List Text → List Text → Step F
  upsert_steps table values conflict update returning =
      push_into table values
      ⨾ push_row values
      ⨾ push_str (str " ")
      ⨾ push_str (upsert_clause d conflict update)
      ⨾ push_returning d returning

  unfoldable pub upsert :
      Text → List (Assignment F) → List Text → List Text → List Text → CompiledSql F
  upsert table values conflict update returning =
      finish
        ((push_str (str "INSERT INTO ") ⨾ upsert_steps table values conflict update returning) new)

module _ {F : Foreign} where
  -- The dialect's JSON set function, behind the name of the column.
  unfoldable pub push_json_set : Dialect → Text → JsonPath → Value F → Step F
  push_json_set postgres col path value =
      push_str (str " = jsonb_set(")
      ⨾ push_quoted postgres col
      ⨾ push_str (str ", ")
      ⨾ push_json_path_array path
      ⨾ push_str (str "::text[], ")
      ⨾ push_bind postgres value
      ⨾ push_str (str "::jsonb)")
  push_json_set sqlite col path value =
      push_str (str " = json_set(")
      ⨾ push_quoted sqlite col
      ⨾ push_str (str ", '")
      ⨾ push_json_path_sqlite_mysql path
      ⨾ push_str (str "', ")
      ⨾ push_bind sqlite value
      ⨾ push_str (str ")")
  push_json_set mysql col path value =
      push_str (str " = JSON_SET(")
      ⨾ push_quoted mysql col
      ⨾ push_str (str ", '")
      ⨾ push_json_path_sqlite_mysql path
      ⨾ push_str (str "', ")
      ⨾ push_bind mysql value
      ⨾ push_str (str ")")

module _ {F : Foreign} (d : Dialect) where
  unfoldable pub push_set : SetExpr F → Step F
  push_set (SetExpr.column col value) = push_quoted d col ⨾ push_str (str " = ") ⨾ push_bind d value
  push_set (SetExpr.json_set col path value) = push_quoted d col ⨾ push_json_set d col path value

  unfoldable pub update_steps : Text → List (SetExpr F) → FilterNode F → List Text → Step F
  update_steps table sets filter returning =
      push_quoted d table
      ⨾ push_str (str " SET ")
      ⨾ separated (str ", ") push_set sets
      ⨾ push_where d (str " WHERE ") filter
      ⨾ push_returning d returning

  unfoldable pub update_with_sets :
      Text → List (SetExpr F) → FilterNode F → List Text → CompiledSql F
  update_with_sets table sets filter returning =
      finish ((push_str (str "UPDATE ") ⨾ update_steps table sets filter returning) new)

  unfoldable pub update : Text → List (Assignment F) → FilterNode F → List Text → CompiledSql F
  update table sets filter returning =
      update_with_sets table (map (λ a. SetExpr.column a.column a.value) sets) filter returning

  unfoldable pub delete : Text → FilterNode F → List Text → CompiledSql F
  delete table filter returning = finish (
      (push_str (str "DELETE FROM ")
          ⨾ push_quoted d table
          ⨾ push_where d (str " WHERE ") filter
          ⨾ push_returning d returning)
        new)
