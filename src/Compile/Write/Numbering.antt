-- ===== src/Compile/Write/Numbering.antt =====
-- The markers of the statements that write rows (crates/runtime/src/compile.rs).
use ruprizzle_orm.Base.{◌≡◌, refl, true, List, [], ◌∷◌, Text, str, All}
use ruprizzle_orm.Dialect.{Dialect, postgres, sqlite, mysql, upsert_clause}
use ruprizzle_orm.Compile.Value.{Foreign, Value}
use ruprizzle_orm.Compile.Filter.{FilterNode, JsonPath}
use ruprizzle_orm.Compile.State.{separated, finish}
use ruprizzle_orm.Compile.Json.Numbering.{IsSegment, Keeps-push_json_path_array}
use ruprizzle_orm.Compile.JsonPredicate.Numbering.{Keeps-path_sqlite_plain, Keeps-path_mysql_plain}
use ruprizzle_orm.Compile.Predicate.Numbering.{HasNames}
use ruprizzle_orm.Compile.Subquery.Embed.{IsStatement}
use ruprizzle_orm.Compile.Clauses.Numbering.{
  Keeps-push_where, Keeps-push_returning, IsStatement-finish,
}
use ruprizzle_orm.Compile.Write.Upsert.{is_plain-upsert_clause}
use ruprizzle_orm.Compile.Markers.{IsNumbered-nil}
use ruprizzle_orm.Compile.Write.{
  Assignment, SetExpr, push_names, push_values, push_into, push_row, insert_steps, insert,
  insert_many_steps, insert_many, upsert_steps, upsert, push_json_set, push_set, update_steps,
  update_with_sets, delete,
}
use ruprizzle_orm.Compile.Numbering.{
  Keeps, keeps_rules, IsName, is_plain, is_chunk-plain, Keeps-push_quoted, Keeps-separated-All,
  Keeps-push_bind, Keeps-separated,
}

-- The columns of a row, and of a set clause, hold no marker character.
abbrev pub HasColumn : {F : Foreign} → Assignment F → Type 0
HasColumn a = IsName a.column

abbrev pub IsSetExpr : {F : Foreign} → SetExpr F → Type 0
IsSetExpr (SetExpr.column col value) = IsName col
IsSetExpr (SetExpr.json_set col path value) = IsName col × All IsSegment path

module _ {F : Foreign} {d : Dialect} where
  Keeps-push_names :
      (values : List (Assignment F)) → All HasColumn values → Keeps d (push_names d values)
  unfolding push_names
  Keeps-push_names values h =
      Keeps-separated-All HasColumn (str ", ") _ values refl h
        (λ a ha. Keeps-push_quoted a.column ha)

  Keeps-push_values : (values : List (Assignment F)) → Keeps d (push_values d values)
  unfolding push_values
  Keeps-push_values values = Keeps-separated (str ", ") _ values refl (λ a. Keeps-push_bind a.value)

  Keeps-push_into :
      (table : Text) (values : List (Assignment F))
      → IsName table
      → All HasColumn values
      → Keeps d (push_into d table values)
  unfolding push_into
  Keeps-push_into table values ht hv = search (keeps_rules, Keeps-push_names)

  Keeps-push_row : (row : List (Assignment F)) → Keeps d (push_row d row)
  unfolding push_row
  Keeps-push_row row = search (keeps_rules, Keeps-push_values)

ruleset write_rules =
    (keeps_rules, Keeps-push_where, Keeps-push_returning, Keeps-push_into, Keeps-push_row)

module _ {F : Foreign} (d : Dialect) where
  -- `INSERT` has the markers 1, 2, …, one for each value that it binds.
  pub insert-IsStatement :
      (table : Text) (values : List (Assignment F)) (returning : List Text)
      → IsName table
      → All HasColumn values
      → All IsName returning
      → IsStatement d (insert d table values returning)
  unfolding insert insert_steps
  insert-IsStatement table values returning ht hv hr =
      IsStatement-finish d _ _ (is_chunk-plain d _ refl) refl (search write_rules)

  -- An `INSERT` of any number of rows, none included, with names free of `$` and `?`, has the
  -- markers 1, 2, …, one for each value, and begins with no digit.
  pub insert_many-IsStatement :
      (table : Text) (rows : List (List (Assignment F))) (returning : List Text)
      → IsName table
      → All (All HasColumn) rows
      → All IsName returning
      → IsStatement d (insert_many d table rows returning)
  unfolding insert_many insert_many_steps finish
  insert_many-IsStatement table [] returning ht hv hr = record {
    numbered = IsNumbered-nil d;
    front = refl;
  }
  insert_many-IsStatement table (first ∷ rows) returning ht hv hr =
      let hf : All HasColumn first = hv.0 in
      IsStatement-finish d _ _ (is_chunk-plain d _ refl) refl (search write_rules)

  -- An upsert has the markers 1, 2, …, one for each value that it binds.
  pub upsert-IsStatement :
      (table : Text) (values : List (Assignment F)) (conflict updated returning : List Text)
      → IsName table
      → All HasColumn values
      → All IsName conflict
      → All IsName updated
      → All IsName returning
      → IsStatement d (upsert d table values conflict updated returning)
  unfolding upsert upsert_steps
  upsert-IsStatement table values conflict updated returning ht hv hc hu hr =
      let e : is_plain (upsert_clause d conflict updated) ≡ true =
        is_plain-upsert_clause d conflict updated hc hu in
      IsStatement-finish d _ _ (is_chunk-plain d _ refl) refl (search write_rules)

module _ {F : Foreign} where
  Keeps-push_json_set :
      (d : Dialect) (col : Text) (path : JsonPath) (value : Value F)
      → IsName col
      → All IsSegment path
      → Keeps d (push_json_set d col path value)
  unfolding push_json_set
  Keeps-push_json_set postgres col path value hc hp =
      search (keeps_rules, Keeps-push_json_path_array) depth 10
  Keeps-push_json_set sqlite col path value hc hp =
      search (keeps_rules, Keeps-path_sqlite_plain) depth 10
  Keeps-push_json_set mysql col path value hc hp =
      search (keeps_rules, Keeps-path_mysql_plain) depth 10

module _ {F : Foreign} (d : Dialect) where
  Keeps-push_set : (s : SetExpr F) → IsSetExpr s → Keeps d (push_set d s)
  unfolding push_set
  Keeps-push_set (SetExpr.column col value) h = search keeps_rules
  Keeps-push_set (SetExpr.json_set col path value) (hc, hp) =
      let k = Keeps-push_json_set {F = F} d col path value hc hp in search keeps_rules

  -- `UPDATE` with plain and JSON set clauses, with names free of `$` and `?` and such a filter,
  -- has the markers 1, 2, …, one for each value, and begins with no digit.
  pub update-IsStatement :
      (table : Text) (sets : List (SetExpr F)) (filter : FilterNode F) (returning : List Text)
      → IsName table
      → All IsSetExpr sets
      → HasNames d filter
      → All IsName returning
      → IsStatement d (update_with_sets d table sets filter returning)
  unfolding update_with_sets update_steps
  update-IsStatement table sets filter returning ht hs hf hr =
      let k : Keeps {F = F} d (separated (str ", ") (push_set d) sets) =
        Keeps-separated-All IsSetExpr (str ", ") _ sets refl hs Keeps-push_set in
      IsStatement-finish d _ _ (is_chunk-plain d _ refl) refl (search write_rules)

  -- `DELETE` has the markers 1, 2, …, one for each value that it binds.
  pub delete-IsStatement :
      (table : Text) (filter : FilterNode F) (returning : List Text)
      → IsName table
      → HasNames d filter
      → All IsName returning
      → IsStatement d (delete d table filter returning)
  unfolding delete
  delete-IsStatement table filter returning ht hf hr =
      IsStatement-finish d _ _ (is_chunk-plain d _ refl) refl (search write_rules)
