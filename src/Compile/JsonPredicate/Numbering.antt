-- ===== src/Compile/JsonPredicate/Numbering.antt =====
-- The markers of JSON predicates (crates/runtime/src/compile.rs).
use ruprizzle_orm.Base.{
  ◌≡◌, refl, Bool, true, false, List, [], ◌∷◌, Option, none, some, Text, str, All, double, ◌++◌,
  append-nil,
}
use ruprizzle_orm.Dialect.{Dialect, postgres, sqlite, mysql}
use ruprizzle_orm.Compile.Value.{Foreign, Value}
use ruprizzle_orm.Compile.Filter.{JsonPath, key, index}
use ruprizzle_orm.Compile.Json.{
  push_json_path_sqlite_mysql, push_json_path_sqlite_mysql_with_key, push_json_string_literal,
  push_json_path_array,
}
use ruprizzle_orm.Compile.Json.Numbering.{
  IsSegment, IsKey, Keeps-push_json_path_with_key, Keeps-push_json_path_array,
}
use ruprizzle_orm.Compile.JsonPredicate.{
  path_postgres, push_json_expr_postgres, push_json_expr_sqlite, push_json_expr_mysql,
  push_json_expr, type_is_not_null, contains_sqlite, object_keys, push_json_contains, text_key,
  push_json_has_key,
}
use ruprizzle_orm.Compile.Numbering.{
  Keeps, keeps_rules, IsName, Keeps-push_str, Keeps-chunk, Keeps-skip, Keeps-separated-All,
  is_name-double,
}
use ruprizzle_orm.Compile.Numbering.After.{
  KeepsAfter, KeepsAfter-name, Keeps-after, is_word, after_rules, KeepsAfter-⨾,
}
use ruprizzle_orm.Compile.State.{◌⨾◌, push_str}

module _ {F : Foreign} where
  Keeps-path_sqlite :
      (path : JsonPath) (o : Option Text)
      → All IsSegment path
      → IsKey o
      → Keeps {F = F} sqlite (push_json_path_sqlite_mysql_with_key path o)
  Keeps-path_sqlite path o h k = Keeps-push_json_path_with_key path o (Keeps-chunk _ refl) h k

  Keeps-path_mysql :
      (path : JsonPath) (o : Option Text)
      → All IsSegment path
      → IsKey o
      → Keeps {F = F} mysql (push_json_path_sqlite_mysql_with_key path o)
  Keeps-path_mysql path o h k = Keeps-push_json_path_with_key path o (Keeps-chunk _ refl) h k

  pub Keeps-path_sqlite_plain :
      (path : JsonPath)
      → All IsSegment path
      → Keeps {F = F} sqlite (push_json_path_sqlite_mysql path)
  unfolding push_json_path_sqlite_mysql
  Keeps-path_sqlite_plain path h = Keeps-path_sqlite path none h tt

  pub Keeps-path_mysql_plain :
      (path : JsonPath)
      → All IsSegment path
      → Keeps {F = F} mysql (push_json_path_sqlite_mysql path)
  unfolding push_json_path_sqlite_mysql
  Keeps-path_mysql_plain path h = Keeps-path_mysql path none h tt

IsName-literal : (k : Text) → IsName k → IsName (double 39 k)
IsName-literal k h =
    let e : IsName (double 39 k ++ []) = is_name-double 39 k [] refl h refl in rw append-nil at e

module _ {F : Foreign} where
  KeepsAfter-literal :
      (k : Text) → IsName k → KeepsAfter {F = F} postgres (push_json_string_literal k)
  unfolding push_json_string_literal
  KeepsAfter-literal k h = KeepsAfter-name (double 39 k) (IsName-literal k h)

  Keeps-key :
      (k a : Text)
      → IsName k
      → is_word a ≡ true
      → Keeps {F = F} postgres (push_str a ⨾ push_json_string_literal k ⨾ push_str (str "'"))
  Keeps-key k a h e = search (Keeps-after, KeepsAfter-⨾, KeepsAfter-literal, Keeps-push_str)

  Keeps-path_postgres :
      (path : JsonPath) (text : Bool)
      → All IsSegment path
      → Keeps {F = F} postgres (path_postgres path text)
  unfolding path_postgres
  Keeps-path_postgres [] text h = Keeps-skip
  Keeps-path_postgres (key k ∷ []) true h = Keeps-key k _ h.0 refl
  Keeps-path_postgres (key k ∷ []) false h = Keeps-key k _ h.0 refl
  Keeps-path_postgres (index i ∷ []) text h = search after_rules
  Keeps-path_postgres (x ∷ y ∷ path) text h =
      let k : Keeps {F = F} postgres (push_json_path_array (x ∷ y ∷ path)) =
        Keeps-push_json_path_array (x ∷ y ∷ path) h in
      search keeps_rules

module _ {F : Foreign} (table column : Text) (ht : IsName table) (hc : IsName column) where
  Keeps-expr_sqlite :
      (path : JsonPath) (text : Bool)
      → All IsSegment path
      → Keeps {F = F} sqlite (push_json_expr_sqlite table column path text)
  unfolding push_json_expr_sqlite
  Keeps-expr_sqlite [] text h = search keeps_rules
  Keeps-expr_sqlite (x ∷ path) text h = search (keeps_rules, Keeps-path_sqlite_plain) depth 8

  Keeps-expr_mysql :
      (path : JsonPath) (text : Bool)
      → All IsSegment path
      → Keeps {F = F} mysql (push_json_expr_mysql table column path text)
  unfolding push_json_expr_mysql
  Keeps-expr_mysql [] text h = search keeps_rules
  Keeps-expr_mysql (x ∷ path) text h = search (keeps_rules, Keeps-path_mysql_plain) depth 8

  pub Keeps-push_json_expr :
      (d : Dialect) (path : JsonPath) (text : Bool)
      → All IsSegment path
      → Keeps {F = F} d (push_json_expr table column d path text)
  unfolding push_json_expr push_json_expr_postgres
  Keeps-push_json_expr postgres path text h =
      let k = Keeps-path_postgres {F = F} path text h in search keeps_rules
  Keeps-push_json_expr sqlite path text h = Keeps-expr_sqlite path text h
  Keeps-push_json_expr mysql path text h = Keeps-expr_mysql path text h

  Keeps-type_is_not_null :
      (path : JsonPath) (o : Option Text)
      → All IsSegment path
      → IsKey o
      → Keeps {F = F} sqlite (type_is_not_null table column path o)
  unfolding type_is_not_null
  Keeps-type_is_not_null path o h ho =
      let k = Keeps-path_sqlite {F = F} path o h ho in search keeps_rules depth 8

  Keeps-contains_sqlite :
      (path : JsonPath) (keys : List Text)
      → All IsSegment path
      → All IsName keys
      → Keeps {F = F} sqlite (contains_sqlite table column path keys)
  unfolding contains_sqlite
  Keeps-contains_sqlite path [] h hk = Keeps-type_is_not_null path none h tt
  Keeps-contains_sqlite path (k ∷ keys) h hk =
      let s =
        Keeps-separated-All {F = F} {d = sqlite} IsName (str " AND ")
          (λ k'. type_is_not_null table column path (some k')) (k ∷ keys) refl hk
          (λ k' hk'. Keeps-type_is_not_null path (some k') h hk') in
      search keeps_rules

  pub Keeps-push_json_contains :
      (d : Dialect) (path : JsonPath) (value : Value F)
      → All IsSegment path
      → All IsName (object_keys value)
      → Keeps d (push_json_contains table column d path value)
  unfolding push_json_contains
  Keeps-push_json_contains postgres path value h hv =
      let k = Keeps-push_json_expr postgres path false h in search keeps_rules
  Keeps-push_json_contains mysql path value h hv =
      let k = Keeps-path_mysql_plain {F = F} path h in search keeps_rules depth 8
  Keeps-push_json_contains sqlite path value h hv =
      Keeps-contains_sqlite path (object_keys value) h hv

  pub Keeps-push_json_has_key :
      (d : Dialect) (path : JsonPath) (value : Value F)
      → All IsSegment path
      → IsKey (text_key value)
      → Keeps d (push_json_has_key table column d path value)
  unfolding push_json_has_key
  Keeps-push_json_has_key postgres path value h hv =
      let k = Keeps-push_json_expr postgres [] false tt in
      let m : Keeps {F = F} postgres (push_str (str " ? ")) = Keeps-chunk _ refl in
      search keeps_rules
  Keeps-push_json_has_key mysql path value h hv =
      let k = Keeps-path_mysql {F = F} path (text_key value) h hv in search keeps_rules depth 8
  Keeps-push_json_has_key sqlite path value h hv = Keeps-type_is_not_null path (text_key value) h hv
