-- ===== src/Compile/Binds/Leaves.antt =====
-- The values that the JSON, array, full-text and spatial predicates of crates/runtime/src/compile.rs
-- bind, in order.
use ruprizzle_orm.Base.{◌≡◌, refl, true, false, Bool, List, [], ◌∷◌, Option, none, some, Text, str}
use ruprizzle_orm.Dialect.{Dialect, postgres, sqlite, mysql}
use ruprizzle_orm.Compile.Value.{ℤ, JsonView, Foreign, Value, values}
use ruprizzle_orm.Compile.Filter.{
  JsonFilterOp, ArrayFilterOp, SpatialOp, JsonPath, JsonPathSegment, key, index,
}
use ruprizzle_orm.Compile.Json.{
  push_json_array_key, push_json_path_key, push_json_string_literal, path_array_segment,
  push_json_path_array, push_json_path_segments, push_extra_key,
  push_json_path_sqlite_mysql_with_key, push_json_path_sqlite_mysql,
}
use ruprizzle_orm.Compile.JsonPredicate.{
  json_cmp_value, by_dialect, sqlite_value, mysql_value, number_value, path_postgres,
  push_json_expr_postgres, push_json_expr_sqlite, push_json_expr_mysql, push_json_expr,
  type_is_not_null, contains_sqlite, object_keys, push_json_contains, text_key, push_json_has_key,
}
use ruprizzle_orm.Compile.Spatial.{push_full_text_match, on_geometry}
use ruprizzle_orm.Compile.Binds.{
  Binds, Silent, silent_rules, binds_rules, Silent-push_str, Silent-separated, Binds-Silent,
}

module _ {F : Foreign} where
  Silent-push_json_path_key : (k : Text) → Silent {F = F} (push_json_path_key k)
  unfolding push_json_path_key
  Silent-push_json_path_key k = search silent_rules

  Silent-segments : (path : JsonPath) → Silent {F = F} (push_json_path_segments path)
  unfolding push_json_path_segments
  Silent-segments [] = search silent_rules
  Silent-segments (key k ∷ path) =
      let s : Silent {F = F} (push_json_path_segments path) = Silent-segments path in
      search (silent_rules, Silent-push_json_path_key)
  Silent-segments (index n ∷ path) =
      let s : Silent {F = F} (push_json_path_segments path) = Silent-segments path in
      search silent_rules

  Silent-path_with_key :
      (path : JsonPath) (o : Option Text)
      → Silent {F = F} (push_json_path_sqlite_mysql_with_key path o)
  unfolding push_json_path_sqlite_mysql_with_key push_extra_key
  Silent-path_with_key path none = search (silent_rules, Silent-segments)
  Silent-path_with_key path (some k) =
      search (silent_rules, Silent-segments, Silent-push_json_path_key)

  pub Silent-path : (path : JsonPath) → Silent {F = F} (push_json_path_sqlite_mysql path)
  unfolding push_json_path_sqlite_mysql
  Silent-path path = Silent-path_with_key path none

  Silent-path_array_segment : (s : JsonPathSegment) → Silent {F = F} (path_array_segment s)
  unfolding path_array_segment push_json_array_key
  Silent-path_array_segment (key k) = Silent-push_str _
  Silent-path_array_segment (index n) = Silent-push_str _

  pub Silent-path_array : (path : JsonPath) → Silent {F = F} (push_json_path_array path)
  unfolding push_json_path_array
  Silent-path_array path =
      let s =
        Silent-separated {F = F} (str ",") path_array_segment path Silent-path_array_segment in
      search silent_rules

  Silent-path_postgres : (path : JsonPath) (text : Bool) → Silent {F = F} (path_postgres path text)
  unfolding path_postgres push_json_string_literal
  Silent-path_postgres [] text = search silent_rules
  Silent-path_postgres (key k ∷ []) text = search silent_rules
  Silent-path_postgres (index i ∷ []) text = search silent_rules
  Silent-path_postgres (x ∷ y ∷ path) text = search (silent_rules, Silent-path_array)

module _ {F : Foreign} (table column : Text) where
  pub Silent-push_json_expr :
      (d : Dialect) (path : JsonPath) (text : Bool)
      → Silent {F = F} (push_json_expr table column d path text)
  unfolding push_json_expr push_json_expr_postgres push_json_expr_sqlite push_json_expr_mysql
  Silent-push_json_expr postgres path text = search (silent_rules, Silent-path_postgres)
  Silent-push_json_expr sqlite [] text = search silent_rules
  Silent-push_json_expr sqlite (x ∷ path) text = search (silent_rules, Silent-path) depth 8
  Silent-push_json_expr mysql [] text = search silent_rules
  Silent-push_json_expr mysql (x ∷ path) text = search (silent_rules, Silent-path) depth 8

  Silent-type_is_not_null :
      (path : JsonPath) (o : Option Text) → Silent {F = F} (type_is_not_null table column path o)
  unfolding type_is_not_null
  Silent-type_is_not_null path o = search (silent_rules, Silent-path_with_key) depth 8

  Silent-contains_sqlite :
      (path : JsonPath) (keys : List Text) → Silent {F = F} (contains_sqlite table column path keys)
  unfolding contains_sqlite
  Silent-contains_sqlite path [] = Silent-type_is_not_null path none
  Silent-contains_sqlite path (k ∷ keys) =
      let s =
        Silent-separated {F = F} (str " AND ") (λ k'. type_is_not_null table column path (some k'))
          (k ∷ keys) (λ k'. Silent-type_is_not_null path (some k')) in
      search silent_rules

-- A number that fits no native type stays a document.
abbrev pub document_number : {F : Foreign} → F.Json → Option ℤ → Option (F.F64) → Value F
document_number v (some i) f = Value.i64 i
document_number v none (some f) = Value.f64 f
document_number v none none = Value.json v

-- What a document of this kind is compared as: SQLite extracts every scalar as a native value, MySQL
-- strings and numbers, PostgreSQL compares documents.
abbrev pub document_value : {F : Foreign} → Dialect → F.Json → JsonView (F.F64) → Value F
document_value postgres v kind = Value.json v
document_value sqlite v JsonView.null = Value.null
document_value mysql v JsonView.null = Value.json v
document_value sqlite v (JsonView.bool b) = Value.bool b
document_value mysql v (JsonView.bool b) = Value.json v
document_value sqlite v (JsonView.number i f) = document_number v i f
document_value mysql v (JsonView.number i f) = document_number v i f
document_value sqlite v (JsonView.string s) = Value.str s
document_value mysql v (JsonView.string s) = Value.str s
document_value sqlite v JsonView.array = Value.json v
document_value mysql v JsonView.array = Value.json v
document_value sqlite v (JsonView.object keys) = Value.json v
document_value mysql v (JsonView.object keys) = Value.json v

-- A comparison of the extracted text takes the value as it is.
abbrev pub compared_value : {F : Foreign} → Dialect → Bool → Value F → Value F
compared_value d true value = value
compared_value {F} d false (Value.json v) = document_value d v (F.view v)
compared_value d false value = value

-- What a JSON predicate binds: SQLite writes the keys of a containment out, and only PostgreSQL
-- binds a key.
abbrev pub json_values : {F : Foreign} → Dialect → Bool → JsonFilterOp → Value F → List (Value F)
json_values d text (JsonFilterOp.cmp op) value = compared_value d text value ∷ []
json_values postgres text JsonFilterOp.contains value = value ∷ []
json_values mysql text JsonFilterOp.contains value = value ∷ []
json_values sqlite text JsonFilterOp.contains value = []
json_values postgres text JsonFilterOp.has_key value = value ∷ []
json_values mysql text JsonFilterOp.has_key value = []
json_values sqlite text JsonFilterOp.has_key value = []

-- What an array predicate binds: `has` its first value, which MySQL does without and the others
-- take as NULL where it is missing; of the rest, PostgreSQL one array, the others each element.
abbrev pub array_values : {F : Foreign} → Dialect → ArrayFilterOp → List (Value F) → List (Value F)
array_values d ArrayFilterOp.is_empty vs = []
array_values d ArrayFilterOp.is_not_empty vs = []
array_values d ArrayFilterOp.has (v ∷ vs) = v ∷ []
array_values postgres ArrayFilterOp.has [] = Value.null ∷ []
array_values sqlite ArrayFilterOp.has [] = Value.null ∷ []
array_values mysql ArrayFilterOp.has [] = []
array_values postgres ArrayFilterOp.contains vs = Value.array (values vs) ∷ []
array_values postgres ArrayFilterOp.contained_by vs = Value.array (values vs) ∷ []
array_values postgres ArrayFilterOp.overlaps vs = Value.array (values vs) ∷ []
array_values sqlite ArrayFilterOp.contains vs = vs
array_values sqlite ArrayFilterOp.contained_by vs = vs
array_values sqlite ArrayFilterOp.overlaps vs = vs
array_values mysql ArrayFilterOp.contains vs = vs
array_values mysql ArrayFilterOp.contained_by vs = vs
array_values mysql ArrayFilterOp.overlaps vs = vs

json_cmp_value-document :
    {F : Foreign} (d : Dialect) (v : F.Json) (kind : JsonView (F.F64))
    → F.view v ≡ kind
    → by_dialect {F = F} d (Value.json v) ≡ document_value d v kind
unfolding by_dialect sqlite_value mysql_value number_value
json_cmp_value-document postgres v kind h = refl
json_cmp_value-document sqlite v JsonView.null h = rw h refl
json_cmp_value-document sqlite v (JsonView.bool b) h = rw h refl
json_cmp_value-document sqlite v (JsonView.number (some i) f) h = rw h refl
json_cmp_value-document sqlite v (JsonView.number none (some f)) h = rw h refl
json_cmp_value-document sqlite v (JsonView.number none none) h = rw h refl
json_cmp_value-document sqlite v (JsonView.string s) h = rw h refl
json_cmp_value-document sqlite v JsonView.array h = rw h refl
json_cmp_value-document sqlite v (JsonView.object keys) h = rw h refl
json_cmp_value-document mysql v JsonView.null h = rw h refl
json_cmp_value-document mysql v (JsonView.bool b) h = rw h refl
json_cmp_value-document mysql v (JsonView.number (some i) f) h = rw h refl
json_cmp_value-document mysql v (JsonView.number none (some f)) h = rw h refl
json_cmp_value-document mysql v (JsonView.number none none) h = rw h refl
json_cmp_value-document mysql v (JsonView.string s) h = rw h refl
json_cmp_value-document mysql v JsonView.array h = rw h refl
json_cmp_value-document mysql v (JsonView.object keys) h = rw h refl

pub json_cmp_value_lem :
    {F : Foreign} (d : Dialect) (text : Bool) (value : Value F)
    → json_cmp_value d text value ≡ compared_value d text value
unfolding json_cmp_value by_dialect
json_cmp_value_lem d true value = refl
json_cmp_value_lem {F} d false (Value.json v) = json_cmp_value-document d v (F.view v) refl
json_cmp_value_lem postgres false value = refl
json_cmp_value_lem sqlite false value = refl
json_cmp_value_lem mysql false value = refl

abbrev pub spatial_values : (F : Foreign) → SpatialOp → Text → Option (F.F64) → List (Value F)
spatial_values F SpatialOp.within_radius geometry (some distance) =
    Value.str geometry ∷ Value.f64 distance ∷ []
spatial_values F SpatialOp.within_radius geometry none =
    Value.str geometry ∷ Value.f64 F.zero_f64 ∷ []
spatial_values F SpatialOp.intersects geometry distance = Value.str geometry ∷ []
spatial_values F SpatialOp.contains geometry distance = Value.str geometry ∷ []
spatial_values F SpatialOp.within geometry distance = Value.str geometry ∷ []

module _ {F : Foreign} (table column : Text) where
  pub Binds-push_json_contains :
      (d : Dialect) (path : JsonPath) (text : Bool) (value : Value F)
      → Binds
          (push_json_contains table column d path value)
          (json_values d text JsonFilterOp.contains value)
  unfolding push_json_contains
  Binds-push_json_contains postgres path text value =
      search (binds_rules, Silent-push_json_expr) depth 8
  Binds-push_json_contains mysql path text value = search (binds_rules, Silent-path) depth 10
  Binds-push_json_contains sqlite path text value =
      Binds-Silent _ (Silent-contains_sqlite table column path (object_keys value))

  pub Binds-push_json_has_key :
      (d : Dialect) (path : JsonPath) (text : Bool) (value : Value F)
      → Binds
          (push_json_has_key table column d path value)
          (json_values d text JsonFilterOp.has_key value)
  unfolding push_json_has_key
  Binds-push_json_has_key postgres path text value =
      search (binds_rules, Silent-push_json_expr) depth 8
  Binds-push_json_has_key mysql path text value =
      Binds-Silent _ (search (silent_rules, Silent-path_with_key) depth 8)
  Binds-push_json_has_key sqlite path text value =
      Binds-Silent _ (Silent-type_is_not_null table column path (text_key value))

  pub Binds-push_full_text_match :
      (d : Dialect) (query : Text)
      → Binds {F = F} (push_full_text_match table column d query) (Value.str query ∷ [])
  unfolding push_full_text_match
  Binds-push_full_text_match postgres query = search binds_rules depth 8
  Binds-push_full_text_match sqlite query = search binds_rules depth 8
  Binds-push_full_text_match mysql query = search binds_rules depth 8

  pub Binds-on_geometry :
      (d : Dialect) (name geometry closing : Text)
      → Binds {F = F} (on_geometry table column d name geometry closing) (Value.str geometry ∷ [])
  unfolding on_geometry
  Binds-on_geometry d name geometry closing = search binds_rules depth 8
