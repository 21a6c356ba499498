-- ===== src/Compile/Clauses.antt =====
-- crates/runtime/src/compile.rs: the clauses that the statements share. The source writes each of
-- them out in every statement that has it.
pub mod Numbering
use ruprizzle_orm.Base.{
  ℕ, Bool, true, false, ◌&&◌, not, List, [], ◌∷◌, Option, none, some, Text, str, to_string,
  is_empty, ◌==◌, if◌then◌else◌,
}
use ruprizzle_orm.Dialect.{Dialect, postgres, sqlite, mysql, returning_supported}
use ruprizzle_orm.Compile.Value.{Foreign, Value}
use ruprizzle_orm.Compile.Filter.{
  FilterNode, JsonPath, OrderBy, JoinKind, AggregateKind, AggregateEntry,
}
use ruprizzle_orm.Compile.State.{
  Step, ◌⨾◌, skip, push_str, push_quoted, push_bind, push_column, each_after, separated,
}
use ruprizzle_orm.Compile.JsonPredicate.{push_json_expr}
use ruprizzle_orm.Compile.Spatial.{on_geometry}
use ruprizzle_orm.Compile.Predicate.{is_no_filter, push_filter}

unfoldable pub sql_fn : AggregateKind → Text
sql_fn AggregateKind.sum = str "SUM"
sql_fn AggregateKind.avg = str "AVG"
sql_fn AggregateKind.min = str "MIN"
sql_fn AggregateKind.max = str "MAX"
sql_fn AggregateKind.count = str "COUNT"
sql_fn AggregateKind.count_distinct = str "COUNT"

unfoldable pub is_star : Text → Bool
is_star (c ∷ []) = c == b'*'
is_star _ = false

-- Only PostgreSQL's `ST_GeomFromText` has the reference system.
unfoldable pub distance_end : Dialect → Text
distance_end postgres = str ", 4326))"
distance_end sqlite = str "))"
distance_end mysql = str "))"

-- The argument of `AVG`.
unfoldable pub averaged : {F : Foreign} → Dialect → Text → Text → Step F
averaged postgres table column =
    push_column postgres table column ⨾ push_str (str "::double precision")
averaged mysql table column =
    push_str (str "CAST(") ⨾ push_column mysql table column ⨾ push_str (str " AS DOUBLE)")
averaged sqlite table column =
    push_str (str "CAST(") ⨾ push_column sqlite table column ⨾ push_str (str " AS REAL)")

module _ {F : Foreign} (d : Dialect) where
  -- `table.column, table.column`
  unfoldable pub push_columns : Text → List Text → Step F
  push_columns table columns = separated (str ", ") (push_column d table) columns

  unfoldable pub push_where : Text → FilterNode F → Step F
  push_where keyword filter =
      if is_no_filter filter then skip else push_str keyword ⨾ push_filter d filter

  unfoldable pub push_number : Text → Option ℕ → Step F
  push_number keyword none = skip
  push_number keyword (some n) = push_str keyword ⨾ push_str (to_string n)

  -- `if *col == "*" { c.push('*') } else { c.push_quoted(col) }`
  unfoldable pub push_returned : Text → Step F
  push_returned col = if is_star col then push_str (str "*") else push_quoted d col

  unfoldable pub push_returning : List Text → Step F
  push_returning returning =
      if returning_supported d && not (is_empty returning)
      then push_str (str " RETURNING ") ⨾ separated (str ", ") push_returned returning
      else skip

  unfoldable pub order_target : Option Text → Option JsonPath → OrderBy → Step F
  order_target (some geom) path o =
      on_geometry o.table o.column d (str "ST_Distance(") geom (distance_end d)
  order_target none (some path) o = push_json_expr o.table o.column d path o.text
  order_target none none o = push_column d o.table o.column

  unfoldable pub push_order_entry : OrderBy → Step F
  push_order_entry o =
      order_target o.spatial_distance o.json_path o
      ⨾ (if o.desc then push_str (str " DESC") else push_str (str " ASC"))

  unfoldable pub push_order : List OrderBy → Step F
  push_order order = separated (str ", ") push_order_entry order

  unfoldable pub push_order_by : List OrderBy → Step F
  push_order_by [] = skip
  push_order_by (o ∷ order) = push_str (str " ORDER BY ") ⨾ push_order (o ∷ order)

  unfoldable pub push_aggregated : AggregateKind → Text → Text → Step F
  push_aggregated AggregateKind.count_distinct table column =
      push_str (str "DISTINCT ") ⨾ push_column d table column
  push_aggregated AggregateKind.avg table column = averaged d table column
  push_aggregated _ table column = push_column d table column

  unfoldable pub push_aggregate : AggregateEntry → Step F
  push_aggregate agg =
      push_str (sql_fn agg.kind)
      ⨾ push_str (str "(")
      ⨾ push_aggregated agg.kind agg.table agg.column
      ⨾ push_str (str ")")
      ⨾ push_str (str " AS ")
      ⨾ push_quoted d agg.alias
