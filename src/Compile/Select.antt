-- ===== src/Compile/Select.antt =====
-- crates/runtime/src/compile.rs: the statements that read rows. What a statement takes of the trait
-- `Model` (crates/runtime/src/model.rs) is a parameter of it.
pub mod Numbering
use ruprizzle_orm.Base.{
  ℕ, Bool, true, false, ◌&&◌, not, List, [], ◌∷◌, Option, none, some, Text, str, is_empty,
  to_string, if◌then◌else◌,
}
use ruprizzle_orm.Dialect.{Dialect, postgres, sqlite, mysql}
use ruprizzle_orm.Compile.Value.{Foreign}
use ruprizzle_orm.Compile.Filter.{FilterNode, CompiledSql, OrderBy, JoinKind, AggregateEntry}
use ruprizzle_orm.Compile.State.{
  Step, ◌⨾◌, skip, new, finish, push_str, push_quoted, push_column, each_after, separated,
}
use ruprizzle_orm.Compile.Predicate.{push_filter}
use ruprizzle_orm.Compile.Clauses.{
  push_columns, push_where, push_number, push_order, push_order_by, push_aggregate,
}

-- The constants of `trait Model`.
pub record Model : Type 0 where
  pub table : Text
  pub primary_key : Text
  pub columns : List Text
  pub deleted_at_column : Option Text

unfoldable pub join_kind_sql : Dialect → JoinKind → Text
join_kind_sql d JoinKind.inner = str "INNER JOIN"
join_kind_sql d JoinKind.left = str "LEFT JOIN"
join_kind_sql d JoinKind.right = str "RIGHT JOIN"
join_kind_sql postgres JoinKind.full = str "FULL OUTER JOIN"
join_kind_sql sqlite JoinKind.full = str "FULL JOIN"
join_kind_sql mysql JoinKind.full = str "FULL JOIN"

module _ {F : Foreign} (d : Dialect) where
  unfoldable pub push_distinct : Bool → Step F
  push_distinct distinct = if distinct then push_str (str "DISTINCT ") else skip

  unfoldable pub push_projection : Text → List Text → Step F
  push_projection table [] = push_str (str "*")
  push_projection table (col ∷ projection) = push_columns d table (col ∷ projection)

  -- `table.*` where no column is known.
  unfoldable pub push_all_columns : Text → List Text → Step F
  push_all_columns table [] = push_quoted d table ⨾ push_str (str ".*")
  push_all_columns table (col ∷ columns) = push_columns d table (col ∷ columns)

  unfoldable pub push_right_columns : Text → List Text → Step F
  push_right_columns qualifier [] =
      push_str (str ", ") ⨾ push_quoted d qualifier ⨾ push_str (str ".*")
  push_right_columns qualifier (col ∷ columns) =
      each_after (str ", ") (push_column d qualifier) (col ∷ columns)

  unfoldable pub push_alias : Option Text → Step F
  push_alias none = skip
  push_alias (some alias) = push_str (str " AS ") ⨾ push_quoted d alias

  unfoldable pub push_group_by : Text → List Text → Step F
  push_group_by table [] = skip
  push_group_by table (col ∷ group_by) =
      push_str (str " GROUP BY ") ⨾ push_columns d table (col ∷ group_by)

  -- The order of the rows in a partition.
  unfoldable pub push_window_order : Text → Text → List OrderBy → Step F
  push_window_order table primary_key [] = push_column d table primary_key ⨾ push_str (str " ASC")
  push_window_order table primary_key (o ∷ order) = push_order d (o ∷ order)

-- `right_alias.unwrap_or(right_table)`
unfoldable pub right_qualifier : Option Text → Text → Text
right_qualifier none right_table = right_table
right_qualifier (some alias) right_table = alias

unfoldable pub chosen_projection : List Text → List Text → List Text
chosen_projection columns projection =
    if is_empty projection && not (is_empty columns) then columns else projection

abbrev pub row_number_alias : Text
row_number_alias = str "__rz_rn"

module _ {F : Foreign} (d : Dialect) where
  unfoldable pub select_steps :
      List Text
      → Text
      → List Text
      → FilterNode F
      → List OrderBy
      → Option ℕ
      → Option ℕ
      → Bool
      → Step F
  select_steps columns table projection filter order limit offset distinct =
      push_distinct d distinct
      ⨾ push_projection d table (chosen_projection columns projection)
      ⨾ push_str (str " FROM ")
      ⨾ push_quoted d table
      ⨾ push_where d (str " WHERE ") filter
      ⨾ push_order_by d order
      ⨾ push_number d (str " LIMIT ") limit
      ⨾ push_number d (str " OFFSET ") offset

  unfoldable pub select :
      List Text
      → Text
      → List Text
      → FilterNode F
      → List OrderBy
      → Option ℕ
      → Option ℕ
      → Bool
      → CompiledSql F
  select columns table projection filter order limit offset distinct = finish (
      (push_str (str "SELECT ")
          ⨾ select_steps columns table projection filter order limit offset distinct)
        new)

  unfoldable pub join_steps :
      Text
      → List Text
      → Text
      → List Text
      → Option Text
      → JoinKind
      → FilterNode F
      → FilterNode F
      → List OrderBy
      → Option ℕ
      → Option ℕ
      → Bool
      → Step F
  join_steps left_table left_columns right_table right_columns right_alias join_kind on filter order
        limit offset distinct =
      push_distinct d distinct
      ⨾ push_all_columns d left_table left_columns
      ⨾ push_right_columns d (right_qualifier right_alias right_table) right_columns
      ⨾ push_str (str " FROM ")
      ⨾ push_quoted d left_table
      ⨾ push_str (str " ")
      ⨾ push_str (join_kind_sql d join_kind)
      ⨾ push_str (str " ")
      ⨾ push_quoted d right_table
      ⨾ push_alias d right_alias
      ⨾ push_str (str " ON ")
      ⨾ push_filter d on
      ⨾ push_where d (str " WHERE ") filter
      ⨾ push_order_by d order
      ⨾ push_number d (str " LIMIT ") limit
      ⨾ push_number d (str " OFFSET ") offset

  unfoldable pub join_select_with_columns :
      Text
      → List Text
      → Text
      → List Text
      → Option Text
      → JoinKind
      → FilterNode F
      → FilterNode F
      → List OrderBy
      → Option ℕ
      → Option ℕ
      → Bool
      → CompiledSql F
  join_select_with_columns left_table left_columns right_table right_columns right_alias join_kind
        on filter order limit offset distinct =
      finish (
        (push_str (str "SELECT ")
            ⨾ join_steps left_table left_columns right_table right_columns right_alias join_kind on
                filter order limit offset distinct)
          new)

  unfoldable pub aggregate_steps :
      Text
      → List AggregateEntry
      → FilterNode F
      → List Text
      → FilterNode F
      → List OrderBy
      → Option ℕ
      → Option ℕ
      → Step F
  aggregate_steps table aggregates filter group_by having order limit offset =
      separated (str ", ") (push_aggregate d) aggregates
      ⨾ push_str (str " FROM ")
      ⨾ push_quoted d table
      ⨾ push_where d (str " WHERE ") filter
      ⨾ push_group_by d table group_by
      ⨾ push_where d (str " HAVING ") having
      ⨾ push_order_by d order
      ⨾ push_number d (str " LIMIT ") limit
      ⨾ push_number d (str " OFFSET ") offset

  unfoldable pub aggregate_select :
      Text
      → List AggregateEntry
      → FilterNode F
      → List Text
      → FilterNode F
      → List OrderBy
      → Option ℕ
      → Option ℕ
      → CompiledSql F
  aggregate_select table aggregates filter group_by having order limit offset = finish (
      (push_str (str "SELECT ")
          ⨾ aggregate_steps table aggregates filter group_by having order limit offset)
        new)

  unfoldable pub count : Text → FilterNode F → CompiledSql F
  count table filter = finish (
      (push_str (str "SELECT COUNT(*) FROM ")
          ⨾ push_quoted d table
          ⨾ push_where d (str " WHERE ") filter)
        new)

  unfoldable pub exists : Text → FilterNode F → CompiledSql F
  exists table filter = finish (
      (push_str (str "SELECT 1 FROM ")
          ⨾ push_quoted d table
          ⨾ push_where d (str " WHERE ") filter
          ⨾ push_str (str " LIMIT 1"))
        new)

  unfoldable pub partitioned_steps : Model → Text → Text → FilterNode F → List OrderBy → ℕ → Step F
  partitioned_steps m table partition_by filter order take =
      push_all_columns d table m.columns
      ⨾ push_str (str ", ROW_NUMBER() OVER (PARTITION BY ")
      ⨾ push_column d table partition_by
      ⨾ push_str (str " ORDER BY ")
      ⨾ push_window_order d table m.primary_key order
      ⨾ push_str (str ") AS ")
      ⨾ push_quoted d row_number_alias
      ⨾ push_str (str " FROM ")
      ⨾ push_quoted d table
      ⨾ push_where d (str " WHERE ") filter
      ⨾ push_str (str ") AS ")
      ⨾ push_quoted d (str "__rz_partitioned")
      ⨾ push_str (str " WHERE ")
      ⨾ push_quoted d row_number_alias
      ⨾ push_str (str " <= ")
      ⨾ push_str (to_string take)
      ⨾ push_str (str " ORDER BY ")
      ⨾ push_quoted d row_number_alias
      ⨾ push_str (str " ASC")

  unfoldable pub select_partitioned :
      Model → Text → Text → FilterNode F → List OrderBy → ℕ → CompiledSql F
  select_partitioned m table partition_by filter order take = finish (
      (push_str (str "SELECT * FROM (SELECT ")
          ⨾ partitioned_steps m table partition_by filter order take)
        new)
