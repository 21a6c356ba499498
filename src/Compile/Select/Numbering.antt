-- ===== src/Compile/Select/Numbering.antt =====
-- The markers of the statements that read rows (crates/runtime/src/compile.rs).
use ruprizzle_orm.Base.{ℕ, ◌≡◌, refl, Bool, true, List, [], ◌∷◌, Option, none, some, Text, str, All}
use ruprizzle_orm.Dialect.{Dialect, postgres, sqlite, mysql}
use ruprizzle_orm.Compile.Value.{Foreign}
use ruprizzle_orm.Compile.Filter.{FilterNode, OrderBy, JoinKind, AggregateEntry}
use ruprizzle_orm.Compile.State.{separated}
use ruprizzle_orm.Compile.Predicate.{push_filter}
use ruprizzle_orm.Compile.Predicate.Numbering.{HasNames, Keeps-push_filter}
use ruprizzle_orm.Compile.Subquery.Embed.{IsStatement}
use ruprizzle_orm.Compile.Clauses.{push_columns, push_aggregate}
use ruprizzle_orm.Compile.Clauses.Numbering.{
  IsOrder, IsAggregate, Keeps-push_columns, Keeps-push_where, Keeps-push_number, Keeps-push_order,
  Keeps-push_order_by, Keeps-push_aggregate, IsStatement-finish,
}
use ruprizzle_orm.Compile.Select.{
  Model, join_kind_sql, push_distinct, push_projection, push_all_columns, push_right_columns,
  push_alias, push_group_by, push_window_order, right_qualifier, chosen_projection,
  row_number_alias, select_steps, select, join_steps, join_select_with_columns, aggregate_steps,
  aggregate_select, count, exists, partitioned_steps, select_partitioned,
}
use ruprizzle_orm.Compile.Numbering.{
  Keeps, keeps_rules, IsName, is_plain, is_chunk-plain, Keeps-push_column, Keeps-each_after-All,
  Keeps-separated-All,
}
use ruprizzle_orm.Compile.Numbering.After.{Keeps-after, KeepsAfter-⨾, KeepsAfter-to_string}

is_plain-join_kind_sql : (d : Dialect) (k : JoinKind) → is_plain (join_kind_sql d k) ≡ true
unfolding join_kind_sql
is_plain-join_kind_sql d JoinKind.inner = refl
is_plain-join_kind_sql d JoinKind.left = refl
is_plain-join_kind_sql d JoinKind.right = refl
is_plain-join_kind_sql postgres JoinKind.full = refl
is_plain-join_kind_sql sqlite JoinKind.full = refl
is_plain-join_kind_sql mysql JoinKind.full = refl

All-chosen_projection :
    (columns projection : List Text)
    → All IsName columns
    → All IsName projection
    → All IsName (chosen_projection columns projection)
unfolding chosen_projection
All-chosen_projection [] [] hc hp = hp
All-chosen_projection (c ∷ columns) [] hc hp = hc
All-chosen_projection [] (p ∷ projection) hc hp = hp
All-chosen_projection (c ∷ columns) (p ∷ projection) hc hp = hp

abbrev pub IsAlias : Option Text → Type 0
IsAlias none = Unit
IsAlias (some alias) = IsName alias

pub IsName-right_qualifier :
    (alias : Option Text) (table : Text)
    → IsAlias alias
    → IsName table
    → IsName (right_qualifier alias table)
unfolding right_qualifier
IsName-right_qualifier none table ha ht = ht
IsName-right_qualifier (some alias) table ha ht = ha

module _ {F : Foreign} {d : Dialect} where
  Keeps-push_distinct : (distinct : Bool) → Keeps {F = F} d (push_distinct d distinct)
  unfolding push_distinct
  Keeps-push_distinct distinct = search keeps_rules

  Keeps-push_projection :
      (table : Text) (columns : List Text)
      → IsName table
      → All IsName columns
      → Keeps {F = F} d (push_projection d table columns)
  unfolding push_projection
  Keeps-push_projection table [] ht hc = search keeps_rules
  Keeps-push_projection table (c ∷ columns) ht hc = Keeps-push_columns table (c ∷ columns) ht hc

  Keeps-push_all_columns :
      (table : Text) (columns : List Text)
      → IsName table
      → All IsName columns
      → Keeps {F = F} d (push_all_columns d table columns)
  unfolding push_all_columns
  Keeps-push_all_columns table [] ht hc = search keeps_rules
  Keeps-push_all_columns table (c ∷ columns) ht hc = Keeps-push_columns table (c ∷ columns) ht hc

  Keeps-push_right_columns :
      (table : Text) (columns : List Text)
      → IsName table
      → All IsName columns
      → Keeps {F = F} d (push_right_columns d table columns)
  unfolding push_right_columns
  Keeps-push_right_columns table [] ht hc = search keeps_rules
  Keeps-push_right_columns table (c ∷ columns) ht hc =
      Keeps-each_after-All IsName (str ", ") _ (c ∷ columns) refl hc
        (λ column h. Keeps-push_column table column ht h)

  Keeps-push_alias : (alias : Option Text) → IsAlias alias → Keeps {F = F} d (push_alias d alias)
  unfolding push_alias
  Keeps-push_alias none h = search keeps_rules
  Keeps-push_alias (some alias) h = search keeps_rules

  Keeps-push_group_by :
      (table : Text) (columns : List Text)
      → IsName table
      → All IsName columns
      → Keeps {F = F} d (push_group_by d table columns)
  unfolding push_group_by
  Keeps-push_group_by table [] ht hc = search keeps_rules
  Keeps-push_group_by table (c ∷ columns) ht hc =
      let k : Keeps {F = F} d (push_columns d table (c ∷ columns)) =
        Keeps-push_columns table (c ∷ columns) ht hc in
      search keeps_rules

  Keeps-push_window_order :
      (table primary_key : Text) (order : List OrderBy)
      → IsName table
      → IsName primary_key
      → All IsOrder order
      → Keeps {F = F} d (push_window_order d table primary_key order)
  unfolding push_window_order
  Keeps-push_window_order table primary_key [] ht hp ho = search keeps_rules
  Keeps-push_window_order table primary_key (o ∷ order) ht hp ho = Keeps-push_order (o ∷ order) ho

ruleset select_rules = (
  keeps_rules, Keeps-push_where, Keeps-push_number, Keeps-push_order_by, Keeps-push_distinct,
  Keeps-push_projection, Keeps-push_all_columns, Keeps-push_right_columns, Keeps-push_alias,
  Keeps-push_group_by, Keeps-push_window_order,
)

module _ {F : Foreign} (d : Dialect) where
  -- `SELECT`, with names free of `$` and `?` and a filter and an order that are, has the markers
  -- 1, 2, …, one for each value, and begins with no digit.
  pub select-IsStatement :
      (columns : List Text) (table : Text) (projection : List Text) (filter : FilterNode F)
      (order : List OrderBy) (limit offset : Option ℕ) (distinct : Bool)
      → All IsName columns
      → IsName table
      → All IsName projection
      → HasNames d filter
      → All IsOrder order
      → IsStatement d (select d columns table projection filter order limit offset distinct)
  unfolding select select_steps
  select-IsStatement columns table projection filter order limit offset distinct hc ht hp hf ho =
      let hs : All IsName (chosen_projection columns projection) =
        All-chosen_projection columns projection hc hp in
      IsStatement-finish d (str "SELECT ") _ (is_chunk-plain d _ refl) refl
        (search select_rules depth 12)

  -- A join has the markers 1, 2, …, one for each value that it binds.
  pub join-IsStatement :
      (left_table : Text) (left_columns : List Text) (right_table : Text)
      (right_columns : List Text) (right_alias : Option Text) (join_kind : JoinKind)
      (on filter : FilterNode F) (order : List OrderBy) (limit offset : Option ℕ) (distinct : Bool)
      → IsName left_table
      → All IsName left_columns
      → IsName right_table
      → All IsName right_columns
      → IsAlias right_alias
      → HasNames d on
      → HasNames d filter
      → All IsOrder order
      → IsStatement d (
          join_select_with_columns d left_table left_columns right_table right_columns right_alias
            join_kind on filter order limit offset distinct)
  unfolding join_select_with_columns join_steps
  join-IsStatement lt lcs rt rcs alias kind on filter order limit offset distinct hl hlc hr hrc ha
        hon hf ho =
      let hq : IsName (right_qualifier alias rt) = IsName-right_qualifier alias rt ha hr in
      let hk : is_plain (join_kind_sql d kind) ≡ true = is_plain-join_kind_sql d kind in
      let k : Keeps d (push_filter d on) = Keeps-push_filter d on hon in
      IsStatement-finish d (str "SELECT ") _ (is_chunk-plain d _ refl) refl
        (search select_rules depth 20)

  -- An aggregate query has the markers 1, 2, …, one for each value that it binds.
  pub aggregate-IsStatement :
      (table : Text) (aggregates : List AggregateEntry) (filter : FilterNode F)
      (group_by : List Text) (having : FilterNode F) (order : List OrderBy)
      (limit offset : Option ℕ)
      → IsName table
      → All IsAggregate aggregates
      → HasNames d filter
      → All IsName group_by
      → HasNames d having
      → All IsOrder order
      → IsStatement d
          (aggregate_select d table aggregates filter group_by having order limit offset)
  unfolding aggregate_select aggregate_steps
  aggregate-IsStatement table aggregates filter group_by having order limit offset ht ha hf hg hh
        ho =
      let k : Keeps {F = F} d (separated (str ", ") (push_aggregate d) aggregates) =
        Keeps-separated-All IsAggregate (str ", ") _ aggregates refl ha Keeps-push_aggregate in
      IsStatement-finish d (str "SELECT ") _ (is_chunk-plain d _ refl) refl
        (search select_rules depth 12)

  pub count-IsStatement :
      (table : Text) (filter : FilterNode F)
      → IsName table
      → HasNames d filter
      → IsStatement d (count d table filter)
  unfolding count
  count-IsStatement table filter ht hf =
      IsStatement-finish d _ _ (is_chunk-plain d _ refl) refl (search select_rules)

  pub exists-IsStatement :
      (table : Text) (filter : FilterNode F)
      → IsName table
      → HasNames d filter
      → IsStatement d (exists d table filter)
  unfolding exists
  exists-IsStatement table filter ht hf =
      IsStatement-finish d _ _ (is_chunk-plain d _ refl) refl (search select_rules)

  -- The query for the first rows of each group has the markers 1, 2, …, one for each value that it
  -- binds.
  pub partitioned-IsStatement :
      (m : Model) (table partition_by : Text) (filter : FilterNode F) (order : List OrderBy)
      (take : ℕ)
      → All IsName m.columns
      → IsName m.primary_key
      → IsName table
      → IsName partition_by
      → HasNames d filter
      → All IsOrder order
      → IsStatement d (select_partitioned d m table partition_by filter order take)
  unfolding select_partitioned partitioned_steps
  partitioned-IsStatement m table partition_by filter order take hc hk ht hp hf ho =
      let h_alias : IsName row_number_alias = refl in
      let h_table : IsName (str "__rz_partitioned") = refl in
      IsStatement-finish d _ _ (is_chunk-plain d _ refl) refl
        (search (select_rules, Keeps-after, KeepsAfter-⨾, KeepsAfter-to_string) depth 24)
