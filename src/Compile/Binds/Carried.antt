-- ===== src/Compile/Binds/Carried.antt =====
-- The statements of crates/runtime/src/compile.rs with the values that they carry: one marker for
-- each value of their parts.
use ruprizzle_orm.Base.{
  ℕ, ◌≡◌, sym, ap, ◌∙◌, List, [], ◌∷◌, ◌++◌, append_assoc, Option, Text, str, All,
}
use ruprizzle_orm.Dialect.{Dialect, postgres, sqlite, mysql, upsert_clause}
use ruprizzle_orm.Compile.Value.{Foreign, Value}
use ruprizzle_orm.Compile.Filter.{FilterNode, CompiledSql, OrderBy, AggregateKind, AggregateEntry}
use ruprizzle_orm.Compile.State.{◌⨾◌, new, finish, push_str, push_quoted, separated}
use ruprizzle_orm.Compile.Clauses.{
  push_returning, averaged, push_aggregated, push_aggregate, push_order, push_where,
}
use ruprizzle_orm.Compile.Clauses.Numbering.{IsOrder, IsAggregate}
use ruprizzle_orm.Compile.Select.{
  Model, push_group_by, push_window_order, aggregate_steps, aggregate_select, partitioned_steps,
  row_number_alias, select_partitioned,
}
use ruprizzle_orm.Compile.Select.Numbering.{aggregate-IsStatement, partitioned-IsStatement}
use ruprizzle_orm.Compile.Write.{
  Assignment, push_into, push_row, insert_steps, insert, upsert_steps, upsert, delete,
}
use ruprizzle_orm.Compile.Write.Numbering.{
  HasColumn, insert-IsStatement, upsert-IsStatement, delete-IsStatement,
}
use ruprizzle_orm.Compile.Predicate.Numbering.{HasNames}
use ruprizzle_orm.Compile.Subquery.Embed.{IsStatement}
use ruprizzle_orm.Compile.Numbering.{IsName}
use ruprizzle_orm.Compile.Binds.Returning.{
  returning_clause, push_returning-sql, push_returning-none,
}
use ruprizzle_orm.Compile.Binds.{
  Binds, Silent, silent_rules, binds_rules, gather, Silent-push_str, Silent-push_quoted,
  Silent-push_column, Silent-separated, Binds-separated, Binds-⨾, Binds-before, Binds-behind,
}
use ruprizzle_orm.Compile.Binds.Filter.{filter_values}
use ruprizzle_orm.Compile.Binds.Statements.{
  order_values, Binds-push_where, Silent-push_number, Silent-push_returning, Silent-push_columns,
  Silent-push_all_columns, Binds-push_order_entry, Binds-push_order_by,
}
use ruprizzle_orm.Compile.Binds.Writes.{row_values, Silent-push_into, Binds-push_row, insert-binds}

-- A statement with one run of markers, one for each of these values, in this order.
abbrev pub Carries : {F : Foreign} → Dialect → CompiledSql F → List (Value F) → Type 0
Carries d s vs = IsStatement d s × (s.binds ≡ vs)

Silent-averaged :
    {F : Foreign} (d : Dialect) (table column : Text) → Silent {F = F} (averaged d table column)
unfolding averaged
Silent-averaged postgres table column = search silent_rules
Silent-averaged sqlite table column = search silent_rules
Silent-averaged mysql table column = search silent_rules

module _ {F : Foreign} (d : Dialect) where
  Silent-push_aggregated :
      (kind : AggregateKind) (table column : Text)
      → Silent {F = F} (push_aggregated d kind table column)
  unfolding push_aggregated
  Silent-push_aggregated AggregateKind.sum table column = Silent-push_column d table column
  Silent-push_aggregated AggregateKind.avg table column = Silent-averaged d table column
  Silent-push_aggregated AggregateKind.min table column = Silent-push_column d table column
  Silent-push_aggregated AggregateKind.max table column = Silent-push_column d table column
  Silent-push_aggregated AggregateKind.count table column = Silent-push_column d table column
  Silent-push_aggregated AggregateKind.count_distinct table column = search silent_rules

  Silent-push_aggregate : (agg : AggregateEntry) → Silent {F = F} (push_aggregate d agg)
  unfolding push_aggregate
  Silent-push_aggregate agg = search (silent_rules, Silent-push_aggregated) depth 10

  Silent-push_group_by :
      (table : Text) (group_by : List Text) → Silent {F = F} (push_group_by d table group_by)
  unfolding push_group_by
  Silent-push_group_by table [] = search silent_rules
  Silent-push_group_by table (g ∷ group_by) = search (silent_rules, Silent-push_columns)

  Binds-push_window_order :
      (table primary_key : Text) (order : List OrderBy)
      → Binds {F = F} (push_window_order d table primary_key order) (gather order_values order)
  unfolding push_window_order push_order
  Binds-push_window_order table primary_key [] = unfold gather in search binds_rules
  Binds-push_window_order table primary_key (o ∷ order) =
      Binds-separated (str ", ") _ order_values (o ∷ order) (Binds-push_order_entry d)

  -- An aggregate query, with names free of `$` and `?` and such filters and order, binds the
  -- values of its WHERE, then those of its HAVING, then those of its ORDER BY; it has the markers
  -- 1, 2, …, one for each of them, and begins with no digit.
  pub aggregate-Carries :
      (table : Text) (aggregates : List AggregateEntry) (filter : FilterNode F)
      (group_by : List Text) (having : FilterNode F) (order : List OrderBy)
      (limit offset : Option ℕ)
      → IsName table
      → All IsAggregate aggregates
      → HasNames d filter
      → All IsName group_by
      → HasNames d having
      → All IsOrder order
      → Carries d
          (aggregate_select d table aggregates filter group_by having order limit offset)
          (filter_values d filter ++ (filter_values d having ++ gather order_values order))
  unfolding aggregate_select aggregate_steps finish
  aggregate-Carries table aggregates filter group_by having order limit offset ht ha hf hg hh ho =
      let a : Silent {F = F} (separated (str ", ") (push_aggregate d) aggregates) =
        Silent-separated (str ", ") _ aggregates Silent-push_aggregate in
      let k : Binds
          (push_str (str "SELECT ")
            ⨾ aggregate_steps d table aggregates filter group_by having order limit offset)
          (filter_values d filter ++ (filter_values d having ++ gather order_values order)) =
        Binds-behind _ _ _ (Silent-push_str _) (
          Binds-behind _ _ _ a (
            Binds-behind _ _ _ (Silent-push_str _) (
              Binds-behind _ _ _ (Silent-push_quoted d table) (
                Binds-⨾ _ _ (filter_values d filter) _ (Binds-push_where d _ filter) (
                  Binds-behind _ _ _ (Silent-push_group_by table group_by) (
                    Binds-⨾ _ _ (filter_values d having) _ (Binds-push_where d _ having) (
                      Binds-before _ _ _ (Binds-push_order_by d order)
                        (search (silent_rules, Silent-push_number))))))))) in
      (
        aggregate-IsStatement d table aggregates filter group_by having order limit offset ht ha hf
            hg hh ho,
        k.at new,
      )

  -- The query for the first rows of each group, with names free of `$` and `?` and such a filter
  -- and order, binds the values of the order of its window, then those of its filter; it has the
  -- markers 1, 2, …, one for each of them, and begins with no digit.
  pub partitioned-Carries :
      (m : Model) (table partition_by : Text) (filter : FilterNode F) (order : List OrderBy)
      (take : ℕ)
      → All IsName m.columns
      → IsName m.primary_key
      → IsName table
      → IsName partition_by
      → HasNames d filter
      → All IsOrder order
      → Carries d
          (select_partitioned d m table partition_by filter order take)
          (gather order_values order ++ filter_values d filter)
  unfolding select_partitioned partitioned_steps finish
  partitioned-Carries m table partition_by filter order take hc hk ht hp hf ho =
      let k : Binds
          (push_str (str "SELECT * FROM (SELECT ")
            ⨾ partitioned_steps d m table partition_by filter order take)
          (gather order_values order ++ filter_values d filter) =
        Binds-behind _ _ _ (Silent-push_str _) (
          Binds-behind _ _ _ (Silent-push_all_columns d table m.columns) (
            Binds-behind _ _ _ (Silent-push_str _) (
              Binds-behind _ _ _ (Silent-push_column d table partition_by) (
                Binds-behind _ _ _ (Silent-push_str _) (
                  Binds-⨾ _ _ (gather order_values order) _
                    (Binds-push_window_order table m.primary_key order)
                    (Binds-behind _ _ _ (Silent-push_str _) (
                      Binds-behind _ _ _ (Silent-push_quoted d row_number_alias) (
                        Binds-behind _ _ _ (Silent-push_str _) (
                          Binds-behind _ _ _ (Silent-push_quoted d table) (
                            Binds-before _ _ _ (Binds-push_where d _ filter)
                              (search silent_rules depth 14))))))))))) in
      (partitioned-IsStatement d m table partition_by filter order take hc hk ht hp hf ho, k.at new)

  -- `INSERT`, with names free of `$` and `?`, binds the values of the row in the order of its
  -- columns; it has the markers 1, 2, …, one for each of them, and begins with no digit.
  pub insert-Carries :
      (table : Text) (values : List (Assignment F)) (returning : List Text)
      → IsName table
      → All HasColumn values
      → All IsName returning
      → Carries d (insert d table values returning) (row_values values)
  insert-Carries table values returning ht hv hr =
      (insert-IsStatement d table values returning ht hv hr, insert-binds d table values returning)

  -- `DELETE`, with names free of `$` and `?` and such a filter, binds the values of its filter; it
  -- has the markers 1, 2, …, one for each of them, and begins with no digit.
  pub delete-Carries :
      (table : Text) (filter : FilterNode F) (returning : List Text)
      → IsName table
      → HasNames d filter
      → All IsName returning
      → Carries d (delete d table filter returning) (filter_values d filter)
  unfolding delete finish
  delete-Carries table filter returning ht hf hr =
      let k : Binds
          (push_str (str "DELETE FROM ")
            ⨾ push_quoted d table
            ⨾ push_where d (str " WHERE ") filter
            ⨾ push_returning d returning)
          (filter_values d filter) =
        Binds-behind _ _ _ (Silent-push_str _) (
          Binds-behind _ _ _ (Silent-push_quoted d table) (
            Binds-before _ _ _ (Binds-push_where d _ filter)
              (Silent-push_returning d returning))) in
      (delete-IsStatement d table filter returning ht hf hr, k.at new)

  upsert-binds :
      (table : Text) (values : List (Assignment F)) (conflict updated returning : List Text)
      → (upsert d table values conflict updated returning).binds ≡ row_values values
  unfolding upsert upsert_steps finish
  upsert-binds table values conflict updated returning =
      let k : Binds
          (push_str (str "INSERT INTO ") ⨾ upsert_steps d table values conflict updated returning)
          (row_values values) =
        search (binds_rules, Silent-push_into, Binds-push_row, Silent-push_returning) depth 10 in
      k.at new

  -- The statement of `insert` behind which the clause stands.
  upsert-sql :
      (table : Text) (values : List (Assignment F)) (conflict updated returning : List Text)
      → (upsert d table values conflict updated returning).sql
        ≡ (insert d table values []).sql
          ++ (str " " ++ (upsert_clause d conflict updated ++ returning_clause F d returning))
  unfolding upsert upsert_steps insert insert_steps finish ◌⨾◌ push_str
  upsert-sql table values conflict updated returning =
      let c = push_row d values (push_into d table values (push_str (str "INSERT INTO ") new)) in
      let clause = upsert_clause d conflict updated in
      push_returning-sql d returning (record c { sql = (c.sql ++ str " ") ++ clause })
      ∙ append_assoc (c.sql ++ str " ") clause (returning_clause F d returning)
      ∙ append_assoc c.sql (str " ") (clause ++ returning_clause F d returning)
      ∙ ap (λ t. t ++ (str " " ++ (clause ++ returning_clause F d returning)))
          (sym (push_returning-none d c))

  -- An upsert, with names free of `$` and `?`, those of the conflict and update columns included,
  -- binds the values of the row in the order of its columns; it has the markers 1, 2, …, one for
  -- each of them, and begins with no digit. Its text is that of the `INSERT` of the row with no
  -- RETURNING, a space, the dialect's upsert clause for the conflict and update columns, and the
  -- RETURNING clause.
  pub upsert-Carries :
      (table : Text) (values : List (Assignment F)) (conflict updated returning : List Text)
      → IsName table
      → All HasColumn values
      → All IsName conflict
      → All IsName updated
      → All IsName returning
      → Carries d (upsert d table values conflict updated returning) (row_values values)
        × ((upsert d table values conflict updated returning).sql
            ≡ (insert d table values []).sql
              ++ (str " " ++ (upsert_clause d conflict updated ++ returning_clause F d returning)))
  upsert-Carries table values conflict updated returning ht hv hc hu hr = (
    (
      upsert-IsStatement d table values conflict updated returning ht hv hc hu hr,
      upsert-binds table values conflict updated returning,
    ),
    upsert-sql table values conflict updated returning,
  )
