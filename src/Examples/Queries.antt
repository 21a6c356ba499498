-- ===== src/Examples/Queries.antt =====
-- The theorems about filters and queries, on the queries of Examples
-- (crates/runtime/src/filter.rs, crates/runtime/src/query.rs).
use ruprizzle_orm.Base.{◌≡◌, ◌↔◌, refl, some, str}
use ruprizzle_orm.Dialect.{postgres, sqlite}
use ruprizzle_orm.Compile.Filter.{FilterNode, FilterNodes, CompiledSql}
use ruprizzle_orm.Compile.Subquery.Embed.{IsStatement}
use ruprizzle_orm.Filters.{flatten_and, flatten_or, filter_and, filter_or, filter_not}
use ruprizzle_orm.Filters.Meaning.{
  Truth, yes, no, unknown, both, truth, truth_and, truth_or, truth-flatten, de_morgan,
}
use ruprizzle_orm.Query.{
  message, SelectQuery, ok, err, with_deleted, only_deleted, effective_filter, check_join_support,
  check_join_kind, to_sql,
}
use ruprizzle_orm.Query.Deleted.{effective_filter-live, effective_filter-flags}
use ruprizzle_orm.Query.Numbering.{IsModel, IsJoin, IsQuery, to_sql-IsStatement}
use ruprizzle_orm.Query.Refused.{Refused, to_sql-error}
use ruprizzle_orm.Compile.Filter.{JoinKind}
use ruprizzle_orm.Examples.{
  plain_types, older_than, named, adult_or_listed, user, posts, adults_with_posts,
}
use ruprizzle_orm.Examples.Statements.{adult-HasNames, by_name-IsOrder, listed-IsCte}

-- A row in which every comparison is unknown, every null test fails, and the rest holds.
abbrev in_row : FilterNode plain_types → Truth
in_row (FilterNode.cmp table column op value) = unknown
in_row (FilterNode.is_null table column negated) = no
in_row _ = yes

abbrev two : FilterNodes plain_types
two =
    FilterNodes.cons (filter_and (older_than 18) (named (str "Ada")))
      (FilterNodes.cons adult_or_listed FilterNodes.nil)

truth-flatten_example :
    (truth in_row (flatten_and two) ≡ truth_and in_row two)
    × (truth in_row (flatten_or two) ≡ truth_or in_row two)
truth-flatten_example = truth-flatten in_row two

de_morgan_example :
    truth in_row (filter_not (filter_and (older_than 18) adult_or_listed))
    ≡ truth in_row (filter_or (filter_not (older_than 18)) (filter_not adult_or_listed))
de_morgan_example = de_morgan in_row (older_than 18) adult_or_listed

user-IsModel : IsModel user
user-IsModel = record { table = refl; columns = (refl, (refl, tt)); deleted_at = refl }

posts-IsJoin : IsJoin postgres posts
posts-IsJoin = record {
  right_table = refl;
  right_columns = (refl, tt);
  right_alias = refl;
  on = ((refl, refl), (refl, refl));
  right_deleted_at = refl;
}

adults_with_posts-IsQuery : IsQuery postgres adults_with_posts
adults_with_posts-IsQuery = record {
  filter = adult-HasNames;
  projection = tt;
  order = (by_name-IsOrder, tt);
  ctes = (listed-IsCte, tt);
  join = posts-IsJoin;
}

left_join-ok : check_join_support postgres (adults_with_posts.join) ≡ ok tt
unfolding check_join_support check_join_kind
left_join-ok = refl

to_sql-IsStatement_example :
    (s : CompiledSql plain_types) × (to_sql postgres user adults_with_posts ≡ ok s)
    × IsStatement postgres s
to_sql-IsStatement_example =
    to_sql-IsStatement postgres user adults_with_posts user-IsModel adults_with_posts-IsQuery
      left_join-ok

-- The same query over a RIGHT join, which SQLite does not have.
abbrev right_join : SelectQuery plain_types
right_join = record adults_with_posts { join = some (record posts { kind = JoinKind.right }) }

to_sql-error_example :
    (to_sql sqlite user right_join ≡ err (message (str "RIGHT JOIN is not supported by sqlite")))
    ↔ Refused sqlite (right_join.join) (message (str "RIGHT JOIN is not supported by sqlite"))
to_sql-error_example =
    to_sql-error sqlite user right_join (message (str "RIGHT JOIN is not supported by sqlite"))

-- It does not compile.
right_join-fails :
    to_sql sqlite user right_join ≡ err (message (str "RIGHT JOIN is not supported by sqlite"))
right_join-fails =
    (to_sql-error sqlite user right_join (message (str "RIGHT JOIN is not supported by sqlite"))).1
      refl

effective_filter-live_example : truth in_row (effective_filter user adults_with_posts) ≡ no
effective_filter-live_example =
    effective_filter-live in_row user adults_with_posts (str "deleted_at") refl refl refl refl

effective_filter-flags_example :
    (truth in_row (effective_filter user (only_deleted adults_with_posts))
      ≡ both (truth in_row adult_or_listed) no)
    × (truth in_row (effective_filter user (with_deleted (only_deleted adults_with_posts)))
        ≡ truth in_row adult_or_listed)
effective_filter-flags_example =
    effective_filter-flags in_row user adults_with_posts (str "deleted_at") refl
