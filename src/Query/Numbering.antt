-- ===== src/Query/Numbering.antt =====
-- The statement and the errors of a query (crates/runtime/src/query.rs).
use ruprizzle_orm.Base.{◌≡◌, ◌↔◌, refl, Bool, true, false, List, Option, none, some, Text, All}
use ruprizzle_orm.Dialect.{Dialect}
use ruprizzle_orm.Compile.Value.{Foreign}
use ruprizzle_orm.Compile.Filter.{FilterNode, FilterNodes, CompiledSql, Cte}
use ruprizzle_orm.Compile.Numbering.{IsName}
use ruprizzle_orm.Compile.Predicate.Numbering.{HasNames, AllHaveNames}
use ruprizzle_orm.Compile.Subquery.Embed.{IsStatement}
use ruprizzle_orm.Compile.Clauses.Numbering.{IsOrder}
use ruprizzle_orm.Compile.Select.{Model}
use ruprizzle_orm.Compile.Select.Numbering.{
  IsAlias, IsName-right_qualifier, select-IsStatement, join-IsStatement,
}
use ruprizzle_orm.Compile.Compound.{with_cte_prefix}
use ruprizzle_orm.Compile.Compound.Numbering.{IsCte, with_cte_prefix-IsStatement}
use ruprizzle_orm.Filters.{extend, and_parts, spread_and, flatten_and, filter_and}
use ruprizzle_orm.Query.{
  Error, Result, ok, err, JoinSpec, SelectQuery, deleted_filter, effective_filter,
  check_join_support, join_on, statement, to_sql_without_cte, to_sql, when_supported, with_ctes,
}

-- A text that may be missing holds no marker character.
abbrev pub IsColumn : Option Text → Type 0
IsColumn none = Unit
IsColumn (some col) = IsName col

pub record IsModel (m : Model) : Type 0 where
  pub table : IsName m.table
  pub columns : All IsName m.columns
  pub deleted_at : IsColumn m.deleted_at_column

pub record IsJoin {F : Foreign} (d : Dialect) (j : JoinSpec F) : Type 0 where
  pub right_table : IsName j.right_table
  pub right_columns : All IsName j.right_columns
  pub right_alias : IsAlias j.right_alias
  pub on : HasNames d j.on
  pub right_deleted_at : IsColumn j.right_deleted_at

abbrev pub MaybeJoin : {F : Foreign} → Dialect → Option (JoinSpec F) → Type 0
MaybeJoin d none = Unit
MaybeJoin d (some j) = IsJoin d j

-- The names in a query hold no marker character.
pub record IsQuery {F : Foreign} (d : Dialect) (q : SelectQuery F) : Type 0 where
  pub filter : HasNames d q.filter
  pub projection : All IsName q.projection
  pub order : All IsOrder q.order
  pub ctes : All (IsCte d) q.ctes
  pub join : MaybeJoin d q.join

module _ {F : Foreign} (d : Dialect) where
  extend-names :
      (ns ms : FilterNodes F)
      → AllHaveNames d ns
      → AllHaveNames d ms
      → AllHaveNames d (extend ns ms)
  unfolding extend
  extend-names FilterNodes.nil ms hn hm = hm
  extend-names (FilterNodes.cons n ns) ms hn hm = (hn.0, extend-names ns ms hn.1 hm)

  and_parts-names : (n : FilterNode F) → HasNames d n → AllHaveNames d (and_parts n)
  unfolding and_parts
  and_parts-names (FilterNode.and_all children) h = h
  and_parts-names other h = (h, tt)

  filter_and-names :
      (a b : FilterNode F) → HasNames d a → HasNames d b → HasNames d (filter_and a b)
  unfolding filter_and flatten_and spread_and extend
  filter_and-names a b ha hb =
      extend-names (and_parts a) (extend (and_parts b) FilterNodes.nil) (and_parts-names a ha)
        (extend-names (and_parts b) FilterNodes.nil (and_parts-names b hb) tt)

  deleted_filter-names :
      (table : Text) (col : Option Text) (w o : Bool) (f : FilterNode F)
      → IsName table
      → IsColumn col
      → HasNames d f
      → HasNames d (deleted_filter table col w o f)
  unfolding deleted_filter
  deleted_filter-names table none w o f ht hc hf = hf
  deleted_filter-names table (some col) true o f ht hc hf = hf
  deleted_filter-names table (some col) false true f ht hc hf = filter_and-names f _ hf (ht, hc)
  deleted_filter-names table (some col) false false f ht hc hf = filter_and-names f _ hf (ht, hc)

  join_on-names :
      (w : Bool) (j : JoinSpec F) (col : Option Text)
      → IsJoin d j
      → IsColumn col
      → HasNames d (join_on w j col)
  unfolding join_on
  join_on-names true j col h hc = h.on
  join_on-names false j none h hc = h.on
  join_on-names false j (some col) h hc = (
    h.on,
    ((IsName-right_qualifier j.right_alias j.right_table h.right_alias h.right_table, hc), tt),
  )

  statement-IsStatement :
      (m : Model) (q : SelectQuery F) (join : Option (JoinSpec F))
      → IsModel m
      → IsQuery d q
      → MaybeJoin d join
      → IsStatement d (statement d m q join)
  unfolding statement effective_filter
  statement-IsStatement m q none hm hq hj =
      select-IsStatement d m.columns m.table q.projection _ q.order q.limit q.offset q.distinct
        hm.columns hm.table hq.projection
        (deleted_filter-names m.table m.deleted_at_column q.with_deleted q.only_deleted q.filter
          hm.table hm.deleted_at hq.filter)
        hq.order
  statement-IsStatement m q (some j) hm hq hj =
      join-IsStatement d m.table m.columns j.right_table j.right_columns j.right_alias j.kind _ _
        q.order q.limit q.offset q.distinct hm.table hm.columns hj.right_table hj.right_columns
        hj.right_alias (join_on-names q.with_deleted j j.right_deleted_at hj hj.right_deleted_at)
        (deleted_filter-names m.table m.deleted_at_column q.with_deleted q.only_deleted q.filter
          hm.table hm.deleted_at hq.filter)
        hq.order

  pub with_ctes-error :
      (ctes : List (Cte F)) (r : Result Unit) (s : CompiledSql F) (e : Error)
      → (with_ctes d ctes (when_supported r s) ≡ err e) ↔ (r ≡ err e)
  unfolding with_ctes when_supported
  with_ctes-error ctes (ok tt) s e = (λ h. cc, λ h. cc)
  with_ctes-error ctes (err e') s e = (λ h. cc, λ h. cc)

  -- A query whose names hold no `$` and no `?`, whose raw SQL parts also begin with no digit, and
  -- whose subqueries and common table expressions are statements of their own, compiles whenever
  -- the check of its join succeeds, and the statement's markers are 1, 2, … in order, one for each
  -- value it binds; it begins with no digit.
  pub to_sql-IsStatement :
      (m : Model) (q : SelectQuery F)
      → IsModel m
      → IsQuery d q
      → check_join_support d q.join ≡ ok tt
      → (s : CompiledSql F) × (to_sql d m q ≡ ok s) × IsStatement d s
  unfolding to_sql to_sql_without_cte when_supported with_ctes
  to_sql-IsStatement m q hm hq e = (
    with_cte_prefix d q.ctes (statement d m q q.join),
    rw (e) refl,
    with_cte_prefix-IsStatement d q.ctes _ hq.ctes (statement-IsStatement m q q.join hm hq hq.join),
  )
