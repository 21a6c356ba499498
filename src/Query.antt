-- ===== src/Query.antt =====
-- crates/runtime/src/query.rs: `SelectQuery`, from the builder's fields to the statement. The
-- executor is its dialect, and the recording of the statement in `query_manifest` is left out.
pub mod Deleted
pub mod Numbering
pub mod Refused
use ruprizzle_orm.Base.{
  ℕ, Bool, true, false, ◌&&◌, not, List, [], ◌∷◌, Option, none, some, Text, str, ◌++◌, is_empty,
  if◌then◌else◌,
}
use ruprizzle_orm.Dialect.{Dialect, postgres, sqlite, mysql}
use ruprizzle_orm.Compile.Value.{Foreign}
use ruprizzle_orm.Compile.Filter.{FilterNode, FilterNodes, CompiledSql, OrderBy, JoinKind, Cte}
use ruprizzle_orm.Compile.Predicate.{is_no_filter}
use ruprizzle_orm.Compile.Select.{Model, select, join_select_with_columns, right_qualifier}
use ruprizzle_orm.Compile.Compound.{with_cte_prefix}
use ruprizzle_orm.Filters.{filter_and}

pub record JoinSpec (F : Foreign) : Type 0 where
  pub kind : JoinKind
  pub right_table : Text
  pub right_columns : List Text
  pub right_alias : Option Text
  pub on : FilterNode F
  pub right_deleted_at : Option Text

pub record SelectQuery (F : Foreign) : Type 0 where
  pub filter : FilterNode F
  pub projection : List Text
  pub order : List OrderBy
  pub limit : Option ℕ
  pub offset : Option ℕ
  pub distinct : Bool
  pub ctes : List (Cte F)
  pub join : Option (JoinSpec F)
  pub with_deleted : Bool
  pub only_deleted : Bool

pub data Error : Type 0 where
  message : Text → Error

pub data Result (A : Type 0) : Type 0 where
  ok : A → Result A
  err : Error → Result A

unfoldable pub supports_right_join : Dialect → Bool
supports_right_join postgres = true
supports_right_join sqlite = false
supports_right_join mysql = true

unfoldable pub supports_full_join : Dialect → Bool
supports_full_join postgres = true
supports_full_join sqlite = false
supports_full_join mysql = false

unfoldable pub dialect_name : Dialect → Text
dialect_name postgres = str "postgres"
dialect_name sqlite = str "sqlite"
dialect_name mysql = str "mysql"

unfoldable pub unsupported : Dialect → Text → Error
unsupported d what = message (what ++ (str " is not supported by " ++ dialect_name d))

unfoldable pub check_join_kind : Dialect → JoinKind → Result Unit
unfolding supports_right_join supports_full_join
check_join_kind d JoinKind.inner = ok tt
check_join_kind d JoinKind.left = ok tt
check_join_kind d JoinKind.right =
    if supports_right_join d then ok tt else err (unsupported d (str "RIGHT JOIN"))
check_join_kind d JoinKind.full =
    if supports_full_join d then ok tt else err (unsupported d (str "FULL OUTER JOIN"))

-- `Option::is_some`
unfoldable pub is_some : Option ℕ → Bool
is_some none = false
is_some (some n) = true

module _ {F : Foreign} where
  unfoldable pub check_join_support : Dialect → Option (JoinSpec F) → Result Unit
  check_join_support d none = ok tt
  check_join_support d (some join) = check_join_kind d join.kind

  -- `SelectQuery::with_deleted` and `SelectQuery::only_deleted`.
  unfoldable pub with_deleted : SelectQuery F → SelectQuery F
  with_deleted self = record self { with_deleted = true; only_deleted = false }

  unfoldable pub only_deleted : SelectQuery F → SelectQuery F
  only_deleted self = record self { with_deleted = false; only_deleted = true }

  -- The soft-delete filter that `with_deleted` and `only_deleted` call for.
  unfoldable pub deleted_filter : Text → Option Text → Bool → Bool → FilterNode F → FilterNode F
  deleted_filter table none with_deleted only_deleted filter = filter
  deleted_filter table (some col) true only_deleted filter = filter
  deleted_filter table (some col) false true filter =
      filter_and filter (FilterNode.is_null table col true)
  deleted_filter table (some col) false false filter =
      filter_and filter (FilterNode.is_null table col false)

  unfoldable pub effective_filter : Model → SelectQuery F → FilterNode F
  unfolding deleted_filter
  effective_filter m self =
      deleted_filter m.table m.deleted_at_column self.with_deleted self.only_deleted self.filter

  unfoldable pub is_full_table : SelectQuery F → Bool
  is_full_table self =
      is_empty self.ctes
      && not (is_some self.limit)
      && not (is_some self.offset)
      && not self.distinct
      && is_no_filter self.filter

  -- The `ON` of a join, with the soft-delete filter of its right side.
  unfoldable pub join_on : Bool → JoinSpec F → Option Text → FilterNode F
  join_on true join deleted = join.on
  join_on false join none = join.on
  join_on false join (some column) = FilterNode.and_all (
      FilterNodes.cons join.on (
        FilterNodes.cons
          (FilterNode.is_null (right_qualifier join.right_alias join.right_table) column false)
          FilterNodes.nil))

  -- The statement of a query whose join is supported.
  unfoldable pub statement : Dialect → Model → SelectQuery F → Option (JoinSpec F) → CompiledSql F
  statement d m self none =
      select d m.columns m.table self.projection (effective_filter m self) self.order self.limit
        self.offset self.distinct
  statement d m self (some join) =
      join_select_with_columns d m.table m.columns join.right_table join.right_columns
        join.right_alias join.kind (join_on self.with_deleted join join.right_deleted_at)
        (effective_filter m self) self.order self.limit self.offset self.distinct

  -- `?` behind the check of the join.
  unfoldable pub when_supported : Result Unit → CompiledSql F → Result (CompiledSql F)
  when_supported (ok u) s = ok s
  when_supported (err e) s = err e

  unfoldable pub to_sql_without_cte : Dialect → Model → SelectQuery F → Result (CompiledSql F)
  unfolding check_join_support when_supported
  to_sql_without_cte d m self =
      when_supported (check_join_support d self.join) (statement d m self self.join)

  unfoldable pub with_ctes :
      Dialect → List (Cte F) → Result (CompiledSql F) → Result (CompiledSql F)
  with_ctes d ctes (ok main) = ok (with_cte_prefix d ctes main)
  with_ctes d ctes (err e) = err e

  unfoldable pub to_sql : Dialect → Model → SelectQuery F → Result (CompiledSql F)
  unfolding with_ctes
  to_sql d m self = with_ctes d self.ctes (to_sql_without_cte d m self)
