-- ===== src/Examples.antt =====
-- Concrete models, filters and statements, on which the theorems about crates/runtime/src/compile.rs,
-- filter.rs, query.rs and crates/dialect are applied.
mod Statements
mod Queries
mod Values
mod Caching
mod Naming
mod Migrations
mod Runs
mod Carried
use ruprizzle_orm.Base.{ℕ, Bool, true, false, List, [], ◌∷◌, Option, none, some, Text, str}
use ruprizzle_orm.Dialect.{Dialect, postgres, sqlite, mysql}
use ruprizzle_orm.Compile.Value.{Foreign, Value, ℤ, JsonView}
use ruprizzle_orm.Compile.Filter.{
  CmpOp, JsonFilterOp, JsonPathSegment, FilterNode, FilterNodes, CompiledSql, OrderBy, JoinKind,
  AggregateKind, AggregateEntry, Cte, SetOp,
}
use ruprizzle_orm.Compile.Select.{Model}
use ruprizzle_orm.Query.{SelectQuery, JoinSpec}

-- Documents that are their own views, and numbers for floats.
abbrev pub plain_types : Foreign
plain_types = record {
  F64 = ℕ;
  zero_f64 = 0;
  Decimal = Unit;
  Uuid = Unit;
  DateTime = Unit;
  Date = Unit;
  Time = Unit;
  Json = JsonView ℕ;
  view = λ j. j;
}

abbrev pub users : Text
users = str "users"

abbrev pub older_than : ℕ → FilterNode plain_types
older_than n = FilterNode.cmp users (str "age") CmpOp.gt (Value.i64 (ℤ.pos n))

abbrev pub named : Text → FilterNode plain_types
named s = FilterNode.cmp users (str "name") CmpOp.eq (Value.str s)

abbrev pub no_filter : FilterNode plain_types
no_filter = FilterNode.and_all FilterNodes.nil

-- A statement with one value.
abbrev pub ids : CompiledSql plain_types
ids = record { sql = str "SELECT id FROM t WHERE a = $1"; binds = Value.bool true ∷ [] }

abbrev pub adult_or_listed : FilterNode plain_types
adult_or_listed = FilterNode.or_all (
    FilterNodes.cons (older_than 18)
      (FilterNodes.cons (FilterNode.in_subquery users (str "id") ids false) FilterNodes.nil))

abbrev pub by_name : OrderBy
by_name = record {
  table = users;
  column = str "name";
  desc = true;
  json_path = none;
  text = false;
  spatial_distance = none;
}

abbrev pub total_age : AggregateEntry
total_age = record {
  table = users;
  column = str "age";
  kind = AggregateKind.avg;
  alias = str "mean";
}

abbrev pub user : Model
user = record {
  table = users;
  primary_key = str "id";
  columns = str "id" ∷ str "name" ∷ [];
  deleted_at_column = some (str "deleted_at");
}

abbrev pub listed : Cte plain_types
listed = record { name = str "listed"; compiled = ids; recursive = false }

abbrev pub posts : JoinSpec plain_types
posts = record {
  kind = JoinKind.left;
  right_table = str "posts";
  right_columns = str "title" ∷ [];
  right_alias = some (str "p");
  on = FilterNode.column_cmp (str "p") (str "user_id") CmpOp.eq users (str "id");
  right_deleted_at = some (str "deleted_at");
}

abbrev pub adults_with_posts : SelectQuery plain_types
adults_with_posts = record {
  filter = adult_or_listed;
  projection = [];
  order = by_name ∷ [];
  limit = some 10;
  offset = none;
  distinct = true;
  ctes = listed ∷ [];
  join = some posts;
  with_deleted = false;
  only_deleted = false;
}
