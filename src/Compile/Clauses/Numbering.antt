-- ===== src/Compile/Clauses/Numbering.antt =====
-- The markers of the clauses that statements share (crates/runtime/src/compile.rs).
use ruprizzle_orm.Base.{ℕ, ◌≡◌, refl, true, List, [], ◌∷◌, Option, none, some, Text, str, All}
use ruprizzle_orm.Dialect.{Dialect, postgres, sqlite, mysql}
use ruprizzle_orm.Compile.Value.{Foreign}
use ruprizzle_orm.Compile.Filter.{FilterNode, JsonPath, OrderBy, AggregateKind, AggregateEntry}
use ruprizzle_orm.Compile.Markers.{is_chunk, stops, IsNumbered-chunk, IsNumbered-nil}
use ruprizzle_orm.Compile.State.{Step, ◌⨾◌, push_str, new, finish}
use ruprizzle_orm.Compile.Json.Numbering.{IsSegment}
use ruprizzle_orm.Compile.JsonPredicate.Numbering.{Keeps-push_json_expr}
use ruprizzle_orm.Compile.Spatial.Numbering.{Keeps-on_geometry}
use ruprizzle_orm.Compile.Predicate.{push_filter}
use ruprizzle_orm.Compile.Predicate.Numbering.{HasNames, Keeps-push_filter}
use ruprizzle_orm.Compile.Subquery.Embed.{IsStatement}
use ruprizzle_orm.Compile.Clauses.{
  sql_fn, distance_end, push_columns, push_where, push_number, push_returned, push_returning,
  order_target, push_order_entry, push_order, push_order_by, averaged, push_aggregated,
  push_aggregate,
}
use ruprizzle_orm.Compile.Numbering.{
  Keeps, keeps_rules, IsName, is_plain, is_headed, Keeps-separated-All, Keeps-push_column,
}
use ruprizzle_orm.Compile.Numbering.After.{after_rules, is_word}

abbrev IsPath : Option JsonPath → Type 0
IsPath none = Unit
IsPath (some path) = All IsSegment path

-- The names of an `ORDER BY` entry are free of marker characters.
pub record IsOrder (o : OrderBy) : Type 0 where
  pub table : IsName o.table
  pub column : IsName o.column
  pub json_path : IsPath o.json_path

pub record IsAggregate (a : AggregateEntry) : Type 0 where
  pub table : IsName a.table
  pub column : IsName a.column
  pub alias : IsName a.alias

is_plain-sql_fn : (k : AggregateKind) → is_plain (sql_fn k) ≡ true
unfolding sql_fn
is_plain-sql_fn AggregateKind.sum = refl
is_plain-sql_fn AggregateKind.avg = refl
is_plain-sql_fn AggregateKind.min = refl
is_plain-sql_fn AggregateKind.max = refl
is_plain-sql_fn AggregateKind.count = refl
is_plain-sql_fn AggregateKind.count_distinct = refl

is_plain-distance_end : (d : Dialect) → is_plain (distance_end d) ≡ true
unfolding distance_end
is_plain-distance_end postgres = refl
is_plain-distance_end sqlite = refl
is_plain-distance_end mysql = refl

Keeps-averaged :
    {F : Foreign} (d : Dialect) (table column : Text)
    → IsName table
    → IsName column
    → Keeps {F = F} d (averaged d table column)
unfolding averaged
Keeps-averaged postgres table column ht hc = search keeps_rules
Keeps-averaged sqlite table column ht hc = search keeps_rules
Keeps-averaged mysql table column ht hc = search keeps_rules

module _ {F : Foreign} {d : Dialect} where
  pub Keeps-push_columns :
      (table : Text) (columns : List Text)
      → IsName table
      → All IsName columns
      → Keeps {F = F} d (push_columns d table columns)
  unfolding push_columns
  Keeps-push_columns table columns ht hc =
      Keeps-separated-All IsName (str ", ") _ columns refl hc
        (λ column h. Keeps-push_column table column ht h)

  pub Keeps-push_where :
      (keyword : Text) (filter : FilterNode F)
      → is_plain keyword ≡ true
      → HasNames d filter
      → Keeps d (push_where d keyword filter)
  unfolding push_where
  Keeps-push_where keyword filter e h =
      let k : Keeps d (push_filter d filter) = Keeps-push_filter d filter h in search keeps_rules

  pub Keeps-push_number :
      (keyword : Text) (n : Option ℕ)
      → is_word keyword ≡ true
      → Keeps {F = F} d (push_number d keyword n)
  unfolding push_number
  Keeps-push_number keyword none e = search keeps_rules
  Keeps-push_number keyword (some n) e = search after_rules

  Keeps-push_returned : (col : Text) → IsName col → Keeps {F = F} d (push_returned d col)
  unfolding push_returned
  Keeps-push_returned col h = search keeps_rules

  pub Keeps-push_returning :
      (returning : List Text) → All IsName returning → Keeps {F = F} d (push_returning d returning)
  unfolding push_returning
  Keeps-push_returning returning h =
      let k =
        Keeps-separated-All {F = F} {d = d} IsName (str ", ") (push_returned d) returning refl h
          Keeps-push_returned in
      search keeps_rules

  Keeps-order_target :
      (distance : Option Text) (path : Option JsonPath) (o : OrderBy)
      → IsName o.table
      → IsName o.column
      → IsPath path
      → Keeps {F = F} d (order_target d distance path o)
  unfolding order_target
  Keeps-order_target (some geom) path o ht hc h =
      Keeps-on_geometry o.table o.column ht hc d _ geom _ refl (is_plain-distance_end d)
  Keeps-order_target none (some path) o ht hc h =
      Keeps-push_json_expr o.table o.column ht hc d path o.text h
  Keeps-order_target none none o ht hc h = Keeps-push_column o.table o.column ht hc

  Keeps-push_order_entry : (o : OrderBy) → IsOrder o → Keeps {F = F} d (push_order_entry d o)
  unfolding push_order_entry
  Keeps-push_order_entry o h =
      let k : Keeps {F = F} d (order_target d o.spatial_distance o.json_path o) =
        Keeps-order_target o.spatial_distance o.json_path o h.table h.column h.json_path in
      search keeps_rules

  pub Keeps-push_order :
      (order : List OrderBy) → All IsOrder order → Keeps {F = F} d (push_order d order)
  unfolding push_order
  Keeps-push_order order h =
      Keeps-separated-All IsOrder (str ", ") _ order refl h Keeps-push_order_entry

  pub Keeps-push_order_by :
      (order : List OrderBy) → All IsOrder order → Keeps {F = F} d (push_order_by d order)
  unfolding push_order_by
  Keeps-push_order_by [] h = search keeps_rules
  Keeps-push_order_by (o ∷ order) h =
      let k : Keeps {F = F} d (push_order d (o ∷ order)) = Keeps-push_order (o ∷ order) h in
      search keeps_rules

  Keeps-push_aggregated :
      (k : AggregateKind) (table column : Text)
      → IsName table
      → IsName column
      → Keeps {F = F} d (push_aggregated d k table column)
  unfolding push_aggregated
  Keeps-push_aggregated AggregateKind.count_distinct table column ht hc = search keeps_rules
  Keeps-push_aggregated AggregateKind.avg table column ht hc = Keeps-averaged d table column ht hc
  Keeps-push_aggregated _ table column ht hc = search keeps_rules

  pub Keeps-push_aggregate :
      (a : AggregateEntry) → IsAggregate a → Keeps {F = F} d (push_aggregate d a)
  unfolding push_aggregate
  Keeps-push_aggregate a h =
      let e : is_plain (sql_fn a.kind) ≡ true = is_plain-sql_fn a.kind in
      let k : Keeps {F = F} d (push_aggregated d a.kind a.table a.column) =
        Keeps-push_aggregated a.kind a.table a.column h.table h.column in
      let ha : IsName a.alias = h.alias in search keeps_rules depth 10

is_headed-stops : (s : Text) → is_headed s ≡ true → stops s ≡ true
is_headed-stops [] h = refl
is_headed-stops (c ∷ s) h = h

-- A statement that is pushed from nothing, behind its first word.
pub IsStatement-finish :
    {F : Foreign} (d : Dialect) (s : Text) (f : Step F)
    → is_chunk d s ≡ true
    → is_headed s ≡ true
    → Keeps d f
    → IsStatement d (finish ((push_str s ⨾ f) new))
unfolding finish push_str ◌⨾◌
IsStatement-finish d s f e e' k =
    let start = push_str s new in
    record {
      numbered = k.at start (IsNumbered-chunk d [] s 0 e (IsNumbered-nil d));
      front = is_headed-stops (f start).sql (k.headed start e');
    }
