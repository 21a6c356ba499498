-- ===== src/Compile/Binds/Statements.antt =====
-- The values that the statements of crates/runtime/src/compile.rs bind, in the order of their markers.
use ruprizzle_orm.Base.{
  ℕ, ◌≡◌, Bool, List, [], ◌∷◌, ◌++◌, Option, none, some, Text, str, Bool-cases, inl, inr,
}
use ruprizzle_orm.Dialect.{Dialect}
use ruprizzle_orm.Compile.Value.{Foreign, Value}
use ruprizzle_orm.Compile.Filter.{FilterNode, JsonPath, OrderBy, JoinKind}
use ruprizzle_orm.Compile.State.{Compiler, ◌⨾◌, new, finish, push_str}
use ruprizzle_orm.Compile.Predicate.{is_no_filter, push_filter}
use ruprizzle_orm.Compile.Clauses.{
  push_columns, push_where, push_number, push_returned, push_returning, order_target,
  push_order_entry, push_order, push_order_by,
}
use ruprizzle_orm.Compile.Select.{
  push_distinct, push_projection, push_all_columns, push_right_columns, push_alias, select_steps,
  select, join_steps, join_select_with_columns,
}
use ruprizzle_orm.Compile.Binds.{
  Binds, Silent, silent_rules, binds_rules, gather, Silent-skip, Silent-push_str,
  Silent-push_column, Silent-separated, Silent-each_after, Binds-Silent, Binds-separated, Binds-⨾,
  Binds-before, Binds-behind,
}
use ruprizzle_orm.Compile.Binds.Leaves.{Silent-push_json_expr, Binds-on_geometry}
use ruprizzle_orm.Compile.Binds.Filter.{filter_values, no_filter_values, Binds-push_filter}

-- A distance that rows are ordered by binds its geometry.
abbrev pub distance_values : {F : Foreign} → Option Text → List (Value F)
distance_values none = []
distance_values (some geom) = Value.str geom ∷ []

abbrev pub order_values : {F : Foreign} → OrderBy → List (Value F)
order_values o = distance_values o.spatial_distance

-- The predicate that `push_filter` writes adds the values of its tree, read from left to right,
-- behind those of the statement so far, on every kind of node and every dialect. An equality test
-- with NULL binds nothing; a JSON comparison binds what the dialect compares the document as; a
-- JSON containment on SQLite and a key test on SQLite and MySQL bind nothing, as their keys are
-- written into the text; an array test binds one array on PostgreSQL and each element on the
-- others, and `has` its first value, or NULL on PostgreSQL and SQLite if there is none.
pub push_filter-binds :
    {F : Foreign} (d : Dialect) (node : FilterNode F) (c : Compiler F)
    → (push_filter d node c).binds ≡ c.binds ++ filter_values d node
push_filter-binds d node c = (Binds-push_filter d node).at c

module _ {F : Foreign} (d : Dialect) where
  pub Binds-push_where :
      (keyword : Text) (filter : FilterNode F)
      → Binds (push_where d keyword filter) (filter_values d filter)
  unfolding push_where
  Binds-push_where keyword filter = elim (Bool-cases (is_no_filter filter)) [
    | inl e ↦ rw (e) (rw (no_filter_values d filter e) (Binds-Silent _ Silent-skip))
    | inr e ↦ rw (e) (Binds-behind _ _ _ (Silent-push_str _) (Binds-push_filter d filter))
  ]

  pub Silent-push_number :
      (keyword : Text) (n : Option ℕ) → Silent {F = F} (push_number d keyword n)
  unfolding push_number
  Silent-push_number keyword none = search silent_rules
  Silent-push_number keyword (some n) = search silent_rules

  Silent-push_returned : (col : Text) → Silent {F = F} (push_returned d col)
  unfolding push_returned
  Silent-push_returned col = search silent_rules

  pub Silent-push_returning : (returning : List Text) → Silent {F = F} (push_returning d returning)
  unfolding push_returning
  Silent-push_returning returning =
      let s =
        Silent-separated {F = F} (str ", ") (push_returned d) returning Silent-push_returned in
      search silent_rules

  pub Silent-push_columns :
      (table : Text) (columns : List Text) → Silent {F = F} (push_columns d table columns)
  unfolding push_columns
  Silent-push_columns table columns =
      Silent-separated (str ", ") _ columns (Silent-push_column d table)

  Binds-order_target :
      (distance : Option Text) (path : Option JsonPath) (o : OrderBy)
      → Binds {F = F} (order_target d distance path o) (distance_values distance)
  unfolding order_target
  Binds-order_target (some geom) path o = Binds-on_geometry o.table o.column d _ geom _
  Binds-order_target none (some path) o =
      Binds-Silent _ (Silent-push_json_expr o.table o.column d path o.text)
  Binds-order_target none none o = search binds_rules

  pub Binds-push_order_entry : (o : OrderBy) → Binds {F = F} (push_order_entry d o) (order_values o)
  unfolding push_order_entry
  Binds-push_order_entry o =
      Binds-before _ _ _ (Binds-order_target o.spatial_distance o.json_path o) (search silent_rules)

  pub Binds-push_order_by :
      (order : List OrderBy) → Binds {F = F} (push_order_by d order) (gather order_values order)
  unfolding push_order_by push_order
  Binds-push_order_by [] = unfold gather in search binds_rules
  Binds-push_order_by (o ∷ order) =
      Binds-behind _ _ _ (Silent-push_str _)
        (Binds-separated (str ", ") _ order_values (o ∷ order) Binds-push_order_entry)

  Silent-push_distinct : (distinct : Bool) → Silent {F = F} (push_distinct d distinct)
  unfolding push_distinct
  Silent-push_distinct distinct = search silent_rules

  Silent-push_projection :
      (table : Text) (columns : List Text) → Silent {F = F} (push_projection d table columns)
  unfolding push_projection
  Silent-push_projection table [] = search silent_rules
  Silent-push_projection table (c ∷ columns) = Silent-push_columns table (c ∷ columns)

  pub Silent-push_all_columns :
      (table : Text) (columns : List Text) → Silent {F = F} (push_all_columns d table columns)
  unfolding push_all_columns
  Silent-push_all_columns table [] = search silent_rules
  Silent-push_all_columns table (c ∷ columns) = Silent-push_columns table (c ∷ columns)

  Silent-push_right_columns :
      (table : Text) (columns : List Text) → Silent {F = F} (push_right_columns d table columns)
  unfolding push_right_columns
  Silent-push_right_columns table [] = search silent_rules
  Silent-push_right_columns table (c ∷ columns) =
      Silent-each_after (str ", ") _ (c ∷ columns) (Silent-push_column d table)

  Silent-push_alias : (alias : Option Text) → Silent {F = F} (push_alias d alias)
  unfolding push_alias
  Silent-push_alias none = search silent_rules
  Silent-push_alias (some alias) = search silent_rules

  -- The end of a statement that reads rows.
  Binds-tail :
      (filter : FilterNode F) (order : List OrderBy) (limit offset : Option ℕ)
      → Binds
          (push_where d (str " WHERE ") filter
            ⨾ push_order_by d order
            ⨾ push_number d (str " LIMIT ") limit
            ⨾ push_number d (str " OFFSET ") offset)
          (filter_values d filter ++ gather order_values order)
  Binds-tail filter order limit offset =
      Binds-⨾ _ _ (filter_values d filter) _ (Binds-push_where _ filter)
        (Binds-before _ _ _ (Binds-push_order_by order) (search (silent_rules, Silent-push_number)))

  -- `SELECT` binds the values of its filter and then the geometries of its order.
  pub select-binds :
      (columns : List Text) (table : Text) (projection : List Text) (filter : FilterNode F)
      (order : List OrderBy) (limit offset : Option ℕ) (distinct : Bool)
      → (select d columns table projection filter order limit offset distinct).binds
        ≡ filter_values d filter ++ gather order_values order
  unfolding select select_steps finish
  select-binds columns table projection filter order limit offset distinct =
      let t = Binds-tail filter order limit offset in
      let k : Binds
          (push_str (str "SELECT ")
            ⨾ select_steps d columns table projection filter order limit offset distinct)
          (filter_values d filter ++ gather order_values order) =
        search (binds_rules, Silent-push_distinct, Silent-push_projection) depth 10 in
      k.at new

  -- A join binds the values of its ON, then those of its filter, then the geometries of its order,
  -- in that order.
  pub join-binds :
      (left_table : Text) (left_columns : List Text) (right_table : Text)
      (right_columns : List Text) (right_alias : Option Text) (join_kind : JoinKind)
      (on filter : FilterNode F) (order : List OrderBy) (limit offset : Option ℕ) (distinct : Bool)
      → (join_select_with_columns d left_table left_columns right_table right_columns right_alias
          join_kind on filter order limit offset distinct).binds
        ≡ filter_values d on ++ (filter_values d filter ++ gather order_values order)
  unfolding join_select_with_columns join_steps finish
  join-binds lt lcs rt rcs alias kind on filter order limit offset distinct =
      let t =
        Binds-⨾ _ _ (filter_values d on) _ (Binds-push_filter d on)
          (Binds-tail filter order limit offset) in
      let k : Binds
          (push_str (str "SELECT ")
            ⨾ join_steps d lt lcs rt rcs alias kind on filter order limit offset distinct)
          (filter_values d on ++ (filter_values d filter ++ gather order_values order)) =
        search
          (
            Binds-behind, silent_rules, Silent-push_distinct, Silent-push_all_columns,
            Silent-push_right_columns, Silent-push_alias,
          )
          depth 20 in
      k.at new
