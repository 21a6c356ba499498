-- ===== src/Compile/Binds/Filter.antt =====
-- The values that `push_filter` of crates/runtime/src/compile.rs binds.
use ruprizzle_orm.Base.{
  ◌≡◌, refl, Bool, true, false, ◌&&◌, ◌||◌, List, [], ◌∷◌, ◌++◌, Text, str, append-nil, Bool-cases,
  inl, inr, if◌then◌else◌,
}
use ruprizzle_orm.Dialect.{Dialect, postgres, sqlite, mysql}
use ruprizzle_orm.Compile.Value.{Foreign, Value, is_null}
use ruprizzle_orm.Compile.Filter.{
  CmpOp, JsonFilterOp, JsonPath, FilterNode, FilterNodes, CompiledSql,
}
use ruprizzle_orm.Compile.State.{Step, ◌⨾◌, skip, push_str, push_bind}
use ruprizzle_orm.Compile.Subquery.{push_subquery}
use ruprizzle_orm.Compile.Predicate.{
  is_eq, is_ne, is_no_filter, push_op, push_operand, push_in, push_not, push_raw, push_json,
  push_filter, push_filters,
}
use ruprizzle_orm.Compile.Binds.{
  Binds, Silent, silent_rules, binds_rules, Binds-Silent, Silent-skip, Binds-values, Binds-bind,
  Binds-⨾, Silent-push_str, Binds-before, Binds-behind,
}
use ruprizzle_orm.Compile.Binds.Leaves.{
  json_values, array_values, spatial_values, json_cmp_value_lem, Silent-push_json_expr,
  Binds-push_json_contains, Binds-push_json_has_key, Binds-push_full_text_match,
}
use ruprizzle_orm.Compile.Binds.Arrays.{Binds-push_array_op, Binds-push_spatial_op}

-- A comparison with NULL for equality binds nothing.
abbrev pub operand_values : {F : Foreign} → CmpOp → Value F → List (Value F)
operand_values CmpOp.eq Value.null = []
operand_values CmpOp.ne Value.null = []
operand_values op value = value ∷ []

untested : {A : Type 0} (b : Bool) (vs : List A) → (if b && (false || false) then [] else vs) ≡ vs
untested true vs = refl
untested false vs = refl

operand_values_lem :
    {F : Foreign} (op : CmpOp) (value : Value F)
    → (if is_null value && (is_eq op || is_ne op) then [] else value ∷ []) ≡ operand_values op value
unfolding is_null is_eq is_ne
operand_values_lem CmpOp.eq Value.null = refl
operand_values_lem CmpOp.ne Value.null = refl
operand_values_lem CmpOp.eq value = refl
operand_values_lem CmpOp.ne value = refl
operand_values_lem CmpOp.gt value = untested (is_null value) _
operand_values_lem CmpOp.gte value = untested (is_null value) _
operand_values_lem CmpOp.lt value = untested (is_null value) _
operand_values_lem CmpOp.lte value = untested (is_null value) _
operand_values_lem CmpOp.like value = untested (is_null value) _
operand_values_lem CmpOp.ilike value = untested (is_null value) _

-- One value for each part, as far as they go.
abbrev pub raw_values : {F : Foreign} → List Text → List (Value F) → List (Value F)
raw_values [] vs = []
raw_values (part ∷ parts) [] = []
raw_values (part ∷ parts) (v ∷ vs) = v ∷ raw_values parts vs

abbrev mutual
  -- The values of a predicate from left to right.
  pub filter_values : {F : Foreign} → Dialect → FilterNode F → List (Value F)
  filter_values d (FilterNode.cmp table column op value) = operand_values op value
  filter_values d (FilterNode.between table column lo hi) = lo ∷ hi ∷ []
  filter_values d (FilterNode.is_null table column negated) = []
  filter_values d (FilterNode.in_list table column values negated) = values
  filter_values d (FilterNode.in_subquery table column subquery negated) = subquery.binds
  filter_values d (FilterNode.column_cmp left_table left_col op right_table right_col) = []
  filter_values d (FilterNode.and_all nodes) = all_values d nodes
  filter_values d (FilterNode.or_all nodes) = all_values d nodes
  filter_values d (FilterNode.negation n) = filter_values d n
  filter_values d (FilterNode.exists child_table child_col parent_table parent_col filter negated) =
      filter_values d filter
  filter_values d (FilterNode.exists_subquery subquery negated) = subquery.binds
  filter_values d (FilterNode.raw fragment) = raw_values fragment.parts fragment.binds
  filter_values d (FilterNode.json table column path text op value) = json_values d text op value
  filter_values d (FilterNode.array table column op values) = array_values d op values
  filter_values d (FilterNode.full_text_match table column query) = Value.str query ∷ []
  filter_values {F} d (FilterNode.spatial table column op geometry distance) =
      spatial_values F op geometry distance

  pub all_values : {F : Foreign} → Dialect → FilterNodes F → List (Value F)
  all_values d FilterNodes.nil = []
  all_values d (FilterNodes.cons n nodes) = filter_values d n ++ all_values d nodes

pub no_filter_values :
    {F : Foreign} (d : Dialect) (filter : FilterNode F)
    → is_no_filter filter ≡ true
    → filter_values d filter ≡ []
unfolding is_no_filter
no_filter_values d (FilterNode.and_all FilterNodes.nil) h = refl
no_filter_values d (FilterNode.and_all (FilterNodes.cons n nodes)) h = cc
no_filter_values d other h = cc

Binds-push_subquery :
    {F : Foreign} (d : Dialect) (s : CompiledSql F) → Binds (push_subquery d s) s.binds
unfolding push_subquery
Binds-push_subquery postgres s = record { at = λ c. refl }
Binds-push_subquery sqlite s = record { at = λ c. refl }
Binds-push_subquery mysql s = record { at = λ c. refl }

module _ {F : Foreign} (d : Dialect) where
  Silent-push_op : (op : CmpOp) → Silent {F = F} (push_op d op)
  unfolding push_op
  Silent-push_op op = Silent-push_str _

  Silent-push_in : (negated : Bool) → Silent {F = F} (push_in d negated)
  unfolding push_in
  Silent-push_in negated = search silent_rules

  Silent-push_not : (negated : Bool) → Silent {F = F} (push_not d negated)
  unfolding push_not
  Silent-push_not negated = search silent_rules

  Binds-choice :
      (n e m : Bool) (s t : Text) (value : Value F)
      → Binds
          (if n && e then push_str s else if n && m then push_str t else push_bind d value)
          (if n && (e || m) then [] else value ∷ [])
  Binds-choice false e m s t value = Binds-bind d value
  Binds-choice true true m s t value = search binds_rules
  Binds-choice true false true s t value = search binds_rules
  Binds-choice true false false s t value = Binds-bind d value

  Binds-push_operand :
      (op : CmpOp) (value : Value F) → Binds (push_operand d op value) (operand_values op value)
  unfolding push_operand
  Binds-push_operand op value =
      rw (operand_values_lem op value) at (
        Binds-choice (is_null value) (is_eq op) (is_ne op) (str "IS NULL") (str "IS NOT NULL")
          value)

  Silent-push_raw : (parts : List Text) → Silent {F = F} (push_raw d parts [])
  unfolding push_raw
  Silent-push_raw [] = search silent_rules
  Silent-push_raw (part ∷ parts) =
      let k : Silent {F = F} (push_raw d parts []) = Silent-push_raw parts in search silent_rules

  Binds-push_raw :
      (parts : List Text) (vs : List (Value F)) → Binds (push_raw d parts vs) (raw_values parts vs)
  unfolding push_raw
  Binds-push_raw [] vs = search binds_rules
  Binds-push_raw (part ∷ parts) [] =
      let k = Silent-push_raw parts in Binds-Silent _ (search silent_rules)
  Binds-push_raw (part ∷ parts) (v ∷ vs) =
      let k : Binds (push_raw d parts vs) (raw_values parts vs) = Binds-push_raw parts vs in
      search binds_rules

  Binds-push_json :
      (table column : Text) (path : JsonPath) (text : Bool) (op : JsonFilterOp) (value : Value F)
      → Binds (push_json d table column path text op value) (json_values d text op value)
  unfolding push_json
  Binds-push_json table column path text (JsonFilterOp.cmp op) value =
      rw (← json_cmp_value_lem d text value)
        (search (binds_rules, Silent-push_json_expr, Silent-push_op) depth 10)
  Binds-push_json table column path text JsonFilterOp.contains value =
      Binds-push_json_contains table column d path text value
  Binds-push_json table column path text JsonFilterOp.has_key value =
      Binds-push_json_has_key table column d path text value

  Binds-parenthesised :
      (f g : Step F) (vs ws : List (Value F))
      → Binds f vs
      → Binds g ws
      → Binds (push_str (str "(") ⨾ f ⨾ g ⨾ push_str (str ")")) (vs ++ ws)
  Binds-parenthesised f g vs ws hf hg =
      Binds-behind _ _ _ (Silent-push_str _)
        (Binds-⨾ _ _ vs ws hf (Binds-before _ _ ws hg (Silent-push_str _)))

  -- An `EXISTS` without a filter binds nothing.
  Binds-exists_filter :
      (filter : FilterNode F) (vs : List (Value F))
      → (is_no_filter filter ≡ true → vs ≡ [])
      → Binds (push_filter d filter) vs
      → Binds
          (if is_no_filter filter then skip else push_str (str " AND ") ⨾ push_filter d filter)
          vs
  Binds-exists_filter filter vs h k = elim (Bool-cases (is_no_filter filter)) [
    | inl e ↦ rw (e) (rw (h e) (Binds-Silent _ Silent-skip))
    | inr e ↦ rw (e) (Binds-behind _ _ vs (Silent-push_str _) k)
  ]

  mutual
    unfolding push_filter push_filters

    pub Binds-push_filter :
        (node : FilterNode F) → Binds (push_filter d node) (filter_values d node)
    Binds-push_filter (FilterNode.cmp table column op value) =
        search (binds_rules, Silent-push_op, Binds-push_operand) depth 8
    Binds-push_filter (FilterNode.between table column lo hi) = search binds_rules depth 8
    Binds-push_filter (FilterNode.is_null table column negated) = search binds_rules depth 8
    Binds-push_filter (FilterNode.in_list table column values negated) =
        search (binds_rules, Silent-push_in, Binds-values) depth 8
    Binds-push_filter (FilterNode.in_subquery table column subquery negated) =
        search (binds_rules, Silent-push_in, Binds-push_subquery) depth 8
    Binds-push_filter (FilterNode.column_cmp lt lc op rt rc) =
        search (binds_rules, Silent-push_op) depth 8
    Binds-push_filter (FilterNode.and_all FilterNodes.nil) = search binds_rules
    Binds-push_filter (FilterNode.and_all (FilterNodes.cons n FilterNodes.nil)) =
        rw (append-nil (filter_values d n)) (Binds-push_filter n)
    Binds-push_filter (FilterNode.and_all (FilterNodes.cons n (FilterNodes.cons m nodes))) =
        Binds-parenthesised _ _ (filter_values d n) _ (Binds-push_filter n)
          (Binds-push_filters (str " AND ") (FilterNodes.cons m nodes))
    Binds-push_filter (FilterNode.or_all FilterNodes.nil) = search binds_rules
    Binds-push_filter (FilterNode.or_all (FilterNodes.cons n FilterNodes.nil)) =
        rw (append-nil (filter_values d n)) (Binds-push_filter n)
    Binds-push_filter (FilterNode.or_all (FilterNodes.cons n (FilterNodes.cons m nodes))) =
        Binds-parenthesised _ _ (filter_values d n) _ (Binds-push_filter n)
          (Binds-push_filters (str " OR ") (FilterNodes.cons m nodes))
    Binds-push_filter (FilterNode.negation n) =
        let k : Binds (push_filter d n) (filter_values d n) = Binds-push_filter n in
        search binds_rules
    Binds-push_filter (FilterNode.exists ct col pt pc filter negated) =
        let k =
          Binds-exists_filter filter (filter_values d filter) (no_filter_values d filter)
            (Binds-push_filter filter) in
        search (binds_rules, Silent-push_not) depth 14
    Binds-push_filter (FilterNode.exists_subquery subquery negated) =
        search (binds_rules, Silent-push_not, Binds-push_subquery) depth 8
    Binds-push_filter (FilterNode.raw fragment) = Binds-push_raw fragment.parts fragment.binds
    Binds-push_filter (FilterNode.json table column path text op value) =
        Binds-push_json table column path text op value
    Binds-push_filter (FilterNode.array table column op values) =
        Binds-push_array_op table column d op values
    Binds-push_filter (FilterNode.full_text_match table column query) =
        Binds-push_full_text_match table column d query
    Binds-push_filter (FilterNode.spatial table column op geometry distance) =
        Binds-push_spatial_op table column d op geometry distance

    Binds-push_filters :
        (word : Text) (nodes : FilterNodes F)
        → Binds (push_filters d word nodes) (all_values d nodes)
    Binds-push_filters word FilterNodes.nil = search binds_rules
    Binds-push_filters word (FilterNodes.cons n nodes) =
        Binds-behind _ _ _ (Silent-push_str word)
          (Binds-⨾ _ _ (filter_values d n) _ (Binds-push_filter n) (Binds-push_filters word nodes))
