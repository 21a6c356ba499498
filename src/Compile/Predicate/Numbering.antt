-- ===== src/Compile/Predicate/Numbering.antt =====
-- The markers that `push_filter` of crates/runtime/src/compile.rs writes.
use ruprizzle_orm.Base.{◌≡◌, refl, Bool, true, List, [], ◌∷◌, Text, str, All, length}
use ruprizzle_orm.Dialect.{Dialect}
use ruprizzle_orm.Compile.Value.{Foreign, Value}
use ruprizzle_orm.Compile.Filter.{CmpOp, JsonFilterOp, JsonPath, FilterNode, FilterNodes}
use ruprizzle_orm.Compile.Json.Numbering.{IsSegment, IsKey}
use ruprizzle_orm.Compile.JsonPredicate.{object_keys, text_key}
use ruprizzle_orm.Compile.JsonPredicate.Numbering.{
  Keeps-push_json_expr, Keeps-push_json_contains, Keeps-push_json_has_key,
}
use ruprizzle_orm.Compile.Array.Numbering.{push_array_op-Keeps}
use ruprizzle_orm.Compile.Spatial.Numbering.{Keeps-push_full_text_match, Keeps-push_spatial_op}
use ruprizzle_orm.Compile.Subquery.Embed.{IsStatement, Keeps-push_subquery}
use ruprizzle_orm.Compile.Predicate.{
  op_text, push_op, push_operand, push_in, push_not, push_raw, push_json, push_filter, push_filters,
}
use ruprizzle_orm.Compile.State.{Compiler, Step, ◌⨾◌, push_str}
use ruprizzle_orm.Compile.Markers.{IsNumbered}
use ruprizzle_orm.Compile.Numbering.{Keeps, keeps_rules, IsName, is_plain, Keeps-push_str}

-- What a JSON predicate writes into the statement as text.
abbrev HasJsonNames : {F : Foreign} → JsonFilterOp → Value F → Type 0
HasJsonNames (JsonFilterOp.cmp op) value = Unit
HasJsonNames JsonFilterOp.contains value = All IsName (object_keys value)
HasJsonNames JsonFilterOp.has_key value = IsKey (text_key value)

abbrev mutual
  -- Every name and raw part of the predicate is free of marker characters, and its subqueries are
  -- statements of their own.
  pub HasNames : {F : Foreign} → Dialect → FilterNode F → Type 0
  HasNames d (FilterNode.cmp table column op value) = IsName table × IsName column
  HasNames d (FilterNode.between table column lo hi) = IsName table × IsName column
  HasNames d (FilterNode.is_null table column negated) = IsName table × IsName column
  HasNames d (FilterNode.in_list table column values negated) = IsName table × IsName column
  HasNames d (FilterNode.in_subquery table column subquery negated) =
      (IsName table × IsName column) × IsStatement d subquery
  HasNames d (FilterNode.column_cmp left_table left_col op right_table right_col) =
      (IsName left_table × IsName left_col) × (IsName right_table × IsName right_col)
  HasNames d (FilterNode.and_all nodes) = AllHaveNames d nodes
  HasNames d (FilterNode.or_all nodes) = AllHaveNames d nodes
  HasNames d (FilterNode.negation n) = HasNames d n
  HasNames d (FilterNode.exists child_table child_col parent_table parent_col filter negated) =
      (IsName child_table × IsName child_col)
      × (IsName parent_table × IsName parent_col)
      × HasNames d filter
  HasNames d (FilterNode.exists_subquery subquery negated) = IsStatement d subquery
  HasNames d (FilterNode.raw fragment) = All (λ part. is_plain part ≡ true) fragment.parts
  HasNames d (FilterNode.json table column path text op value) =
      (IsName table × IsName column) × All IsSegment path × HasJsonNames op value
  HasNames d (FilterNode.array table column op values) = IsName table × IsName column
  HasNames d (FilterNode.full_text_match table column query) = IsName table × IsName column
  HasNames d (FilterNode.spatial table column op geometry distance) = IsName table × IsName column

  pub AllHaveNames : {F : Foreign} → Dialect → FilterNodes F → Type 0
  AllHaveNames d FilterNodes.nil = Unit
  AllHaveNames d (FilterNodes.cons n nodes) = HasNames d n × AllHaveNames d nodes

is_plain-op_text : (op : CmpOp) → is_plain (op_text op) ≡ true
unfolding op_text
is_plain-op_text CmpOp.eq = refl
is_plain-op_text CmpOp.ne = refl
is_plain-op_text CmpOp.gt = refl
is_plain-op_text CmpOp.gte = refl
is_plain-op_text CmpOp.lt = refl
is_plain-op_text CmpOp.lte = refl
is_plain-op_text CmpOp.like = refl
is_plain-op_text CmpOp.ilike = refl

module _ {F : Foreign} (d : Dialect) where
  Keeps-push_op : (op : CmpOp) → Keeps {F = F} d (push_op d op)
  unfolding push_op
  Keeps-push_op op = Keeps-push_str (op_text op) (is_plain-op_text op)

  Keeps-push_operand : (op : CmpOp) (value : Value F) → Keeps d (push_operand d op value)
  unfolding push_operand
  Keeps-push_operand op value = search keeps_rules

  Keeps-push_in : (negated : Bool) → Keeps {F = F} d (push_in d negated)
  unfolding push_in
  Keeps-push_in negated = search keeps_rules

  Keeps-push_not : (negated : Bool) → Keeps {F = F} d (push_not d negated)
  unfolding push_not
  Keeps-push_not negated = search keeps_rules

  Keeps-push_raw :
      (parts : List Text) (values : List (Value F))
      → All (λ part. is_plain part ≡ true) parts
      → Keeps d (push_raw d parts values)
  unfolding push_raw
  Keeps-push_raw [] values h = search keeps_rules
  Keeps-push_raw (part ∷ parts) [] h =
      let e : is_plain part ≡ true = h.0 in
      let k : Keeps d (push_raw {F = F} d parts []) = Keeps-push_raw parts [] h.1 in
      search keeps_rules
  Keeps-push_raw (part ∷ parts) (v ∷ values) h =
      let e : is_plain part ≡ true = h.0 in
      let k : Keeps d (push_raw d parts values) = Keeps-push_raw parts values h.1 in
      search keeps_rules

  Keeps-push_json :
      (table column : Text) (path : JsonPath) (text : Bool) (op : JsonFilterOp) (value : Value F)
      → IsName table
      → IsName column
      → All IsSegment path
      → HasJsonNames op value
      → Keeps d (push_json d table column path text op value)
  unfolding push_json
  Keeps-push_json table column path text (JsonFilterOp.cmp op) value ht hc hp hv =
      let k = Keeps-push_json_expr {F = F} table column ht hc d path text hp in
      search (keeps_rules, Keeps-push_op) depth 8
  Keeps-push_json table column path text JsonFilterOp.contains value ht hc hp hv =
      Keeps-push_json_contains table column ht hc d path value hp hv
  Keeps-push_json table column path text JsonFilterOp.has_key value ht hc hp hv =
      Keeps-push_json_has_key table column ht hc d path value hp hv

  Keeps-parenthesised :
      (f g : Step F)
      → Keeps d f
      → Keeps d g
      → Keeps d (push_str (str "(") ⨾ f ⨾ g ⨾ push_str (str ")"))
  Keeps-parenthesised f g kf kg = search keeps_rules

  mutual
    unfolding push_filter push_filters

    pub Keeps-push_filter : (node : FilterNode F) → HasNames d node → Keeps d (push_filter d node)
    Keeps-push_filter (FilterNode.cmp table column op value) (ht, hc) =
        search (keeps_rules, Keeps-push_op, Keeps-push_operand) depth 8
    Keeps-push_filter (FilterNode.between table column lo hi) (ht, hc) = search keeps_rules depth 8
    Keeps-push_filter (FilterNode.is_null table column negated) (ht, hc) = search keeps_rules
    Keeps-push_filter (FilterNode.in_list table column values negated) (ht, hc) =
        search (keeps_rules, Keeps-push_in) depth 8
    Keeps-push_filter (FilterNode.in_subquery table column subquery negated) ((ht, hc), hs) =
        search (keeps_rules, Keeps-push_in, Keeps-push_subquery) depth 8
    Keeps-push_filter (FilterNode.column_cmp lt lc op rt rc) ((hlt, hlc), (hrt, hrc)) =
        search (keeps_rules, Keeps-push_op) depth 8
    Keeps-push_filter (FilterNode.and_all FilterNodes.nil) h = search keeps_rules
    Keeps-push_filter (FilterNode.and_all (FilterNodes.cons n FilterNodes.nil)) (h, hs) =
        Keeps-push_filter n h
    Keeps-push_filter (FilterNode.and_all (FilterNodes.cons n (FilterNodes.cons m nodes))) (h, hs) =
        Keeps-parenthesised _ _ (Keeps-push_filter n h)
          (Keeps-push_filters (str " AND ") (FilterNodes.cons m nodes) refl hs)
    Keeps-push_filter (FilterNode.or_all FilterNodes.nil) h = search keeps_rules
    Keeps-push_filter (FilterNode.or_all (FilterNodes.cons n FilterNodes.nil)) (h, hs) =
        Keeps-push_filter n h
    Keeps-push_filter (FilterNode.or_all (FilterNodes.cons n (FilterNodes.cons m nodes))) (h, hs) =
        Keeps-parenthesised _ _ (Keeps-push_filter n h)
          (Keeps-push_filters (str " OR ") (FilterNodes.cons m nodes) refl hs)
    Keeps-push_filter (FilterNode.negation n) h =
        let k : Keeps d (push_filter d n) = Keeps-push_filter n h in search keeps_rules
    Keeps-push_filter (FilterNode.exists ct col pt pc filter negated) ((hct, hcc), (hpt, hpc), h) =
        let k : Keeps d (push_filter d filter) = Keeps-push_filter filter h in
        search (keeps_rules, Keeps-push_not) depth 14
    Keeps-push_filter (FilterNode.exists_subquery subquery negated) h =
        search (keeps_rules, Keeps-push_not, Keeps-push_subquery)
    Keeps-push_filter (FilterNode.raw fragment) h = Keeps-push_raw fragment.parts fragment.binds h
    Keeps-push_filter (FilterNode.json table column path text op value) ((ht, hc), hp, hv) =
        Keeps-push_json table column path text op value ht hc hp hv
    Keeps-push_filter (FilterNode.array table column op values) (ht, hc) =
        push_array_op-Keeps table column ht hc d op values
    Keeps-push_filter (FilterNode.full_text_match table column query) (ht, hc) =
        Keeps-push_full_text_match table column ht hc d query
    Keeps-push_filter (FilterNode.spatial table column op geometry distance) (ht, hc) =
        Keeps-push_spatial_op table column ht hc d op geometry distance

    Keeps-push_filters :
        (word : Text) (nodes : FilterNodes F)
        → is_plain word ≡ true
        → AllHaveNames d nodes
        → Keeps d (push_filters d word nodes)
    Keeps-push_filters word FilterNodes.nil e h = search keeps_rules
    Keeps-push_filters word (FilterNodes.cons n nodes) e h =
        let k : Keeps d (push_filter d n) = Keeps-push_filter n h.0 in
        let ks : Keeps d (push_filters d word nodes) = Keeps-push_filters word nodes e h.1 in
        search keeps_rules

-- A predicate whose names hold no `$` and no `?`, whose raw parts also begin with no digit, and
-- whose subqueries are statements of their own, keeps the markers of the statement in step with
-- its values on every kind of node and every dialect.
pub push_filter-IsNumbered :
    {F : Foreign} (d : Dialect) (node : FilterNode F) (c : Compiler F)
    → HasNames d node
    → IsNumbered d c.sql (length c.binds)
    → IsNumbered d (push_filter d node c).sql (length (push_filter d node c).binds)
push_filter-IsNumbered d node c h hc = (Keeps-push_filter d node h).at c hc
