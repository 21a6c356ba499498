-- ===== src/Compile/Predicate.antt =====
-- crates/runtime/src/compile.rs: `push_filter`, the predicate of a WHERE clause.
pub mod Numbering
use ruprizzle_orm.Base.{
  Bool, true, false, ◌&&◌, List, [], ◌∷◌, Option, none, some, Text, str, if◌then◌else◌,
}
use ruprizzle_orm.Dialect.{Dialect}
use ruprizzle_orm.Compile.Value.{Foreign, Value, is_null}
use ruprizzle_orm.Compile.Filter.{
  CmpOp, JsonFilterOp, JsonPath, FilterNode, FilterNodes, CompiledSql,
}
use ruprizzle_orm.Compile.State.{
  Step, ◌⨾◌, skip, push_str, push_quoted, push_bind, push_column, separated,
}
use ruprizzle_orm.Compile.Subquery.{push_subquery}
use ruprizzle_orm.Compile.JsonPredicate.{
  json_cmp_value, push_json_expr, push_json_contains, push_json_has_key,
}
use ruprizzle_orm.Compile.Array.{push_array_op}
use ruprizzle_orm.Compile.Spatial.{push_full_text_match, push_spatial_op}

unfoldable pub op_text : CmpOp → Text
op_text CmpOp.eq = str "="
op_text CmpOp.ne = str "!="
op_text CmpOp.gt = str ">"
op_text CmpOp.gte = str ">="
op_text CmpOp.lt = str "<"
op_text CmpOp.lte = str "<="
op_text CmpOp.like = str "LIKE"
op_text CmpOp.ilike = str "ILIKE"

unfoldable pub is_eq : CmpOp → Bool
is_eq CmpOp.eq = true
is_eq _ = false

unfoldable pub is_ne : CmpOp → Bool
is_ne CmpOp.ne = true
is_ne _ = false

-- `FilterNode::And(v) if v.is_empty()`
unfoldable pub is_no_filter : {F : Foreign} → FilterNode F → Bool
is_no_filter (FilterNode.and_all FilterNodes.nil) = true
is_no_filter _ = false

module _ {F : Foreign} (d : Dialect) where
  unfoldable pub push_op : CmpOp → Step F
  push_op op = push_str (op_text op)

  unfoldable pub push_operand : CmpOp → Value F → Step F
  push_operand op value =
      if is_null value && is_eq op
      then push_str (str "IS NULL")
      else if is_null value && is_ne op
      then push_str (str "IS NOT NULL")
      else push_bind d value

  unfoldable pub push_in : Bool → Step F
  push_in negated = if negated then push_str (str " NOT IN (") else push_str (str " IN (")

  unfoldable pub push_not : Bool → Step F
  push_not negated = if negated then push_str (str "NOT ") else skip

  -- A value behind each part that has one.
  unfoldable pub push_raw : List Text → List (Value F) → Step F
  push_raw [] values = skip
  push_raw (part ∷ parts) [] = push_str part ⨾ push_raw parts []
  push_raw (part ∷ parts) (v ∷ values) = push_str part ⨾ push_bind d v ⨾ push_raw parts values

  unfoldable pub push_json : Text → Text → JsonPath → Bool → JsonFilterOp → Value F → Step F
  push_json table column path text (JsonFilterOp.cmp op) value =
      push_json_expr table column d path text
      ⨾ push_str (str " ")
      ⨾ push_op op
      ⨾ push_str (str " ")
      ⨾ push_bind d (json_cmp_value d text value)
  push_json table column path text JsonFilterOp.contains value =
      push_json_contains table column d path value
  push_json table column path text JsonFilterOp.has_key value =
      push_json_has_key table column d path value

  unfoldable mutual
    pub push_filter : FilterNode F → Step F
    push_filter (FilterNode.cmp table column op value) =
        push_column d table column
        ⨾ push_str (str " ")
        ⨾ push_op op
        ⨾ push_str (str " ")
        ⨾ push_operand op value
    push_filter (FilterNode.between table column lo hi) =
        push_column d table column
        ⨾ push_str (str " BETWEEN ")
        ⨾ push_bind d lo
        ⨾ push_str (str " AND ")
        ⨾ push_bind d hi
    push_filter (FilterNode.is_null table column negated) =
        push_column d table column
        ⨾ (if negated then push_str (str " IS NOT NULL") else push_str (str " IS NULL"))
    push_filter (FilterNode.in_list table column values negated) =
        push_column d table column
        ⨾ push_in negated
        ⨾ separated (str ", ") (push_bind d) values
        ⨾ push_str (str ")")
    push_filter (FilterNode.in_subquery table column subquery negated) =
        push_column d table column ⨾ push_in negated ⨾ push_subquery d subquery ⨾ push_str (str ")")
    push_filter (FilterNode.column_cmp left_table left_col op right_table right_col) =
        push_column d left_table left_col
        ⨾ push_str (str " ")
        ⨾ push_op op
        ⨾ push_str (str " ")
        ⨾ push_column d right_table right_col
    push_filter (FilterNode.and_all FilterNodes.nil) = push_str (str "TRUE")
    push_filter (FilterNode.and_all (FilterNodes.cons n FilterNodes.nil)) = push_filter n
    push_filter (FilterNode.and_all (FilterNodes.cons n (FilterNodes.cons m nodes))) =
        push_str (str "(")
        ⨾ push_filter n
        ⨾ push_filters (str " AND ") (FilterNodes.cons m nodes)
        ⨾ push_str (str ")")
    push_filter (FilterNode.or_all FilterNodes.nil) = push_str (str "FALSE")
    push_filter (FilterNode.or_all (FilterNodes.cons n FilterNodes.nil)) = push_filter n
    push_filter (FilterNode.or_all (FilterNodes.cons n (FilterNodes.cons m nodes))) =
        push_str (str "(")
        ⨾ push_filter n
        ⨾ push_filters (str " OR ") (FilterNodes.cons m nodes)
        ⨾ push_str (str ")")
    push_filter (FilterNode.negation n) =
        push_str (str "NOT (") ⨾ push_filter n ⨾ push_str (str ")")
    push_filter (FilterNode.exists child_table child_col parent_table parent_col filter negated) =
        push_not negated
        ⨾ push_str (str "EXISTS (SELECT 1 FROM ")
        ⨾ push_quoted d child_table
        ⨾ push_str (str " WHERE ")
        ⨾ push_column d child_table child_col
        ⨾ push_str (str " = ")
        ⨾ push_column d parent_table parent_col
        ⨾ (if is_no_filter filter then skip else push_str (str " AND ") ⨾ push_filter filter)
        ⨾ push_str (str ")")
    push_filter (FilterNode.exists_subquery subquery negated) =
        push_not negated ⨾ push_str (str "EXISTS (") ⨾ push_subquery d subquery ⨾ push_str (str ")")
    push_filter (FilterNode.raw fragment) = push_raw fragment.parts fragment.binds
    push_filter (FilterNode.json table column path text op value) =
        push_json table column path text op value
    push_filter (FilterNode.array table column op values) = push_array_op table column d op values
    push_filter (FilterNode.full_text_match table column query) =
        push_full_text_match table column d query
    push_filter (FilterNode.spatial table column op geometry distance) =
        push_spatial_op table column d op geometry distance

    -- The nodes behind the first, each behind the word that joins them.
    pub push_filters : Text → FilterNodes F → Step F
    push_filters word FilterNodes.nil = skip
    push_filters word (FilterNodes.cons n nodes) =
        push_str word ⨾ push_filter n ⨾ push_filters word nodes
