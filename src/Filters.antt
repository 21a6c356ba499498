-- ===== src/Filters.antt =====
-- crates/runtime/src/filter.rs: how filters are combined. A `Filter<M>` is its node.
pub mod Meaning
use ruprizzle_orm.Compile.Value.{Foreign}
use ruprizzle_orm.Compile.Filter.{FilterNode, FilterNodes}

module _ {F : Foreign} where
  -- `out.extend(children)`
  unfoldable pub extend : FilterNodes F → FilterNodes F → FilterNodes F
  extend FilterNodes.nil nodes = nodes
  extend (FilterNodes.cons n children) nodes = FilterNodes.cons n (extend children nodes)

  -- What a node adds to a conjunction: the nodes of a conjunction, or itself.
  unfoldable pub and_parts : FilterNode F → FilterNodes F
  and_parts (FilterNode.and_all children) = children
  and_parts other = FilterNodes.cons other FilterNodes.nil

  unfoldable pub or_parts : FilterNode F → FilterNodes F
  or_parts (FilterNode.or_all children) = children
  or_parts other = FilterNodes.cons other FilterNodes.nil

  unfoldable pub spread_and : FilterNodes F → FilterNodes F
  spread_and FilterNodes.nil = FilterNodes.nil
  spread_and (FilterNodes.cons n nodes) = extend (and_parts n) (spread_and nodes)

  unfoldable pub spread_or : FilterNodes F → FilterNodes F
  spread_or FilterNodes.nil = FilterNodes.nil
  spread_or (FilterNodes.cons n nodes) = extend (or_parts n) (spread_or nodes)

  unfoldable pub flatten_and : FilterNodes F → FilterNode F
  flatten_and FilterNodes.nil = FilterNode.and_all FilterNodes.nil
  flatten_and (FilterNodes.cons n nodes) =
      FilterNode.and_all (spread_and (FilterNodes.cons n nodes))

  unfoldable pub flatten_or : FilterNodes F → FilterNode F
  flatten_or FilterNodes.nil = FilterNode.or_all FilterNodes.nil
  flatten_or (FilterNodes.cons n nodes) = FilterNode.or_all (spread_or (FilterNodes.cons n nodes))

  -- `Filter::and`, `Filter::or` and the operator `!`.
  unfoldable pub filter_and : FilterNode F → FilterNode F → FilterNode F
  filter_and self other =
      flatten_and (FilterNodes.cons self (FilterNodes.cons other FilterNodes.nil))

  unfoldable pub filter_or : FilterNode F → FilterNode F → FilterNode F
  filter_or self other = flatten_or (FilterNodes.cons self (FilterNodes.cons other FilterNodes.nil))

  unfoldable pub filter_not : FilterNode F → FilterNode F
  filter_not self = FilterNode.negation self
