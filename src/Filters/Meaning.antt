-- ===== src/Filters/Meaning.antt =====
-- What combined filters of crates/runtime/src/filter.rs mean in SQL's three-valued logic, whatever
-- the other predicates are.
use ruprizzle_orm.Base.{◌≡◌, refl, ap, sym, ◌∙◌}
use ruprizzle_orm.Compile.Value.{Foreign}
use ruprizzle_orm.Compile.Filter.{FilterNode, FilterNodes}
use ruprizzle_orm.Filters.{
  extend, and_parts, or_parts, spread_and, spread_or, flatten_and, flatten_or, filter_and,
  filter_or, filter_not,
}

-- A truth value of SQL.
pub data Truth : Type 0 where
  yes unknown no : Truth

unfoldable pub both : Truth → Truth → Truth
both yes t = t
both no t = no
both unknown no = no
both unknown yes = unknown
both unknown unknown = unknown

unfoldable pub opposite : Truth → Truth
opposite yes = no
opposite no = yes
opposite unknown = unknown

unfoldable pub either : Truth → Truth → Truth
either no t = t
either yes t = yes
either unknown yes = yes
either unknown no = unknown
either unknown unknown = unknown

unfoldable mutual
  -- The truth of a predicate in a row, where `v` says what its parts that are not combinations are.
  pub truth : {F : Foreign} → (FilterNode F → Truth) → FilterNode F → Truth
  truth v (FilterNode.and_all nodes) = truth_and v nodes
  truth v (FilterNode.or_all nodes) = truth_or v nodes
  truth v (FilterNode.negation n) = opposite (truth v n)
  truth v atom = v atom

  pub truth_and : {F : Foreign} → (FilterNode F → Truth) → FilterNodes F → Truth
  truth_and v FilterNodes.nil = yes
  truth_and v (FilterNodes.cons n nodes) = both (truth v n) (truth_and v nodes)

  pub truth_or : {F : Foreign} → (FilterNode F → Truth) → FilterNodes F → Truth
  truth_or v FilterNodes.nil = no
  truth_or v (FilterNodes.cons n nodes) = either (truth v n) (truth_or v nodes)

both-yes : (s : Truth) → both s yes ≡ s
unfolding both
both-yes yes = refl
both-yes no = refl
both-yes unknown = refl

both_assoc : (s t u : Truth) → both (both s t) u ≡ both s (both t u)
unfolding both
both_assoc yes t u = refl
both_assoc no t u = refl
both_assoc unknown yes u = refl
both_assoc unknown no u = refl
both_assoc unknown unknown yes = refl
both_assoc unknown unknown no = refl
both_assoc unknown unknown unknown = refl

either-no : (s : Truth) → either s no ≡ s
unfolding either
either-no yes = refl
either-no no = refl
either-no unknown = refl

either_assoc : (s t u : Truth) → either (either s t) u ≡ either s (either t u)
unfolding either
either_assoc no t u = refl
either_assoc yes t u = refl
either_assoc unknown no u = refl
either_assoc unknown yes u = refl
either_assoc unknown unknown yes = refl
either_assoc unknown unknown no = refl
either_assoc unknown unknown unknown = refl

module _ {F : Foreign} (v : FilterNode F → Truth) where
  truth_and-extend :
      (ns ms : FilterNodes F) → truth_and v (extend ns ms) ≡ both (truth_and v ns) (truth_and v ms)
  unfolding extend truth both
  truth_and-extend FilterNodes.nil ms = refl
  truth_and-extend (FilterNodes.cons n ns) ms =
      ap (both (truth v n)) (truth_and-extend ns ms)
      ∙ sym (both_assoc (truth v n) (truth_and v ns) (truth_and v ms))

  truth_or-extend :
      (ns ms : FilterNodes F) → truth_or v (extend ns ms) ≡ either (truth_or v ns) (truth_or v ms)
  unfolding extend truth either
  truth_or-extend FilterNodes.nil ms = refl
  truth_or-extend (FilterNodes.cons n ns) ms =
      ap (either (truth v n)) (truth_or-extend ns ms)
      ∙ sym (either_assoc (truth v n) (truth_or v ns) (truth_or v ms))

  truth-and_parts : (n : FilterNode F) → truth_and v (and_parts n) ≡ truth v n
  unfolding and_parts truth
  truth-and_parts (FilterNode.and_all children) = refl
  truth-and_parts other = both-yes _

  truth-or_parts : (n : FilterNode F) → truth_or v (or_parts n) ≡ truth v n
  unfolding or_parts truth
  truth-or_parts (FilterNode.or_all children) = refl
  truth-or_parts other = either-no _

  truth-spread_and : (ns : FilterNodes F) → truth_and v (spread_and ns) ≡ truth_and v ns
  unfolding spread_and truth
  truth-spread_and FilterNodes.nil = refl
  truth-spread_and (FilterNodes.cons n ns) =
      truth_and-extend (and_parts n) (spread_and ns) ∙ cc (truth-and_parts n, truth-spread_and ns)

  truth-spread_or : (ns : FilterNodes F) → truth_or v (spread_or ns) ≡ truth_or v ns
  unfolding spread_or truth
  truth-spread_or FilterNodes.nil = refl
  truth-spread_or (FilterNodes.cons n ns) =
      truth_or-extend (or_parts n) (spread_or ns) ∙ cc (truth-or_parts n, truth-spread_or ns)

  truth-flatten_and : (ns : FilterNodes F) → truth v (flatten_and ns) ≡ truth_and v ns
  unfolding flatten_and truth
  truth-flatten_and FilterNodes.nil = refl
  truth-flatten_and (FilterNodes.cons n ns) = truth-spread_and (FilterNodes.cons n ns)

  truth-flatten_or : (ns : FilterNodes F) → truth v (flatten_or ns) ≡ truth_or v ns
  unfolding flatten_or truth
  truth-flatten_or FilterNodes.nil = refl
  truth-flatten_or (FilterNodes.cons n ns) = truth-spread_or (FilterNodes.cons n ns)

  -- The conjunction that `flatten_and` builds from any list of filters, and the disjunction that
  -- `flatten_or` builds, are true, false or unknown in a row just as the AND and the OR of the
  -- list are, whatever the other predicates are.
  pub truth-flatten :
      (ns : FilterNodes F)
      → (truth v (flatten_and ns) ≡ truth_and v ns) × (truth v (flatten_or ns) ≡ truth_or v ns)
  truth-flatten ns = (truth-flatten_and ns, truth-flatten_or ns)

  pub truth-filter_and :
      (a b : FilterNode F) → truth v (filter_and a b) ≡ both (truth v a) (truth v b)
  unfolding filter_and truth
  truth-filter_and a b = truth-flatten_and _ ∙ ap (both (truth v a)) (both-yes (truth v b))

  de_morgan_both : (s t : Truth) → opposite (both s t) ≡ either (opposite s) (opposite t)
  unfolding both either opposite
  de_morgan_both yes t = refl
  de_morgan_both no t = refl
  de_morgan_both unknown yes = refl
  de_morgan_both unknown no = refl
  de_morgan_both unknown unknown = refl

  pub truth-filter_or :
      (a b : FilterNode F) → truth v (filter_or a b) ≡ either (truth v a) (truth v b)
  unfolding filter_or truth
  truth-filter_or a b = truth-flatten_or _ ∙ ap (either (truth v a)) (either-no (truth v b))

  -- The negation of a conjunction and the disjunction of the negations, as the combinators build
  -- them, agree in every row.
  pub de_morgan :
      (a b : FilterNode F)
      → truth v (filter_not (filter_and a b)) ≡ truth v (filter_or (filter_not a) (filter_not b))
  unfolding filter_not truth
  de_morgan a b =
      ap opposite (truth-filter_and a b)
      ∙ de_morgan_both (truth v a) (truth v b)
      ∙ sym (truth-filter_or (filter_not a) (filter_not b))
