-- ===== src/Query/Deleted.antt =====
-- The soft-delete filter of a query (crates/runtime/src/query.rs).
use ruprizzle_orm.Base.{◌≡◌, refl, ap, ◌∙◌, true, false, Option, none, some, Text}
use ruprizzle_orm.Compile.Value.{Foreign}
use ruprizzle_orm.Compile.Filter.{FilterNode}
use ruprizzle_orm.Compile.Select.{Model}
use ruprizzle_orm.Filters.Meaning.{Truth, yes, no, unknown, both, truth, truth-filter_and}
use ruprizzle_orm.Query.{SelectQuery, with_deleted, only_deleted, deleted_filter, effective_filter}

both-no : (s : Truth) → both s no ≡ no
unfolding both
both-no yes = refl
both-no no = refl
both-no unknown = refl

both-yes_iff : (s t : Truth) → both s t ≡ yes → (s ≡ yes) × (t ≡ yes)
unfolding both
both-yes_iff yes t h = (refl, h)
both-yes_iff no t h = cc
both-yes_iff unknown yes h = cc
both-yes_iff unknown no h = cc
both-yes_iff unknown unknown h = cc

deleted_filter-with :
    {F : Foreign} (table : Text) (col : Option Text) (f : FilterNode F)
    → deleted_filter table col true false f ≡ f
unfolding deleted_filter
deleted_filter-with table none f = refl
deleted_filter-with table (some col) f = refl

module _ {F : Foreign} (v : FilterNode F → Truth) where
  -- On a model with a `deleted_at` column, a query with neither `with_deleted` nor `only_deleted`
  -- set is false in every row where the IS NULL test of that column is false, whatever its own
  -- filter is.
  pub effective_filter-live :
      (m : Model) (q : SelectQuery F) (col : Text)
      → m.deleted_at_column ≡ some col
      → q.with_deleted ≡ false
      → q.only_deleted ≡ false
      → v (FilterNode.is_null m.table col false) ≡ no
      → truth v (effective_filter m q) ≡ no
  unfolding effective_filter truth
  effective_filter-live m q col e hw ho h =
      let f = FilterNode.is_null m.table col false in
      rw (e) (
        rw (hw) (
          rw (ho) (
            truth-filter_and v q.filter f
            ∙ ap (both (truth v q.filter)) h
            ∙ both-no (truth v q.filter))))

  effective_filter-only_deleted :
      (m : Model) (q : SelectQuery F) (col : Text)
      → m.deleted_at_column ≡ some col
      → truth v (effective_filter m (only_deleted q))
        ≡ both (truth v q.filter) (v (FilterNode.is_null m.table col true))
  unfolding effective_filter only_deleted truth
  effective_filter-only_deleted m q col e =
      rw (e) (truth-filter_and v q.filter (FilterNode.is_null m.table col true))

  effective_filter-with_deleted :
      (m : Model) (q : SelectQuery F)
      → truth v (effective_filter m (with_deleted (only_deleted q))) ≡ truth v q.filter
  unfolding effective_filter only_deleted with_deleted
  effective_filter-with_deleted m q =
      ap (truth v) (deleted_filter-with m.table m.deleted_at_column q.filter)

  -- On a model with a `deleted_at` column, a query after `only_deleted` is in each row the AND of
  -- its own filter and the IS NOT NULL test of that column, and after `only_deleted` and then
  -- `with_deleted` it is its own filter alone.
  pub effective_filter-flags :
      (m : Model) (q : SelectQuery F) (col : Text)
      → m.deleted_at_column ≡ some col
      → (truth v (effective_filter m (only_deleted q))
          ≡ both (truth v q.filter) (v (FilterNode.is_null m.table col true)))
        × (truth v (effective_filter m (with_deleted (only_deleted q))) ≡ truth v q.filter)
  effective_filter-flags m q col e =
      (effective_filter-only_deleted m q col e, effective_filter-with_deleted m q)
