-- ===== src/Migrate/Diff/Renaming.antt =====
-- Two models with the columns that their changes bring and take (crates/migrate/src/diff.rs).
use ruprizzle_orm.Base.{
  ◌≡◌, sym, ◌⊎◌, ◌∙◌, Bool, true, ◌&&◌, List, some, arith, any, Text, contains, lookup,
  Option-cases, Bool-cases, inl, inr,
}
use ruprizzle_orm.Ir.{Field, has_column, Model}
use ruprizzle_orm.Migrate.Change.{Change, rename_column}
use ruprizzle_orm.Migrate.Diff.{
  hinted, Hints, rename_hints, add_new, drop_removed, alter_changed, diff_columns,
}
use ruprizzle_orm.Migrate.Diff.Same.{IsMap}
use ruprizzle_orm.Migrate.Diff.Columns.{
  same_text, gains, loses, has_columns, any_of_lookup, lookup_of_any, is_hint, contains-renamed,
  gains-hints, any-diff_columns,
}
use ruprizzle_orm.Migrate.Diff.Loops.{hinted_lem}

pub gained_named :
    (model n : Text) (p f : Field) {c : Text}
    → gains c (rename_column model n n p.column f.column) ≡ true
    → f.column ≡ c
unfolding gains
gained_named model n p f h = ground arith

pub lost_named :
    (model n : Text) (p f : Field) {c : Text}
    → loses c (rename_column model n n p.column f.column) ≡ true
    → p.column ≡ c
unfolding loses
lost_named model n p f h = ground arith

-- Two models of one name whose `@renamedFrom` hints can be followed.
pub record IsRenaming (prev next : Model) : Type 0 where
  -- A name or a column does not occur twice.
  pub prev_fields : IsMap prev.fields
  pub next_fields : IsMap next.fields
  pub distinct :
      (n m : Text) (p q : Field)
      → lookup n prev.fields ≡ some p
      → lookup m prev.fields ≡ some q
      → has_column p ≡ true
      → has_column q ≡ true
      → p.column ≡ q.column
      → n ≡ m
  -- A field does not turn from a relation into a column, or back.
  pub kinds :
      (n : Text) (p f : Field)
      → lookup n prev.fields ≡ some p
      → lookup n next.fields ≡ some f
      → has_column p ≡ has_column f
  -- A field that has the name that another was renamed from is renamed itself.
  pub taken :
      (m old : Text) (g p f : Field)
      → lookup m next.fields ≡ some g
      → hinted prev g ≡ some (old, p)
      → lookup old next.fields ≡ some f
      → is_hint (hinted prev f) ≡ true

module _ (model : Text) (prev next : Model) (r : IsRenaming prev next) (c : Text) where
  abbrev pub hints : Hints
  hints = rename_hints model prev next.fields

  abbrev pub changes : List Change
  changes = diff_columns model prev next

  pub renamed_of_hint :
      (n : Text) (f : Field)
      → lookup n next.fields ≡ some f
      → is_hint (hinted prev f) ≡ true
      → contains n hints.renamed ≡ true
  renamed_of_hint n f e h = rw (contains-renamed model prev n next.fields) (
      any_of_lookup (λ p. same_text p.0 n && is_hint (hinted prev p.1)) next.fields n f e
        (ground arith))

  pub hint_of_renamed :
      (n : Text) (f : Field)
      → lookup n next.fields ≡ some f
      → contains n hints.renamed ≡ true
      → is_hint (hinted prev f) ≡ true
  hint_of_renamed n f e h =
      let (m, g, found, is) =
        lookup_of_any (λ p. same_text p.0 n && is_hint (hinted prev p.1)) next.fields r.next_fields
          (sym (contains-renamed model prev n next.fields) ∙ h) in
      let same : m ≡ n = ground arith in
      let twice : lookup n next.fields ≡ some g = rw same at found in
      let one : some g ≡ some f = sym twice ∙ e in
      let alike : g ≡ f = ground arith in rw (← alike) (ground arith)

  pub column_field :
      (m : Model)
      → IsMap m.fields
      → has_columns m c ≡ true
      → (n : Text) × (f : Field) × (lookup n m.fields ≡ some f)
        × (has_column f ≡ true)
        × (f.column ≡ c)
  unfolding has_columns
  column_field m is_map h =
      let (n, f, found, is) =
        lookup_of_any (λ p. has_column p.1 && same_text p.1.column c) m.fields is_map h in
      (n, f, found, ground arith, ground arith)

  pub has_field :
      (m : Model) (n : Text) (f : Field)
      → lookup n m.fields ≡ some f
      → has_column f ≡ true
      → f.column ≡ c
      → has_columns m c ≡ true
  unfolding has_columns
  has_field m n f e a b =
      any_of_lookup (λ p. has_column p.1 && same_text p.1.column c) m.fields n f e (ground arith)

  -- What the hints bring is a column of the new model.
  pub hint_gains : any (gains c) hints.changes ≡ true → has_columns next c ≡ true
  hint_gains h =
      let (n, f, e, is) =
        lookup_of_any (λ p. is_hint (hinted prev p.1) && same_text p.1.column c) next.fields
          r.next_fields (sym (gains-hints model prev c next.fields) ∙ h) in
      elim (Option-cases (hinted prev f)) [
        | inl e' ↦ absurd (ground arith)
        | inr ((old, p), e') ↦ has_field next n f e (hinted_lem prev f old p e').2 (ground arith)
      ]

  -- One of the four loops has made a change.
  pub change_cases :
      (q : Change → Bool)
      → any q changes ≡ true
      → (any q hints.changes ≡ true)
        ⊎ (((n : Text) × (f : Field) × (lookup n next.fields ≡ some f)
              × (any q (add_new model prev hints.renamed (n, f)) ≡ true))
            ⊎ (((n : Text) × (p : Field) × (lookup n prev.fields ≡ some p)
                  × (any q (drop_removed model next hints (n, p)) ≡ true))
                ⊎ ((n : Text) × (f : Field) × (lookup n next.fields ≡ some f)
                    × (any q (alter_changed model prev hints.renamed (n, f)) ≡ true))))
  change_cases q h =
      let added = λ (p : Text × Field). any q (add_new model prev hints.renamed p) in
      let dropped = λ (p : Text × Field). any q (drop_removed model next hints p) in
      let altered = λ (p : Text × Field). any q (alter_changed model prev hints.renamed p) in
      let whole = any-diff_columns q model prev next in
      elim (Bool-cases (any q hints.changes)) [
        | inl e ↦ inl e
        | inr e ↦ elim (Bool-cases (any added next.fields)) [
          | inl e' ↦ inr (inl (lookup_of_any added next.fields r.next_fields e'))
          | inr e' ↦ elim (Bool-cases (any dropped prev.fields)) [
            | inl e'' ↦ inr (inr (inl (lookup_of_any dropped prev.fields r.prev_fields e'')))
            | inr e'' ↦ inr (
                inr (inr (lookup_of_any altered next.fields r.next_fields (ground (arith, whole)))))
          ]
        ]
      ]

  pub hint_changes : (q : Change → Bool) → any q hints.changes ≡ true → any q changes ≡ true
  hint_changes q h = ground (arith, any-diff_columns q model prev next)

  pub add_changes :
      (q : Change → Bool) (n : Text) (f : Field)
      → lookup n next.fields ≡ some f
      → any q (add_new model prev hints.renamed (n, f)) ≡ true
      → any q changes ≡ true
  add_changes q n f e h = ground (
    arith,
    any-diff_columns q model prev next,
    any_of_lookup (λ p. any q (add_new model prev hints.renamed p)) next.fields n f e h,
  )

  pub drop_changes :
      (q : Change → Bool) (n : Text) (p : Field)
      → lookup n prev.fields ≡ some p
      → any q (drop_removed model next hints (n, p)) ≡ true
      → any q changes ≡ true
  drop_changes q n p e h = ground (
    arith,
    any-diff_columns q model prev next,
    any_of_lookup (λ p. any q (drop_removed model next hints p)) prev.fields n p e h,
  )

  pub alter_changes :
      (q : Change → Bool) (n : Text) (f : Field)
      → lookup n next.fields ≡ some f
      → any q (alter_changed model prev hints.renamed (n, f)) ≡ true
      → any q changes ≡ true
  alter_changes q n f e h = ground (
    arith,
    any-diff_columns q model prev next,
    any_of_lookup (λ p. any q (alter_changed model prev hints.renamed p)) next.fields n f e h,
  )
