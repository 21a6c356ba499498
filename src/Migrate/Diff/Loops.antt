-- ===== src/Migrate/Diff/Loops.antt =====
-- What each loop of `diff_columns` does to one field (crates/migrate/src/diff.rs).
use ruprizzle_orm.Base.{
  ◌≡◌, ◌≢◌, ◌⊎◌, Bool, true, false, List, [], ◌∷◌, none, some, arith, any, any-append, Text,
  contains, contains_key, lookup, Option-cases, Bool-cases, inl, inr,
}
use ruprizzle_orm.Ir.{Field, has_column, Model}
use ruprizzle_orm.Migrate.Change.{Change, rename_column}
use ruprizzle_orm.Migrate.Diff.{alter, hinted, Hints, add_new, drop_removed, alter_changed}
use ruprizzle_orm.Migrate.Diff.Columns.{gains, loses}

pub hinted_lem :
    (prev : Model) (g : Field) (old : Text) (p : Field)
    → hinted prev g ≡ some (old, p)
    → (lookup old prev.fields ≡ some p) × (has_column p ≡ true) × (has_column g ≡ true)
unfolding hinted
hinted_lem prev g old p h = elim (Option-cases (g.attrs.renamed_from)) [
  | inl e ↦ absurd (ground arith)
  | inr (name, e) ↦ elim (Option-cases (lookup name prev.fields)) [
    | inl e' ↦ absurd (ground arith)
    | inr (q, e') ↦ ground arith
  ]
]

module _ (model : Text) (prev next : Model) (c n : Text) (f : Field) where
  pub gains-add_new :
      (renamed : List Text)
      → any (gains c) (add_new model prev renamed (n, f)) ≡ true
      → (has_column f ≡ true) × (f.column ≡ c)
  unfolding gains add_new
  gains-add_new renamed h = ground arith

  pub gains-add_new_missing :
      (renamed : List Text)
      → contains n renamed ≡ false
      → has_column f ≡ true
      → lookup n prev.fields ≡ none
      → f.column ≡ c
      → any (gains c) (add_new model prev renamed (n, f)) ≡ true
  unfolding gains add_new contains_key
  gains-add_new_missing renamed a b d e = ground arith

  pub loses-add_new :
      (renamed : List Text) → any (loses c) (add_new model prev renamed (n, f)) ≡ false
  unfolding loses add_new
  loses-add_new renamed = ground arith

  pub gains-drop_removed :
      (hints : Hints) → any (gains c) (drop_removed model next hints (n, f)) ≡ false
  unfolding gains drop_removed
  gains-drop_removed hints = ground arith

  pub loses-drop_removed :
      (hints : Hints)
      → any (loses c) (drop_removed model next hints (n, f)) ≡ true
      → (has_column f ≡ true)
        × (f.column ≡ c)
        × ((lookup n next.fields ≡ none) ⊎ (contains n hints.renamed ≡ true))
  unfolding loses drop_removed contains_key
  loses-drop_removed hints h = elim (Option-cases (lookup n next.fields)) [
    | inl e ↦ (ground arith, ground arith, inl e)
    | inr (g, e) ↦ (ground arith, ground arith, inr (ground arith))
  ]

  pub kept-drop_removed :
      (hints : Hints)
      → any (loses c) (drop_removed model next hints (n, f)) ≡ false
      → has_column f ≡ true
      → f.column ≡ c
      → (contains n hints.consumed_prev ≡ true)
        ⊎ ((contains n hints.renamed ≡ false) × ((g : Field) × (lookup n next.fields ≡ some g)))
  unfolding loses drop_removed contains_key
  kept-drop_removed hints h a b = elim (Bool-cases (contains n hints.consumed_prev)) [
    | inl e ↦ inl e
    | inr e ↦ elim (Option-cases (lookup n next.fields)) [
      | inl e' ↦ absurd (ground arith)
      | inr (g, e') ↦ inr (ground arith, (g, e'))
    ]
  ]

  pub alter_changed_moves :
      (renamed : List Text) (p : Field) (q : Change → Bool)
      → contains n renamed ≡ false
      → has_column f ≡ true
      → lookup n prev.fields ≡ some p
      → has_column p ≡ true
      → p.column ≢ f.column
      → any q (alter model p f) ≡ false
      → any q (alter_changed model prev renamed (n, f))
        ≡ q (rename_column model n n p.column f.column)
  unfolding alter_changed
  alter_changed_moves renamed p q a b d e ne s =
      ground
        (arith, any-append q (rename_column model n n p.column f.column ∷ []) (alter model p f))

  pub alter_changed_cases :
      (renamed : List Text) (q : Change → Bool)
      → ((p : Field) → any q (alter model p f) ≡ false)
      → any q (alter_changed model prev renamed (n, f)) ≡ true
      → (p : Field) × (contains n renamed ≡ false)
        × (has_column f ≡ true)
        × (lookup n prev.fields ≡ some p)
        × (has_column p ≡ true)
        × (p.column ≢ f.column)
        × (q (rename_column model n n p.column f.column) ≡ true)
  unfolding alter_changed
  alter_changed_cases renamed q s h = elim (Option-cases (lookup n prev.fields)) [
    | inl e ↦ absurd (ground arith)
    | inr (p, e) ↦
        let same_column = s p in
        let split =
          any-append q (rename_column model n n p.column f.column ∷ []) (alter model p f) in
        (p, ground arith, ground arith, e, ground arith, λ same. ground arith, ground arith)
  ]
