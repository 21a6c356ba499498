-- ===== src/Migrate/Diff/Columns.antt =====
-- The columns of a model before and after its changes (crates/migrate/src/diff.rs), and what each
-- loop of `diff_columns` adds to and takes from them.
use mathlib.Core.Logic.{ite}
use ruprizzle_orm.Base.{
  ◌≡◌, refl, Bool, true, false, ◌&&◌, ◌||◌, not, List, [], ◌∷◌, ◌++◌, Option, none, some, arith,
  any, any-append, any-flat_map, flat_map, All, Text, dec_text, contains, lookup, Option-cases,
  Bool-cases, inl, inr,
}
use ruprizzle_orm.Ir.{Field, has_column, Model}
use ruprizzle_orm.Migrate.Change.{
  Change, ColumnAspect, add_column, drop_column, rename_column, alter_column,
}
use ruprizzle_orm.Migrate.Diff.{
  column_aspects, alter, hinted, rename_hints, add_new, drop_removed, alter_changed, diff_columns,
}
use ruprizzle_orm.Migrate.Diff.Same.{IsMap}

abbrev pub same_text : Text → Text → Bool
same_text s t = ite (dec_text s t) true false

-- Whether a change brings the column `c`, and whether it takes it away.
unfoldable pub gains : Text → Change → Bool
gains c (add_column _ field) = same_text field.column c
gains c (rename_column _ _ _ _ to_column) = same_text to_column c
gains c _ = false

unfoldable pub loses : Text → Change → Bool
loses c (drop_column _ column) = same_text column c
loses c (rename_column _ _ _ from_column _) = same_text from_column c
loses c _ = false

unfoldable pub has_columns : Model → Text → Bool
has_columns m c = any (λ p. has_column p.1 && same_text p.1.column c) m.fields

-- The columns of a table behind all of its changes.
unfoldable pub columns_after : (Text → Bool) → List Change → Text → Bool
columns_after had changes c = any (gains c) changes || (had c && not (any (loses c) changes))

module _ {V : Type 0} (q : Text × V → Bool) where
  pub any_of_lookup :
      (m : List (Text × V)) (n : Text) (v : V)
      → lookup n m ≡ some v
      → q (n, v) ≡ true
      → any q m ≡ true
  unfolding lookup
  any_of_lookup [] n v e h = absurd (ground arith)
  any_of_lookup ((k, w) ∷ m) n v e h = ground (arith, any_of_lookup m n v)

  any_in :
      (m rest : List (Text × V))
      → All (λ p. lookup p.0 m ≡ some p.1) rest
      → any q rest ≡ true
      → (n : Text) × (v : V) × (lookup n m ≡ some v) × (q (n, v) ≡ true)
  any_in m [] a h = absurd (ground arith)
  any_in m ((k, w) ∷ rest) a h = elim (Bool-cases (q (k, w))) [
    | inl e ↦ (k, w, a.0, e)
    | inr e ↦ any_in m rest a.1 (ground arith)
  ]

  pub lookup_of_any :
      (m : List (Text × V))
      → IsMap m
      → any q m ≡ true
      → (n : Text) × (v : V) × (lookup n m ≡ some v) × (q (n, v) ≡ true)
  lookup_of_any m a h = any_in m m a h

abbrev pub is_hint : Option (Text × Field) → Bool
is_hint none = false
is_hint (some _) = true

abbrev pub takes : Text → Option (Text × Field) → Bool
takes n none = false
takes n (some (old_name, _)) = same_text old_name n

abbrev pub leaves : Text → Option (Text × Field) → Bool
leaves c none = false
leaves c (some (_, prev_field)) = same_text prev_field.column c

any-alter :
    (q : Change → Bool) (model : Text) (from to : Field)
    → ((found : List ColumnAspect) → q (alter_column model from to found) ≡ false)
    → any q (alter model from to) ≡ false
unfolding alter
any-alter q model from to h = elim (Option-cases (column_aspects from to)) [
  | inl e ↦ ground arith
  | inr (found, e) ↦ ground (arith, h found)
]

module _ (model : Text) (from to : Field) (c : Text) where
  pub gains-alter : any (gains c) (alter model from to) ≡ false
  unfolding gains
  gains-alter = any-alter (gains c) model from to (λ found. refl)

  pub loses-alter : any (loses c) (alter model from to) ≡ false
  unfolding loses
  loses-alter = any-alter (loses c) model from to (λ found. refl)

module _ (model : Text) (prev : Model) where
  pub contains-renamed :
      (n : Text) (fields : List (Text × Field))
      → contains n (rename_hints model prev fields).renamed
        ≡ any (λ p. same_text p.0 n && is_hint (hinted prev p.1)) fields
  unfolding rename_hints contains
  contains-renamed n [] = refl
  contains-renamed n ((k, f) ∷ fields) = elim (Option-cases (hinted prev f)) [
    | inl e ↦ ground (arith, contains-renamed n fields)
    | inr (old, e) ↦ ground (arith, contains-renamed n fields)
  ]

  pub contains-consumed_prev :
      (n : Text) (fields : List (Text × Field))
      → contains n (rename_hints model prev fields).consumed_prev
        ≡ any (λ p. takes n (hinted prev p.1)) fields
  unfolding rename_hints contains
  contains-consumed_prev n [] = refl
  contains-consumed_prev n ((k, f) ∷ fields) = elim (Option-cases (hinted prev f)) [
    | inl e ↦ ground (arith, contains-consumed_prev n fields)
    | inr (old, e) ↦ ground (arith, contains-consumed_prev n fields)
  ]

  pub gains-hints :
      (c : Text) (fields : List (Text × Field))
      → any (gains c) (rename_hints model prev fields).changes
        ≡ any (λ p. is_hint (hinted prev p.1) && same_text p.1.column c) fields
  unfolding rename_hints gains
  gains-hints c [] = refl
  gains-hints c ((k, f) ∷ fields) = elim (Option-cases (hinted prev f)) [
    | inl e ↦ ground (arith, gains-hints c fields)
    | inr ((old, p), e) ↦
        let moved = record p { name = k; column = f.column } in
        ground (
          arith,
          gains-hints c fields,
          any-append (gains c) (alter model moved f) (rename_hints model prev fields).changes,
          gains-alter model moved f c,
        )
  ]

  pub loses-hints :
      (c : Text) (fields : List (Text × Field))
      → any (loses c) (rename_hints model prev fields).changes
        ≡ any (λ p. leaves c (hinted prev p.1)) fields
  unfolding rename_hints loses
  loses-hints c [] = refl
  loses-hints c ((k, f) ∷ fields) = elim (Option-cases (hinted prev f)) [
    | inl e ↦ ground (arith, loses-hints c fields)
    | inr ((old, p), e) ↦
        let moved = record p { name = k; column = f.column } in
        ground (
          arith,
          loses-hints c fields,
          any-append (loses c) (alter model moved f) (rename_hints model prev fields).changes,
          loses-alter model moved f c,
        )
  ]

-- The changes of all four loops.
pub any-diff_columns :
    (q : Change → Bool) (model : Text) (prev next : Model)
    → let hints = rename_hints model prev next.fields in
      any q (diff_columns model prev next) ≡ (
        any q hints.changes
        || (any (λ p. any q (add_new model prev hints.renamed p)) next.fields
            || (any (λ p. any q (drop_removed model next hints p)) prev.fields
                || any (λ p. any q (alter_changed model prev hints.renamed p)) next.fields)))
unfolding diff_columns
any-diff_columns q model prev next =
    let hints = rename_hints model prev next.fields in
    let added = flat_map (add_new model prev hints.renamed) next.fields in
    let dropped = flat_map (drop_removed model next hints) prev.fields in
    let altered = flat_map (alter_changed model prev hints.renamed) next.fields in
    rw (
      any-append q hints.changes (added ++ (dropped ++ altered)),
      any-append q added (dropped ++ altered),
      any-append q dropped altered,
      any-flat_map q (add_new model prev hints.renamed) next.fields,
      any-flat_map q (drop_removed model next hints) prev.fields,
      any-flat_map q (alter_changed model prev hints.renamed) next.fields,
    )
