-- ===== src/Migrate/Diff/Applied.antt =====
-- The changes of a model's columns lead from the old columns to the new ones
-- (crates/migrate/src/diff.rs).
use ruprizzle_orm.Base.{
  ◌≡◌, sym, ◌⊎◌, ◌∙◌, true, false, ◌&&◌, List, some, arith, any, Text, dec_text, contains, lookup,
  Option-cases, Bool-cases, inl, inr,
}
use ruprizzle_orm.Ir.{Field, has_column, Model}
use ruprizzle_orm.Migrate.Change.{Change}
use ruprizzle_orm.Migrate.Diff.{hinted, Hints, rename_hints, drop_removed, diff_columns}
use ruprizzle_orm.Migrate.Diff.Columns.{
  same_text, gains, loses, has_columns, columns_after, any_of_lookup, lookup_of_any, is_hint, takes,
  leaves, gains-alter, loses-alter, contains-consumed_prev, gains-hints, loses-hints,
}
use ruprizzle_orm.Migrate.Diff.Loops.{
  hinted_lem, gains-add_new, gains-add_new_missing, loses-add_new, gains-drop_removed,
  loses-drop_removed, kept-drop_removed, alter_changed_moves, alter_changed_cases,
}
use ruprizzle_orm.Migrate.Diff.Renaming.{
  IsRenaming, gained_named, lost_named, renamed_of_hint, hint_of_renamed, column_field, has_field,
  hint_gains, change_cases, hint_changes, add_changes, drop_changes, alter_changes,
}

module _ (model : Text) (prev next : Model) (r : IsRenaming prev next) (c : Text) where
  abbrev hints : Hints
  hints = rename_hints model prev next.fields

  abbrev changes : List Change
  changes = diff_columns model prev next

  all_gains : any (gains c) changes ≡ true → has_columns next c ≡ true
  all_gains h = elim (change_cases model prev next r c (gains c) h) [
    | inl e ↦ hint_gains model prev next r c e
    | inr (inl (n, f, found, is)) ↦
        let (stored, named) = gains-add_new model prev next c n f hints.renamed is in
        has_field model prev next r c next n f found stored named
    | inr (inr (inl (n, f, found, is))) ↦
        absurd (ground (arith, gains-drop_removed model prev next c n f hints))
    | inr (inr (inr (n, f, found, is))) ↦
        let (p, not_renamed, stored, old, had, moved, gained) =
          alter_changed_cases model prev next c n f hints.renamed (gains c)
            (λ p. gains-alter model p f c) is in
        has_field model prev next r c next n f found stored (gained_named model n p f gained)
  ]

  lost_hint :
      any (loses c) hints.changes ≡ true
      → (m : Text) × (g : Field) × (old : Text) × (p : Field) × (lookup m next.fields ≡ some g)
        × (hinted prev g ≡ some (old, p))
        × (p.column ≡ c)
  lost_hint h =
      let (m, g, found, is) =
        lookup_of_any (λ p. leaves c (hinted prev p.1)) next.fields r.next_fields
          (sym (loses-hints model prev c next.fields) ∙ h) in
      elim (Option-cases (hinted prev g)) [
        | inl e ↦ absurd (ground arith)
        | inr ((old, p), e) ↦ (m, g, old, p, found, e, ground arith)
      ]

  -- A column that stays is taken away by no change.
  loses_nothing :
      (n : Text) (p f : Field)
      → lookup n prev.fields ≡ some p
      → has_column p ≡ true
      → p.column ≡ c
      → lookup n next.fields ≡ some f
      → f.column ≡ c
      → contains n hints.renamed ≡ false
      → any (loses c) changes ≡ true
      → ⊥
  loses_nothing n p f old had is_c new stays not_renamed lost =
      elim (change_cases model prev next r c (loses c) lost) [
        | inl e ↦
            let (m, g, old_name, q, found, hint, named) = lost_hint e in
            let (had_old, had', _) = hinted_lem prev g old_name q hint in
            let same = r.distinct n old_name p q old had_old had had' (is_c ∙ sym named) in
            let again : lookup old_name next.fields ≡ some f = rw (← same) new in
            let is =
              renamed_of_hint model prev next r c n f new
                (r.taken m old_name g q f found hint again) in
            ground arith
        | inr (inl (m, g, found, is)) ↦
            ground (arith, loses-add_new model prev next c m g hints.renamed)
        | inr (inr (inl (m, q, found, is))) ↦
            let (had', named, gone) = loses-drop_removed model prev next c m q hints is in
            let same = r.distinct n m p q old found had had' (is_c ∙ sym named) in
            elim gone [ inl missing ↦ ground arith | inr renamed ↦ ground arith ]
        | inr (inr (inr (m, g, found, is))) ↦
            let (q, m_not_renamed, stored, old', had', moved, gone) =
              alter_changed_cases model prev next c m g hints.renamed (loses c)
                (λ p. loses-alter model p g c) is in
            let named = lost_named model m q g gone in
            let same = r.distinct n m p q old old' had had' (is_c ∙ sym named) in
            moved (ground arith)
      ]

  -- A field that a hint renames from loses its column.
  consumed_loses :
      (n : Text) (p : Field)
      → lookup n prev.fields ≡ some p
      → p.column ≡ c
      → contains n hints.consumed_prev ≡ true
      → any (loses c) changes ≡ true
  consumed_loses n p old named h =
      let (m, g, found, is) =
        lookup_of_any (λ p. takes n (hinted prev p.1)) next.fields r.next_fields
          (sym (contains-consumed_prev model prev n next.fields) ∙ h) in
      elim (Option-cases (hinted prev g)) [
        | inl e ↦ absurd (ground arith)
        | inr ((old_name, q), e) ↦
            let (old', _, _) = hinted_lem prev g old_name q e in
            hint_changes model prev next r c (loses c) (
              rw (loses-hints model prev c next.fields) (
                any_of_lookup (λ p. leaves c (hinted prev p.1)) next.fields m g found
                  (ground arith)))
      ]

  kept_stays :
      (n : Text) (p f : Field)
      → lookup n prev.fields ≡ some p
      → has_column p ≡ true
      → p.column ≡ c
      → contains n hints.renamed ≡ false
      → lookup n next.fields ≡ some f
      → any (loses c) changes ≡ false
      → has_columns next c ≡ true
  unfolding loses
  kept_stays n p f old had named not_renamed new kept =
      let stored : has_column f ≡ true = sym (r.kinds n p f old new) ∙ had in
      elim (dec_text p.column f.column) [
        | yes same ↦ has_field model prev next r c next n f new stored (sym same ∙ named)
        | no moved ↦ absurd (
            let gone =
              alter_changed_moves model prev next c n f hints.renamed p (loses c) not_renamed stored
                old had moved (loses-alter model p f c) in
            ground (arith, alter_changes model prev next r c (loses c) n f new))
      ]

  from_prev : has_columns prev c ≡ true → any (loses c) changes ≡ false → has_columns next c ≡ true
  from_prev h kept =
      let (n, p, old, had, named) = column_field model prev next r c prev r.prev_fields h in
      elim (Bool-cases (any (loses c) (drop_removed model next hints (n, p)))) [
        | inl dropped ↦
            absurd (ground (arith, drop_changes model prev next r c (loses c) n p old dropped))
        | inr not_dropped ↦
            elim (kept-drop_removed model prev next c n p hints not_dropped had named) [
              | inl consumed ↦ absurd (ground (arith, consumed_loses n p old named consumed))
              | inr (not_renamed, (f, new)) ↦ kept_stays n p f old had named not_renamed new kept
            ]
      ]

  -- A new column is gained, or is an old one that stays.
  gained_or_stays :
      (n : Text) (f : Field)
      → lookup n next.fields ≡ some f
      → has_column f ≡ true
      → f.column ≡ c
      → (any (gains c) changes ≡ true)
        ⊎ ((has_columns prev c ≡ true) × (any (loses c) changes ≡ false))
  unfolding gains
  gained_or_stays n f new stored named = elim (Bool-cases (contains n hints.renamed)) [
    | inl renamed ↦ inl (
        hint_changes model prev next r c (gains c) (
          rw (gains-hints model prev c next.fields) (
            let is = hint_of_renamed model prev next r c n f new renamed in
            any_of_lookup (λ p. is_hint (hinted prev p.1) && same_text p.1.column c) next.fields n f
              new (ground arith))))
    | inr not_renamed ↦ elim (Option-cases (lookup n prev.fields)) [
      | inl missing ↦ inl (
          add_changes model prev next r c (gains c) n f new (
            gains-add_new_missing model prev next c n f hints.renamed not_renamed stored missing
              named))
      | inr (p, old) ↦
          let had : has_column p ≡ true = r.kinds n p f old new ∙ stored in
          elim (dec_text p.column f.column) [
            | yes same ↦ inr (
              has_field model prev next r c prev n p old had (same ∙ named),
              elim (Bool-cases (any (loses c) changes)) [
                | inr kept ↦ kept
                | inl lost ↦
                    absurd (loses_nothing n p f old had (same ∙ named) new named not_renamed lost)
              ],
            )
            | no moved ↦
                let gained =
                  alter_changed_moves model prev next c n f hints.renamed p (gains c) not_renamed
                    stored old had moved (gains-alter model p f c) in
                inl (ground (arith, alter_changes model prev next r c (gains c) n f new))
          ]
    ]
  ]

  -- For two models of one name, the changes that `diff_columns` lists, made all at once to the
  -- columns of the old model, give exactly the columns of the new model: those gained by an
  -- addition or a rename, and the old ones that no drop and no rename takes away. The conditions
  -- are that no field name and, in the old model, no column occurs twice, that no field turns from
  -- a relation into a column or back, and that a field which has the name that another field was
  -- renamed from is renamed itself.
  pub columns_after-diff_columns : columns_after (has_columns prev) changes c ≡ has_columns next c
  unfolding columns_after
  columns_after-diff_columns = elim (Bool-cases (has_columns next c)) [
    | inl h ↦
        let (n, f, new, stored, named) = column_field model prev next r c next r.next_fields h in
        elim (gained_or_stays n f new stored named) [
          | inl gained ↦ ground arith
          | inr (had, kept) ↦ ground arith
        ]
    | inr h ↦ ground (arith, all_gains, from_prev)
  ]
