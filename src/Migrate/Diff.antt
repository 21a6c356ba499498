-- ===== src/Migrate/Diff.antt =====
-- crates/migrate/src/diff.rs. A loop that pushes changes is the list that it pushes. `order` is the
-- order in which a `HashMap` of relations lists its pairs.
pub mod Same
pub mod Unchanged
pub mod Columns
pub mod Loops
pub mod Renaming
pub mod Applied
use mathlib.Core.Logic.{ite}
use ruprizzle_orm.Base.{
  Bool, true, false, ◌&&◌, ◌||◌, not, List, [], ◌∷◌, ◌++◌, map, Option, none, some, if◌then◌else◌,
  any, flat_map, is_empty, Text, dec_text, contains, contains_key, lookup, insert,
}
use ruprizzle_orm.Ir.{
  EnumDef, EnumVariant, Field, FieldKind, has_column, Model, IndexDef, UniqueDef, RelationKind,
  ResolvedRelation, Schema,
}
use ruprizzle_orm.Ir.Equality.{
  dec_scalar_type, eq_kind, dec_native_type, dec_bool, eq_default, dec_index_def, dec_unique_def,
  dec_action, dec_texts,
}
use ruprizzle_orm.Migrate.Change
use ruprizzle_orm.Migrate.Change.{Change}

-- The keys of one map that another has not, in order.
unfoldable pub missing_variants :
    (Text → Change) → List (Text × EnumVariant) → List (Text × EnumVariant) → List Change
missing_variants change variants others =
    flat_map (λ p. if contains_key p.0 others then [] else change p.0 ∷ []) variants

unfoldable pub diff_variants : Text → EnumDef → EnumDef → List Change
diff_variants name prev_def next_def =
    missing_variants (Change.add_enum_variant name) next_def.variants prev_def.variants
    ++ missing_variants (Change.drop_enum_variant name) prev_def.variants next_def.variants

unfoldable pub diff_enums : Schema → Schema → List Change
diff_enums prev next =
    flat_map (λ p. if contains_key p.0 prev.enums then [] else Change.create_enum p.1 ∷ [])
      next.enums
    ++ (flat_map
          (λ p. if contains_key p.0 next.enums then [] else Change.drop_enum p.0 p.1.db_name ∷ [])
          prev.enums
        ++ flat_map
            (λ p. elim (lookup p.0 prev.enums) [
              | none ↦ []
              | some prev_def ↦ diff_variants p.0 prev_def p.1
            ])
            next.enums)

unfoldable pub scalar_changed : FieldKind → FieldKind → Bool
scalar_changed (FieldKind.scalar a) (FieldKind.scalar b) = ite (dec_scalar_type a b) false true
scalar_changed (FieldKind.enum a) (FieldKind.enum b) = ite (dec_text a b) false true
scalar_changed prev next = not (eq_kind prev next)

unfoldable pub aspects : Field → Field → List Change.ColumnAspect
aspects prev next =
    (if scalar_changed prev.kind next.kind
        || ite (dec_native_type prev.attrs.native_type next.attrs.native_type) false true
      then Change.aspect_type ∷ []
      else [])
    ++ (ite (dec_bool prev.optional next.optional) [] (Change.nullability ∷ [])
        ++ (if eq_default prev.default next.default then [] else Change.default_value ∷ []))

unfoldable pub column_aspects : Field → Field → Option (List Change.ColumnAspect)
column_aspects prev next =
    let found = aspects prev next in if is_empty found then none else some found

unfoldable pub alter : Text → Field → Field → List Change
alter model from to = elim (column_aspects from to) [
  | none ↦ []
  | some found ↦ Change.alter_column model from to found ∷ []
]

-- The field of the old schema that `@renamedFrom` names, if both have a column.
unfoldable pub hinted : Model → Field → Option (Text × Field)
hinted prev field = elim (field.attrs.renamed_from) [
  | none ↦ none
  | some old_name ↦ elim (lookup old_name prev.fields) [
    | none ↦ none
    | some prev_field ↦
        if not (has_column prev_field) || not (has_column field)
        then none
        else some (old_name, prev_field)
  ]
]

-- What the first loop of `diff_columns` leaves: its changes, `renamed` and `consumed_prev`.
pub record Hints : Type 0 where
  pub changes : List Change
  pub renamed : List Text
  pub consumed_prev : List Text

unfoldable pub rename_hints : Text → Model → List (Text × Field) → Hints
rename_hints model prev [] = record { changes = []; renamed = []; consumed_prev = [] }
rename_hints model prev ((new_name, field) ∷ fields) =
    let rest = rename_hints model prev fields in
    elim (hinted prev field) [
      | none ↦ rest
      | some (old_name, prev_field) ↦ record {
        changes =
            Change.rename_column model old_name new_name prev_field.column field.column
            ∷ (alter model (record prev_field { name = new_name; column = field.column }) field
                ++ rest.changes);
        renamed = new_name ∷ rest.renamed;
        consumed_prev = old_name ∷ rest.consumed_prev;
      }
    ]

unfoldable pub add_new : Text → Model → List Text → Text × Field → List Change
add_new model prev renamed (name, field) =
    if contains name renamed
    then []
    else if not (has_column field)
    then []
    else if contains_key name prev.fields
    then []
    else Change.add_column model field ∷ []

unfoldable pub drop_removed : Text → Model → Hints → Text × Field → List Change
drop_removed model next hints (name, field) =
    if contains name hints.consumed_prev
    then []
    else if not (has_column field)
    then []
    else if not (contains_key name next.fields) || contains name hints.renamed
    then Change.drop_column model field.column ∷ []
    else []

unfoldable pub alter_changed : Text → Model → List Text → Text × Field → List Change
alter_changed model prev renamed (name, next_field) =
    if contains name renamed || not (has_column next_field)
    then []
    else elim (lookup name prev.fields) [
      | none ↦ []
      | some prev_field ↦
          if not (has_column prev_field)
          then []
          else ite (dec_text prev_field.column next_field.column) []
              (Change.rename_column model name name prev_field.column next_field.column ∷ [])
            ++ alter model prev_field next_field
    ]

unfoldable pub diff_columns : Text → Model → Model → List Change
diff_columns model prev next =
    let hints = rename_hints model prev next.fields in
    hints.changes
    ++ (flat_map (add_new model prev hints.renamed) next.fields
        ++ (flat_map (drop_removed model next hints) prev.fields
            ++ flat_map (alter_changed model prev hints.renamed) next.fields))

unfoldable pub has_index : List IndexDef → IndexDef → Bool
has_index indexes ix =
    any (λ p. ite (dec_text p.db_name ix.db_name) true false && ite (dec_index_def p ix) true false)
      indexes

unfoldable pub diff_indexes : Text → Model → Model → List Change
diff_indexes model prev next =
    flat_map (λ ix. if has_index prev.indexes ix then [] else Change.create_index model ix ∷ [])
      next.indexes
    ++ flat_map
        (λ ix. if has_index next.indexes ix then [] else Change.drop_index model ix.db_name ∷ [])
        prev.indexes

unfoldable pub has_unique : List UniqueDef → UniqueDef → Bool
has_unique uniques uq =
    any
      (λ p. ite (dec_text p.db_name uq.db_name) true false && ite (dec_unique_def p uq) true false)
      uniques

unfoldable pub diff_uniques : Text → Model → Model → List Change
diff_uniques model prev next =
    flat_map (λ uq. if has_unique prev.uniques uq then [] else Change.add_unique model uq ∷ [])
      next.uniques
    ++ flat_map
        (λ uq. if has_unique next.uniques uq then [] else Change.drop_unique model uq.db_name ∷ [])
        prev.uniques

unfoldable pub diff_models : Schema → Schema → List Change
diff_models prev next =
    flat_map (λ p. if contains_key p.0 prev.models then [] else Change.create_model p.1 ∷ [])
      next.models
    ++ (flat_map
          (λ p. if contains_key p.0 next.models then [] else Change.drop_model p.0 p.1.table ∷ [])
          prev.models
        ++ flat_map
            (λ p. elim (lookup p.0 prev.models) [
              | none ↦ []
              | some prev_model ↦
                  diff_columns p.0 prev_model p.1
                  ++ (diff_indexes p.0 prev_model p.1 ++ diff_uniques p.0 prev_model p.1)
            ])
            next.models)

abbrev pub Relations : Type 0
Relations = List (Text × ResolvedRelation)

-- A many-to-many relation has no foreign key of its own.
unfoldable pub insert_by_name : RelationKind → ResolvedRelation → Relations → Relations
insert_by_name RelationKind.many_to_many r m = m
insert_by_name _ r m = insert r.name r m

-- The relations by name; of two with one name the later one stays.
unfoldable pub relations_by_name : List ResolvedRelation → Relations → Relations
relations_by_name [] m = m
relations_by_name (r ∷ rest) m = relations_by_name rest (insert_by_name r.kind r m)

unfoldable pub relation_changed : ResolvedRelation → ResolvedRelation → Bool
relation_changed p r =
    ite (dec_action p.on_delete r.on_delete) false true
    || (ite (dec_action p.on_update r.on_update) false true
        || (ite (dec_texts p.owner_cols r.owner_cols) false true
            || (ite (dec_text p.target r.target) false true
                || (ite (dec_texts p.target_cols r.target_cols) false true
                    || ite (dec_text p.constraint_name r.constraint_name) false true))))

unfoldable pub relation_added : Relations → Text × ResolvedRelation → List Change
relation_added prev_map (name, r) = elim (lookup name prev_map) [
  | none ↦ Change.add_foreign_key r.owner r ∷ []
  | some p ↦
      if relation_changed p r
      then Change.drop_foreign_key p.owner p ∷ Change.add_foreign_key r.owner r ∷ []
      else []
]

unfoldable pub relation_dropped :
    Schema → Schema → Relations → Text × ResolvedRelation → List Change
relation_dropped prev next next_map (name, r) =
    if contains_key r.owner prev.models && not (contains_key r.owner next.models)
    then []
    else if not (contains_key name next_map)
    then Change.drop_foreign_key r.owner r ∷ []
    else []

module _ (order : Relations → Relations) where
  unfoldable pub diff_relations : Schema → Schema → List Change
  diff_relations prev next =
      let prev_map = relations_by_name prev.relations [] in
      let next_map = relations_by_name next.relations [] in
      flat_map (relation_added prev_map) (order next_map)
      ++ flat_map (relation_dropped prev next next_map) (order prev_map)

  unfoldable pub diff : Schema → Schema → List Change
  diff prev next = diff_enums prev next ++ (diff_models prev next ++ diff_relations prev next)
