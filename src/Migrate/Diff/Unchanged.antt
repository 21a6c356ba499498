-- ===== src/Migrate/Diff/Unchanged.antt =====
-- The diff of a whole schema with itself (crates/migrate/src/diff.rs).
use mathlib.Core.Logic.{if_pos, if_neg}
use ruprizzle_orm.Base.{
  ◌≡◌, true, false, List, [], ◌∷◌, some, arith, if◌then◌else◌, All, Text, dec_text, contains_key,
  lookup, remove, insert, lookup-insert,
}
use ruprizzle_orm.Ir.{
  EnumVariant, Model, IndexDef, UniqueDef, RelationKind, ResolvedRelation, Schema,
}
use ruprizzle_orm.Migrate.Change.{Change}
use ruprizzle_orm.Migrate.Diff.{
  missing_variants, diff_variants, diff_enums, has_index, diff_indexes, has_unique, diff_uniques,
  diff_models, Relations, insert_by_name, relations_by_name, relation_changed, relation_added,
  relation_dropped, diff_relations, diff,
}
use ruprizzle_orm.Migrate.Diff.Same.{
  IsMap, IsPlain, IsOrder, flat_map_nothing, All-both, diff_columns_self,
}

missing_variants_self :
    (change : Text → Change) (m : List (Text × EnumVariant))
    → IsMap m
    → missing_variants change m m ≡ []
unfolding missing_variants contains_key
missing_variants_self change m h = flat_map_nothing _ m (All-both m (λ p e k. ground arith) h h)

diff_enums_self : (s : Schema) → IsPlain s → diff_enums s s ≡ []
unfolding diff_enums contains_key diff_variants
diff_enums_self s p =
    rw
      (
        flat_map_nothing (λ p. if contains_key p.0 s.enums then [] else Change.create_enum p.1 ∷ [])
            s.enums (All-both s.enums (λ p e k. ground arith) p.enums p.enums),
        flat_map_nothing
            (λ p. if contains_key p.0 s.enums then [] else Change.drop_enum p.0 p.1.db_name ∷ [])
            s.enums (All-both s.enums (λ p e k. ground arith) p.enums p.enums),
      )
      (flat_map_nothing _ s.enums (
        All-both s.enums
          (λ p e k. ground (
            arith,
            missing_variants_self (Change.add_enum_variant p.0) p.1.variants k,
            missing_variants_self (Change.drop_enum_variant p.0) p.1.variants k,
          ))
          p.enums p.variants))

has_index_self : (xs : List IndexDef) → All (λ ix. has_index xs ix ≡ true) xs
unfolding has_index
has_index_self [] = tt
has_index_self (x ∷ xs) =
    (ground arith, All-both xs (λ y h k. ground arith) (has_index_self xs) (has_index_self xs))

has_unique_self : (xs : List UniqueDef) → All (λ uq. has_unique xs uq ≡ true) xs
unfolding has_unique
has_unique_self [] = tt
has_unique_self (x ∷ xs) =
    (ground arith, All-both xs (λ y h k. ground arith) (has_unique_self xs) (has_unique_self xs))

diff_indexes_self : (model : Text) (m : Model) → diff_indexes model m m ≡ []
unfolding diff_indexes
diff_indexes_self model m =
    let here = has_index_self m.indexes in
    rw
      (flat_map_nothing
        (λ ix. if has_index m.indexes ix then [] else Change.create_index model ix ∷ []) m.indexes
        (All-both m.indexes (λ ix h k. ground arith) here here))
      (flat_map_nothing _ m.indexes (All-both m.indexes (λ ix h k. ground arith) here here))

diff_uniques_self : (model : Text) (m : Model) → diff_uniques model m m ≡ []
unfolding diff_uniques
diff_uniques_self model m =
    let here = has_unique_self m.uniques in
    rw
      (flat_map_nothing
        (λ uq. if has_unique m.uniques uq then [] else Change.add_unique model uq ∷ []) m.uniques
        (All-both m.uniques (λ uq h k. ground arith) here here))
      (flat_map_nothing _ m.uniques (All-both m.uniques (λ uq h k. ground arith) here here))

diff_models_self : (s : Schema) → IsPlain s → diff_models s s ≡ []
unfolding diff_models contains_key
diff_models_self s p =
    rw
      (
        flat_map_nothing
            (λ p. if contains_key p.0 s.models then [] else Change.create_model p.1 ∷ []) s.models
            (All-both s.models (λ p e k. ground arith) p.models p.models),
        flat_map_nothing
            (λ p. if contains_key p.0 s.models then [] else Change.drop_model p.0 p.1.table ∷ [])
            s.models (All-both s.models (λ p e k. ground arith) p.models p.models),
      )
      (flat_map_nothing _ s.models (
        All-both s.models
          (λ p e k. ground (
            arith,
            diff_columns_self p.0 p.1 k,
            diff_indexes_self p.0 p.1,
            diff_uniques_self p.0 p.1,
          ))
          p.models p.plain))

-- An insertion keeps a map a map.
remove-All :
    (k : Text) (v : ResolvedRelation) (n m : Relations)
    → All (λ p. lookup p.0 n ≡ some p.1) m
    → All (λ p. lookup p.0 (insert k v n) ≡ some p.1) (remove k m)
unfolding remove
remove-All k v n [] h = tt
remove-All k v n ((q, w) ∷ m) h = elim (dec_text q k) [
  | yes p ↦ rw (if_pos _ p) (remove-All k v n m h.1)
  | no p ↦ rw (if_neg _ p) (ground (arith, lookup-insert k q v n), remove-All k v n m h.1)
]

insert-IsMap : (k : Text) (v : ResolvedRelation) (m : Relations) → IsMap m → IsMap (insert k v m)
insert-IsMap k v m h =
    unfold insert in (ground (arith, lookup-insert k k v m), remove-All k v m m h)

insert_by_name-IsMap :
    (kind : RelationKind) (r : ResolvedRelation) (m : Relations)
    → IsMap m
    → IsMap (insert_by_name kind r m)
unfolding insert_by_name
insert_by_name-IsMap RelationKind.many_to_many r m h = h
insert_by_name-IsMap RelationKind.one_to_one r m h = insert-IsMap r.name r m h
insert_by_name-IsMap RelationKind.many_to_one r m h = insert-IsMap r.name r m h

relations_by_name-IsMap :
    (rs : List ResolvedRelation) (m : Relations) → IsMap m → IsMap (relations_by_name rs m)
unfolding relations_by_name
relations_by_name-IsMap [] m h = h
relations_by_name-IsMap (r ∷ rs) m h =
    relations_by_name-IsMap rs _ (insert_by_name-IsMap r.kind r m h)

relation_changed_self : (r : ResolvedRelation) → relation_changed r r ≡ false
unfolding relation_changed
relation_changed_self r = ground arith

relation_added_self :
    (m : Relations) (p : Text × ResolvedRelation)
    → lookup p.0 m ≡ some p.1
    → relation_added m p ≡ []
unfolding relation_added
relation_added_self m p e = ground (arith, relation_changed_self p.1)

relation_dropped_self :
    (s : Schema) (m : Relations) (p : Text × ResolvedRelation)
    → lookup p.0 m ≡ some p.1
    → relation_dropped s s m p ≡ []
unfolding relation_dropped contains_key
relation_dropped_self s m p e = ground arith

module _ (order : Relations → Relations) (o : IsOrder order) where
  diff_relations_self : (s : Schema) → diff_relations order s s ≡ []
  unfolding diff_relations
  diff_relations_self s =
      let m = relations_by_name s.relations [] in
      let listed = o m (relations_by_name-IsMap s.relations [] tt) in
      rw
        (flat_map_nothing (relation_added m) (order m)
          (All-both (order m) (λ p e k. relation_added_self m p e) listed listed))
        (flat_map_nothing _ (order m)
          (All-both (order m) (λ p e k. relation_dropped_self s m p e) listed listed))

  -- The diff of a schema with itself is empty, in whatever order the maps of relations are listed,
  -- where no key occurs twice, no default is a NaN, and no `@renamedFrom` names a field that its
  -- model has.
  pub diff_self : (s : Schema) → IsPlain s → diff order s s ≡ []
  unfolding diff
  diff_self s p = rw (diff_enums_self s p, diff_models_self s p, diff_relations_self s)
