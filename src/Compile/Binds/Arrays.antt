-- ===== src/Compile/Binds/Arrays.antt =====
-- The values of the array and spatial predicates of crates/runtime/src/compile.rs.
use ruprizzle_orm.Base.{List, [], ◌∷◌, Option, none, some, Text, str}
use ruprizzle_orm.Dialect.{Dialect, postgres, sqlite, mysql}
use ruprizzle_orm.Compile.Value.{Foreign, Value}
use ruprizzle_orm.Compile.Filter.{ArrayFilterOp, SpatialOp}
use ruprizzle_orm.Compile.State.{separated}
use ruprizzle_orm.Compile.Array.{
  push_json_array, first_or_null, array_op_postgres, mysql_candidate, array_op_mysql, each_exists,
  array_op_sqlite, push_array_op,
}
use ruprizzle_orm.Compile.Spatial.{radius, spatial_postgres, spatial_other, push_spatial_op}
use ruprizzle_orm.Compile.Binds.{
  Binds, binds_rules, Binds-values, Binds-separated, gather-single, Binds-⨾,
}
use ruprizzle_orm.Compile.Binds.Leaves.{array_values, spatial_values, Binds-on_geometry}

module _ {F : Foreign} (table column : Text) where
  Binds-push_json_array : (d : Dialect) (vs : List (Value F)) → Binds (push_json_array d vs) vs
  unfolding push_json_array
  Binds-push_json_array d vs = search (binds_rules, Binds-values)

  Binds-array_postgres :
      (op : ArrayFilterOp) (vs : List (Value F))
      → Binds (array_op_postgres table column op vs) (array_values postgres op vs)
  unfolding array_op_postgres first_or_null
  Binds-array_postgres ArrayFilterOp.has [] = search binds_rules depth 8
  Binds-array_postgres ArrayFilterOp.has (v ∷ vs) = search binds_rules depth 8
  Binds-array_postgres ArrayFilterOp.contains vs = search binds_rules depth 8
  Binds-array_postgres ArrayFilterOp.contained_by vs = search binds_rules depth 8
  Binds-array_postgres ArrayFilterOp.overlaps vs = search binds_rules depth 8
  Binds-array_postgres ArrayFilterOp.is_empty vs = search binds_rules depth 8
  Binds-array_postgres ArrayFilterOp.is_not_empty vs = search binds_rules depth 8

  Binds-array_mysql :
      (op : ArrayFilterOp) (vs : List (Value F))
      → Binds (array_op_mysql table column op vs) (array_values mysql op vs)
  unfolding array_op_mysql mysql_candidate
  Binds-array_mysql ArrayFilterOp.has [] = search binds_rules depth 8
  Binds-array_mysql ArrayFilterOp.has (v ∷ vs) = search (binds_rules, Binds-push_json_array) depth 8
  Binds-array_mysql ArrayFilterOp.contains vs = search (binds_rules, Binds-push_json_array) depth 8
  Binds-array_mysql ArrayFilterOp.contained_by vs =
      search (binds_rules, Binds-push_json_array) depth 8
  Binds-array_mysql ArrayFilterOp.overlaps vs = search (binds_rules, Binds-push_json_array) depth 8
  Binds-array_mysql ArrayFilterOp.is_empty vs = search binds_rules depth 8
  Binds-array_mysql ArrayFilterOp.is_not_empty vs = search binds_rules depth 8

  Binds-each_exists : (v : Value F) → Binds (each_exists table column v) (v ∷ [])
  unfolding each_exists
  Binds-each_exists v = search binds_rules depth 8

  Binds-all_exist :
      (vs : List (Value F)) → Binds (separated (str " AND ") (each_exists table column) vs) vs
  Binds-all_exist vs =
      rw (gather-single vs) at (
        Binds-separated (str " AND ") (each_exists table column) (λ v. v ∷ []) vs Binds-each_exists)

  Binds-array_sqlite :
      (op : ArrayFilterOp) (vs : List (Value F))
      → Binds (array_op_sqlite table column op vs) (array_values sqlite op vs)
  unfolding array_op_sqlite first_or_null
  Binds-array_sqlite ArrayFilterOp.has [] = Binds-each_exists Value.null
  Binds-array_sqlite ArrayFilterOp.has (v ∷ vs) = Binds-each_exists v
  Binds-array_sqlite ArrayFilterOp.contains [] = search binds_rules
  Binds-array_sqlite ArrayFilterOp.contains (v ∷ vs) = Binds-all_exist (v ∷ vs)
  Binds-array_sqlite ArrayFilterOp.contained_by [] = search binds_rules
  Binds-array_sqlite ArrayFilterOp.contained_by (v ∷ vs) =
      search (binds_rules, Binds-values) depth 8
  Binds-array_sqlite ArrayFilterOp.overlaps [] = search binds_rules
  Binds-array_sqlite ArrayFilterOp.overlaps (v ∷ vs) = search (binds_rules, Binds-values) depth 8
  Binds-array_sqlite ArrayFilterOp.is_empty vs = search binds_rules depth 8
  Binds-array_sqlite ArrayFilterOp.is_not_empty vs = search binds_rules depth 8

  pub Binds-push_array_op :
      (d : Dialect) (op : ArrayFilterOp) (vs : List (Value F))
      → Binds (push_array_op table column d op vs) (array_values d op vs)
  unfolding push_array_op
  Binds-push_array_op postgres op vs = Binds-array_postgres op vs
  Binds-push_array_op sqlite op vs = Binds-array_sqlite op vs
  Binds-push_array_op mysql op vs = Binds-array_mysql op vs

  pub Binds-push_spatial_op :
      (d : Dialect) (op : SpatialOp) (geometry : Text) (distance : Option (F.F64))
      → Binds {F = F}
          (push_spatial_op {F = F} table column d op geometry distance)
          (spatial_values F op geometry distance)
  unfolding push_spatial_op spatial_postgres spatial_other radius
  Binds-push_spatial_op postgres SpatialOp.within_radius g none =
      Binds-⨾ _ _ (Value.str g ∷ []) _ (Binds-on_geometry table column postgres _ g _)
        (search binds_rules)
  Binds-push_spatial_op postgres SpatialOp.within_radius g (some r) =
      Binds-⨾ _ _ (Value.str g ∷ []) _ (Binds-on_geometry table column postgres _ g _)
        (search binds_rules)
  Binds-push_spatial_op postgres SpatialOp.intersects g r =
      Binds-on_geometry table column postgres _ g _
  Binds-push_spatial_op postgres SpatialOp.contains g r =
      Binds-on_geometry table column postgres _ g _
  Binds-push_spatial_op postgres SpatialOp.within g r =
      Binds-on_geometry table column postgres _ g _
  Binds-push_spatial_op sqlite SpatialOp.within_radius g none =
      Binds-⨾ _ _ (Value.str g ∷ []) _ (Binds-on_geometry table column sqlite _ g _)
        (search binds_rules)
  Binds-push_spatial_op sqlite SpatialOp.within_radius g (some r) =
      Binds-⨾ _ _ (Value.str g ∷ []) _ (Binds-on_geometry table column sqlite _ g _)
        (search binds_rules)
  Binds-push_spatial_op sqlite SpatialOp.intersects g r =
      Binds-on_geometry table column sqlite _ g _
  Binds-push_spatial_op sqlite SpatialOp.contains g r = Binds-on_geometry table column sqlite _ g _
  Binds-push_spatial_op sqlite SpatialOp.within g r = Binds-on_geometry table column sqlite _ g _
  Binds-push_spatial_op mysql SpatialOp.within_radius g none =
      Binds-⨾ _ _ (Value.str g ∷ []) _ (Binds-on_geometry table column mysql _ g _)
        (search binds_rules)
  Binds-push_spatial_op mysql SpatialOp.within_radius g (some r) =
      Binds-⨾ _ _ (Value.str g ∷ []) _ (Binds-on_geometry table column mysql _ g _)
        (search binds_rules)
  Binds-push_spatial_op mysql SpatialOp.intersects g r = Binds-on_geometry table column mysql _ g _
  Binds-push_spatial_op mysql SpatialOp.contains g r = Binds-on_geometry table column mysql _ g _
  Binds-push_spatial_op mysql SpatialOp.within g r = Binds-on_geometry table column mysql _ g _
