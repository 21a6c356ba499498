-- ===== src/Compile/Spatial/Numbering.antt =====
-- The markers of full-text and spatial predicates (crates/runtime/src/compile.rs).
use ruprizzle_orm.Base.{◌≡◌, refl, true, Option, Text}
use ruprizzle_orm.Dialect.{Dialect, postgres, sqlite, mysql}
use ruprizzle_orm.Compile.Value.{Foreign}
use ruprizzle_orm.Compile.Filter.{SpatialOp}
use ruprizzle_orm.Compile.Numbering.{Keeps, keeps_rules, IsName, is_plain}
use ruprizzle_orm.Compile.Spatial.{
  push_full_text_match, on_geometry, spatial_postgres, spatial_other, push_spatial_op,
}

module _ {F : Foreign} (table column : Text) (ht : IsName table) (hc : IsName column) where
  pub Keeps-push_full_text_match :
      (d : Dialect) (query : Text) → Keeps {F = F} d (push_full_text_match table column d query)
  unfolding push_full_text_match
  Keeps-push_full_text_match postgres query = search keeps_rules depth 8
  Keeps-push_full_text_match sqlite query = search keeps_rules depth 8
  Keeps-push_full_text_match mysql query = search keeps_rules depth 8

  pub Keeps-on_geometry :
      (d : Dialect) (name geometry closing : Text)
      → is_plain name ≡ true
      → is_plain closing ≡ true
      → Keeps {F = F} d (on_geometry {F = F} table column d name geometry closing)
  unfolding on_geometry
  Keeps-on_geometry d name geometry closing hn hg = search keeps_rules depth 8

  Keeps-spatial_postgres :
      (op : SpatialOp) (geometry : Text) (distance : Option (F.F64))
      → Keeps {F = F} postgres (spatial_postgres {F = F} table column op geometry distance)
  unfolding spatial_postgres
  Keeps-spatial_postgres SpatialOp.within_radius g r = search (keeps_rules, Keeps-on_geometry)
  Keeps-spatial_postgres SpatialOp.intersects g r = Keeps-on_geometry postgres _ g _ refl refl
  Keeps-spatial_postgres SpatialOp.contains g r = Keeps-on_geometry postgres _ g _ refl refl
  Keeps-spatial_postgres SpatialOp.within g r = Keeps-on_geometry postgres _ g _ refl refl

  Keeps-spatial_other :
      (d : Dialect) (op : SpatialOp) (geometry : Text) (distance : Option (F.F64))
      → Keeps {F = F} d (spatial_other {F = F} table column d op geometry distance)
  unfolding spatial_other
  Keeps-spatial_other d SpatialOp.within_radius g r = search (keeps_rules, Keeps-on_geometry)
  Keeps-spatial_other d SpatialOp.intersects g r = Keeps-on_geometry d _ g _ refl refl
  Keeps-spatial_other d SpatialOp.contains g r = Keeps-on_geometry d _ g _ refl refl
  Keeps-spatial_other d SpatialOp.within g r = Keeps-on_geometry d _ g _ refl refl

  pub Keeps-push_spatial_op :
      (d : Dialect) (op : SpatialOp) (geometry : Text) (distance : Option (F.F64))
      → Keeps {F = F} d (push_spatial_op {F = F} table column d op geometry distance)
  unfolding push_spatial_op
  Keeps-push_spatial_op postgres op g r = Keeps-spatial_postgres op g r
  Keeps-push_spatial_op sqlite op g r = Keeps-spatial_other sqlite op g r
  Keeps-push_spatial_op mysql op g r = Keeps-spatial_other mysql op g r
