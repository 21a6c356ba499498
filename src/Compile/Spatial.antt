-- ===== src/Compile/Spatial.antt =====
-- crates/runtime/src/compile.rs: full-text and spatial predicates.
pub mod Numbering
use ruprizzle_orm.Base.{List, Option, none, some, Text, str}
use ruprizzle_orm.Dialect.{Dialect, postgres, sqlite, mysql}
use ruprizzle_orm.Compile.Value.{Foreign, Value}
use ruprizzle_orm.Compile.Filter.{SpatialOp}
use ruprizzle_orm.Compile.State.{Step, ◌⨾◌, push_str, push_bind, push_column}

module _ {F : Foreign} (table column : Text) where
  unfoldable pub push_full_text_match : Dialect → Text → Step F
  push_full_text_match postgres query =
      push_str (str "to_tsvector('english', ")
      ⨾ push_column postgres table column
      ⨾ push_str (str ") @@ plainto_tsquery('english', ")
      ⨾ push_bind postgres (Value.str query)
      ⨾ push_str (str ")")
  push_full_text_match mysql query =
      push_str (str "MATCH(")
      ⨾ push_column mysql table column
      ⨾ push_str (str ") AGAINST(")
      ⨾ push_bind mysql (Value.str query)
      ⨾ push_str (str " IN NATURAL LANGUAGE MODE)")
  push_full_text_match sqlite query =
      push_column sqlite table column
      ⨾ push_str (str " MATCH ")
      ⨾ push_bind sqlite (Value.str query)

-- `distance.unwrap_or(0.0)`
unfoldable pub radius : (F : Foreign) → Option (F.F64) → F.F64
radius F none = F.zero_f64
radius F (some r) = r

module _ {F : Foreign} (table column : Text) where
  -- `name(table.column, ST_GeomFromText(geometry closing`
  unfoldable pub on_geometry : Dialect → Text → Text → Text → Step F
  on_geometry d name geometry closing =
      push_str name
      ⨾ push_column d table column
      ⨾ push_str (str ", ST_GeomFromText(")
      ⨾ push_bind d (Value.str geometry)
      ⨾ push_str closing

  unfoldable pub spatial_postgres : SpatialOp → Text → Option (F.F64) → Step F
  spatial_postgres SpatialOp.within_radius geometry distance =
      on_geometry postgres (str "ST_DWithin(") geometry (str ", 4326), ")
      ⨾ push_bind postgres (Value.f64 (radius F distance))
      ⨾ push_str (str ")")
  spatial_postgres SpatialOp.intersects geometry distance =
      on_geometry postgres (str "ST_Intersects(") geometry (str ", 4326))")
  spatial_postgres SpatialOp.contains geometry distance =
      on_geometry postgres (str "ST_Contains(") geometry (str ", 4326))")
  spatial_postgres SpatialOp.within geometry distance =
      on_geometry postgres (str "ST_Within(") geometry (str ", 4326))")

  unfoldable pub spatial_other : Dialect → SpatialOp → Text → Option (F.F64) → Step F
  spatial_other d SpatialOp.within_radius geometry distance =
      on_geometry d (str "ST_Distance(") geometry (str ")) <= ")
      ⨾ push_bind d (Value.f64 (radius F distance))
  spatial_other d SpatialOp.intersects geometry distance =
      on_geometry d (str "ST_Intersects(") geometry (str "))")
  spatial_other d SpatialOp.contains geometry distance =
      on_geometry d (str "ST_Contains(") geometry (str "))")
  spatial_other d SpatialOp.within geometry distance =
      on_geometry d (str "ST_Within(") geometry (str "))")

  unfoldable pub push_spatial_op : Dialect → SpatialOp → Text → Option (F.F64) → Step F
  push_spatial_op postgres op geometry distance = spatial_postgres op geometry distance
  push_spatial_op sqlite op geometry distance = spatial_other sqlite op geometry distance
  push_spatial_op mysql op geometry distance = spatial_other mysql op geometry distance
