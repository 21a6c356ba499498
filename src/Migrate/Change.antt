-- ===== src/Migrate/Change.antt =====
-- crates/migrate/src/change.rs.
use ruprizzle_orm.Base.{Bool, true, false, List, Text}
use ruprizzle_orm.Ir.{EnumDef, Model, Field, IndexDef, UniqueDef, ResolvedRelation}

pub data ColumnAspect : Type 0 where
  aspect_type nullability default_value identity : ColumnAspect

pub data Change : Type 0 where
  create_enum : EnumDef → Change
  drop_enum : Text → Text → Change
  add_enum_variant : (enum variant : Text) → Change
  drop_enum_variant : (enum variant : Text) → Change
  create_model : Model → Change
  drop_model : Text → Text → Change
  rename_model : (from to new_table : Text) → Change
  add_column : (model : Text) (field : Field) → Change
  drop_column : (model column : Text) → Change
  alter_column : (model : Text) (from to : Field) (aspects : List ColumnAspect) → Change
  rename_column : (model from to from_column to_column : Text) → Change
  create_index : Text → IndexDef → Change
  drop_index : Text → Text → Change
  add_unique : Text → UniqueDef → Change
  drop_unique : Text → Text → Change
  add_foreign_key : Text → ResolvedRelation → Change
  drop_foreign_key : Text → ResolvedRelation → Change

unfoldable pub is_destructive : Change → Bool
is_destructive (drop_enum _ _) = true
is_destructive (drop_enum_variant _ _) = true
is_destructive (drop_model _ _) = true
is_destructive (drop_column _ _) = true
is_destructive (drop_index _ _) = true
is_destructive (drop_unique _ _) = true
is_destructive (drop_foreign_key _ _) = true
is_destructive _ = false
