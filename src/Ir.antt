-- ===== src/Ir.antt =====
-- crates/core/src/ir.rs, span.rs and names.rs: the schema that the migrations compare. A name is
-- the list of its characters, and an `IndexMap` the list of its pairs in order. Documentation
-- comments are left out: nothing that is modelled reads them.
pub mod Equality
use ruprizzle_orm.Base.{
  ℕ, Bool, true, false, List, [], ◌∷◌, Option, none, some, Text, ltb, if◌then◌else◌,
}
use ruprizzle_orm.Compile.Value.{ℤ}

pub record Span : Type 0 where
  pub start : ℕ
  pub end : ℕ

pub data Provider : Type 0 where
  postgres sqlite mysql : Provider

pub data ScalarType : Type 0 where
  string int big_int float decimal boolean date_time date time uuid json bytes : ScalarType
  point polygon multi_polygon line_string : ScalarType

pub data ReferentialAction : Type 0 where
  cascade restrict set_null set_default no_action : ReferentialAction

pub record RelationRef : Type 0 where
  pub target : Text
  pub name : Option Text
  pub through : Option Text
  pub fields : List Text
  pub references : List Text
  pub on_delete : Option ReferentialAction
  pub on_update : Option ReferentialAction
  pub resolved : Option ℕ
  pub span : Span

pub data FieldKind : Type 0 where
  scalar : ScalarType → FieldKind
  enum : Text → FieldKind
  relation : RelationRef → FieldKind
  list : FieldKind → FieldKind

pub data DefaultFn : Type 0 where
  uuid4 uuid7 cuid2 nanoid now auto_increment : DefaultFn

-- A float is its 64 bits.
pub data Literal : Type 0 where
  string : Text → Literal
  int : ℤ → Literal
  float : ℕ → Literal
  bool : Bool → Literal
  enum_variant : Text → Literal

pub data DefaultValue : Type 0 where
  literal : Literal → DefaultValue
  function : DefaultFn → DefaultValue
  db_generated : Text → DefaultValue

pub record NativeType : Type 0 where
  pub name : Text
  pub args : List Text
  pub span : Span

pub record FieldAttrs : Type 0 where
  pub is_id : Bool
  pub is_unique : Bool
  pub is_updated_at : Bool
  pub is_created_at : Bool
  pub is_deleted_at : Bool
  pub ignore : Bool
  pub native_type : Option NativeType
  pub renamed_from : Option Text

pub data GeneratedKind : Type 0 where
  virtual stored : GeneratedKind

pub record GeneratedClause : Type 0 where
  pub expr : Text
  pub kind : GeneratedKind

pub record Field : Type 0 where
  pub name : Text
  pub column : Text
  pub kind : FieldKind
  pub optional : Bool
  pub default : Option DefaultValue
  pub attrs : FieldAttrs
  pub generated : Option GeneratedClause
  pub span : Span

unfoldable pub has_column : Field → Bool
has_column f = elim (f.kind) [
  | FieldKind.scalar _ ↦ true
  | FieldKind.enum _ ↦ true
  | FieldKind.list inner ↦ elim inner [
    | FieldKind.scalar _ ↦ true
    | FieldKind.enum _ ↦ true
    | _ ↦ false
  ]
  | FieldKind.relation _ ↦ false
]

pub record PrimaryKey : Type 0 where
  pub fields : List Text
  pub name : Option Text
  pub span : Span

pub data IndexType : Type 0 where
  b_tree gist gin hash sp_gist brin : IndexType

pub data SortOrder : Type 0 where
  asc desc : SortOrder

pub data IndexTarget : Type 0 where
  field : Text → SortOrder → IndexTarget
  expression : Text → IndexTarget

pub record IndexDef : Type 0 where
  pub db_name : Text
  pub targets : List IndexTarget
  pub index_type : Option IndexType
  pub where_clause : Option Text
  pub span : Span

pub record UniqueDef : Type 0 where
  pub db_name : Text
  pub targets : List IndexTarget
  pub span : Span

pub record Model : Type 0 where
  pub name : Text
  pub table : Text
  pub fields : List (Text × Field)
  pub primary_key : PrimaryKey
  pub indexes : List IndexDef
  pub uniques : List UniqueDef
  pub span : Span

pub record EnumVariant : Type 0 where
  pub name : Text
  pub db_name : Text
  pub span : Span

pub record EnumDef : Type 0 where
  pub name : Text
  pub db_name : Text
  pub variants : List (Text × EnumVariant)
  pub span : Span

pub data RelationKind : Type 0 where
  one_to_one many_to_one many_to_many : RelationKind

pub record ResolvedRelation : Type 0 where
  pub name : Text
  pub kind : RelationKind
  pub owner : Text
  pub owner_cols : List Text
  pub owner_field : Text
  pub target : Text
  pub target_table : Text
  pub target_cols : List Text
  pub target_field : Option Text
  pub on_delete : ReferentialAction
  pub on_update : ReferentialAction
  pub optional : Bool
  pub constraint_name : Text
  pub span : Span
  pub join_model : Option Text
  pub join_owner_field : Option Text
  pub join_target_field : Option Text

-- The parts of `Schema` that the diff reads.
pub record Schema : Type 0 where
  pub enums : List (Text × EnumDef)
  pub models : List (Text × Model)
  pub relations : List ResolvedRelation
