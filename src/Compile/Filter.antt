-- ===== src/Compile/Filter.antt =====
-- crates/runtime/src/{filter,json,order,join,aggregate}.rs: the trees that the compiler reads.
use ruprizzle_orm.Base.{ℕ, Bool, Option, List, Text}
use ruprizzle_orm.Compile.Value.{Foreign, Value}

pub data CmpOp : Type 0 where
  eq ne gt gte lt lte like ilike : CmpOp

pub data JsonFilterOp : Type 0 where
  cmp : CmpOp → JsonFilterOp
  contains : JsonFilterOp
  has_key : JsonFilterOp

pub data ArrayFilterOp : Type 0 where
  has contains contained_by overlaps is_empty is_not_empty : ArrayFilterOp

pub data SpatialOp : Type 0 where
  within_radius intersects contains within : SpatialOp

pub data JsonPathSegment : Type 0 where
  key : Text → JsonPathSegment
  index : ℕ → JsonPathSegment

abbrev pub JsonPath : Type 0
JsonPath = List JsonPathSegment

-- A compiled SQL statement and its bound values.
pub record CompiledSql (F : Foreign) : Type 0 where
  pub sql : Text
  pub binds : List (Value F)

-- Literal parts and the values between them.
pub record RawFragment (F : Foreign) : Type 0 where
  pub parts : List Text
  pub binds : List (Value F)

mutual
  pub data FilterNode (F : Foreign) : Type 0 where
    cmp : Text → Text → CmpOp → Value F → FilterNode F
    between : Text → Text → Value F → Value F → FilterNode F
    is_null : Text → Text → Bool → FilterNode F
    in_list : Text → Text → List (Value F) → Bool → FilterNode F
    in_subquery : Text → Text → CompiledSql F → Bool → FilterNode F
    column_cmp : Text → Text → CmpOp → Text → Text → FilterNode F
    exists : Text → Text → Text → Text → FilterNode F → Bool → FilterNode F
    exists_subquery : CompiledSql F → Bool → FilterNode F
    and_all : FilterNodes F → FilterNode F
    or_all : FilterNodes F → FilterNode F
    negation : FilterNode F → FilterNode F
    raw : RawFragment F → FilterNode F
    json : Text → Text → JsonPath → Bool → JsonFilterOp → Value F → FilterNode F
    array : Text → Text → ArrayFilterOp → List (Value F) → FilterNode F
    full_text_match : Text → Text → Text → FilterNode F
    spatial : Text → Text → SpatialOp → Text → Option (F.F64) → FilterNode F

  -- `Vec<FilterNode>`
  pub data FilterNodes (F : Foreign) : Type 0 where
    nil : FilterNodes F
    cons : FilterNode F → FilterNodes F → FilterNodes F

pub record OrderBy : Type 0 where
  pub table : Text
  pub column : Text
  pub desc : Bool
  pub json_path : Option JsonPath
  pub text : Bool
  pub spatial_distance : Option Text

pub data JoinKind : Type 0 where
  inner left right full : JoinKind

pub data AggregateKind : Type 0 where
  sum avg min max count count_distinct : AggregateKind

pub record AggregateEntry : Type 0 where
  pub table : Text
  pub column : Text
  pub kind : AggregateKind
  pub alias : Text

-- A common table expression.
pub record Cte (F : Foreign) : Type 0 where
  pub name : Text
  pub compiled : CompiledSql F
  pub recursive : Bool

pub data SetOp : Type 0 where
  union union_all intersect except : SetOp
