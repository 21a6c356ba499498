-- ===== src/Compile/Value.antt =====
-- crates/runtime/src/value.rs: the values that are bound to placeholders. The types of other crates
-- (floats, decimals, identifiers, dates, JSON documents) are a parameter.
use ruprizzle_orm.Base.{ℕ, Bool, true, false, Option, List, Text}

-- A signed integer; `negsuc n` is -(n + 1).
pub data ℤ : Type 0 where
  pos : ℕ → ℤ
  negsuc : ℕ → ℤ

-- What the compiler looks at in a `serde_json::Value`: its kind, for a number what `as_i64` and
-- `as_f64` answer, for an object its keys in the order of iteration.
pub data JsonView (F64 : Type 0) : Type 0 where
  null : JsonView F64
  bool : Bool → JsonView F64
  number : Option ℤ → Option F64 → JsonView F64
  string : Text → JsonView F64
  array : JsonView F64
  object : List Text → JsonView F64

-- The types of other crates that a value can hold.
pub record Foreign : Type 1 where
  pub F64 : Type 0
  pub zero_f64 : F64
  pub Decimal : Type 0
  pub Uuid : Type 0
  pub DateTime : Type 0
  pub Date : Type 0
  pub Time : Type 0
  pub Json : Type 0
  pub view : Json → JsonView F64

mutual
  pub data Value (F : Foreign) : Type 0 where
    null : Value F
    bool : Bool → Value F
    i32 i64 : ℤ → Value F
    f64 : F.F64 → Value F
    decimal : F.Decimal → Value F
    str : Text → Value F
    uuid : F.Uuid → Value F
    date_time : F.DateTime → Value F
    date : F.Date → Value F
    time : F.Time → Value F
    json : F.Json → Value F
    bytes : Text → Value F
    array : Values F → Value F

  -- `Vec<Value>`
  pub data Values (F : Foreign) : Type 0 where
    nil : Values F
    cons : Value F → Values F → Values F

unfoldable pub is_null : {F : Foreign} → Value F → Bool
is_null Value.null = true
is_null _ = false

abbrev pub values : {F : Foreign} → List (Value F) → Values F
values List.[] = nil
values (List.◌∷◌ v vs) = cons v (values vs)
