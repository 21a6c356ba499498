-- ===== src/Ir/Equality.antt =====
-- The derived `PartialEq` of crates/core/src/ir.rs.
use native.Mathlib.Decide.{ℕ_discrete}
use ruprizzle_orm.Base.{
  List, ℕ, Bool, true, false, ◌&&◌, ◌||◌, not, ltb, ◌==◌, ◌%◌, Option, none, some, Text, dec_text,
}
use mathlib.Core.Logic.{ite}
use ruprizzle_orm.Compile.Value.{ℤ}
use ruprizzle_orm.Ir.{
  ScalarType, ReferentialAction, RelationRef, FieldKind, DefaultFn, Literal, DefaultValue,
  NativeType, IndexDef, UniqueDef,
}

pub dec_action : Discrete ReferentialAction
dec_action = hlevel

pub dec_native_type : Discrete (Option NativeType)
dec_native_type = hlevel (ℕ_discrete)

pub dec_index_def : Discrete IndexDef
dec_index_def = hlevel (ℕ_discrete)

pub dec_unique_def : Discrete UniqueDef
dec_unique_def = hlevel (ℕ_discrete)

pub dec_texts : Discrete (List Text)
dec_texts = hlevel (ℕ_discrete)

unfoldable pub dec_scalar_type : Discrete ScalarType
dec_scalar_type = hlevel

pub dec_relation_ref : Discrete RelationRef
dec_relation_ref = hlevel (ℕ_discrete)

pub dec_default_fn : Discrete DefaultFn
dec_default_fn = hlevel

pub dec_int : Discrete ℤ
dec_int = hlevel (ℕ_discrete)

unfoldable pub dec_bool : Discrete Bool
dec_bool = hlevel

unfoldable pub eq_kind : FieldKind → FieldKind → Bool
eq_kind (FieldKind.scalar a) (FieldKind.scalar b) = ite (dec_scalar_type a b) true false
eq_kind (FieldKind.enum a) (FieldKind.enum b) = ite (dec_text a b) true false
eq_kind (FieldKind.relation a) (FieldKind.relation b) = ite (dec_relation_ref a b) true false
eq_kind (FieldKind.list a) (FieldKind.list b) = eq_kind a b
eq_kind _ _ = false

-- IEEE 754 equality of two floats given by their bits: a NaN has all bits of the exponent and one
-- of the fraction, and the two zeros are equal.
unfoldable pub is_nan : ℕ → Bool
is_nan bits = ltb 0x7FF0000000000000 (bits % 0x8000000000000000)

unfoldable pub eq_f64 : ℕ → ℕ → Bool
unfolding is_nan
eq_f64 a b =
    not (is_nan a)
    && not (is_nan b)
    && ((a == b) || ((a % 0x8000000000000000 == 0) && (b % 0x8000000000000000 == 0)))

unfoldable pub eq_literal : Literal → Literal → Bool
eq_literal (Literal.string a) (Literal.string b) = ite (dec_text a b) true false
eq_literal (Literal.int a) (Literal.int b) = ite (dec_int a b) true false
eq_literal (Literal.float a) (Literal.float b) = eq_f64 a b
eq_literal (Literal.bool a) (Literal.bool b) = ite (dec_bool a b) true false
eq_literal (Literal.enum_variant a) (Literal.enum_variant b) = ite (dec_text a b) true false
eq_literal _ _ = false

unfoldable pub eq_default : Option DefaultValue → Option DefaultValue → Bool
eq_default none none = true
eq_default (some (DefaultValue.literal a)) (some (DefaultValue.literal b)) = eq_literal a b
eq_default (some (DefaultValue.function a)) (some (DefaultValue.function b)) =
    ite (dec_default_fn a b) true false
eq_default (some (DefaultValue.db_generated a)) (some (DefaultValue.db_generated b)) =
    ite (dec_text a b) true false
eq_default _ _ = false
