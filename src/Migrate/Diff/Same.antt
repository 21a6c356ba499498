-- ===== src/Migrate/Diff/Same.antt =====
-- The diff of the columns of a model with themselves (crates/migrate/src/diff.rs).
use ruprizzle_orm.Base.{
  ◌≡◌, refl, true, false, List, [], ◌∷◌, Option, none, some, arith, flat_map, All, Text, contains,
  contains_key, lookup, Option-cases, inl, inr,
}
use ruprizzle_orm.Ir.{FieldKind, Literal, DefaultValue, Field, Model, Schema}
use ruprizzle_orm.Ir.Equality.{eq_kind, eq_default, eq_literal, eq_f64, is_nan}
use ruprizzle_orm.Migrate.Diff.{
  scalar_changed, aspects, column_aspects, alter, hinted, rename_hints, add_new, drop_removed,
  alter_changed, diff_columns, Relations,
}

-- No key occurs twice: every pair is what its key finds.
abbrev pub IsMap {ℓ} : {V : Type ℓ} → List (Text × V) → Type ℓ
IsMap m = All (λ p. lookup p.0 m ≡ some p.1) m

-- A default that is equal to itself: no NaN.
abbrev pub IsNumber : Option DefaultValue → Type 0
IsNumber (some (DefaultValue.literal (Literal.float bits))) = is_nan bits ≡ false
IsNumber _ = Unit

-- No `@renamedFrom` that names a field of the model.
abbrev pub HasNoHint : Model → Field → Type 0
HasNoHint m f = elim (f.attrs.renamed_from) [
  | none ↦ Unit {0}
  | some old_name ↦ lookup old_name m.fields ≡ none
]

pub record IsPlainModel (m : Model) : Type 0 where
  pub fields : IsMap m.fields
  pub plain : All (λ p. HasNoHint m p.1 × IsNumber p.1.default) m.fields

pub record IsPlain (s : Schema) : Type 0 where
  pub enums : IsMap s.enums
  pub variants : All (λ p. IsMap p.1.variants) s.enums
  pub models : IsMap s.models
  pub plain : All (λ p. IsPlainModel p.1) s.models

-- A listing of a map lists pairs of the map.
abbrev pub IsOrder : (Relations → Relations) → Type 0
IsOrder order = (m : Relations) → IsMap m → All (λ p. lookup p.0 m ≡ some p.1) (order m)

eq_kind_self : (k : FieldKind) → eq_kind k k ≡ true
unfolding eq_kind
eq_kind_self (FieldKind.scalar a) = ground arith
eq_kind_self (FieldKind.enum a) = ground arith
eq_kind_self (FieldKind.relation a) = ground arith
eq_kind_self (FieldKind.list a) = eq_kind_self a

scalar_changed_self : (k : FieldKind) → scalar_changed k k ≡ false
unfolding scalar_changed
scalar_changed_self (FieldKind.scalar a) = ground arith
scalar_changed_self (FieldKind.enum a) = ground arith
scalar_changed_self (FieldKind.relation a) = rw (eq_kind_self (FieldKind.relation a))
scalar_changed_self (FieldKind.list a) = rw (eq_kind_self (FieldKind.list a))

eq_literal_self : (l : Literal) → IsNumber (some (DefaultValue.literal l)) → eq_literal l l ≡ true
unfolding eq_literal eq_f64
eq_literal_self (Literal.string s) h = ground arith
eq_literal_self (Literal.int n) h = ground arith
eq_literal_self (Literal.float b) h = ground arith
eq_literal_self (Literal.bool b) h = ground arith
eq_literal_self (Literal.enum_variant s) h = ground arith

eq_default_self : (d : Option DefaultValue) → IsNumber d → eq_default d d ≡ true
unfolding eq_default
eq_default_self none h = refl
eq_default_self (some (DefaultValue.literal l)) h = eq_literal_self l h
eq_default_self (some (DefaultValue.function f)) h = ground arith
eq_default_self (some (DefaultValue.db_generated s)) h = ground arith

aspects_self : (f : Field) → IsNumber f.default → aspects f f ≡ []
unfolding aspects
aspects_self f h = ground (arith, scalar_changed_self f.kind, eq_default_self f.default h)

alter_self : (model : Text) (f : Field) → IsNumber f.default → alter model f f ≡ []
unfolding alter column_aspects
alter_self model f h = ground (arith, aspects_self f h)

pub flat_map_nothing {ℓ κ} :
    {A : Type ℓ} {B : Type κ} (f : A → List B) (xs : List A)
    → All (λ x. f x ≡ []) xs
    → flat_map f xs ≡ []
flat_map_nothing f [] h = refl
flat_map_nothing f (x ∷ xs) h = rw (h.0, flat_map_nothing f xs h.1)

pub All-both {ℓ κ λ' μ} :
    {A : Type ℓ} {P : A → Type κ} {Q : A → Type λ'} {R : A → Type μ} (xs : List A)
    → ((x : A) → P x → Q x → R x)
    → All P xs
    → All Q xs
    → All R xs
All-both [] f p q = tt
All-both (x ∷ xs) f p q = (f x p.0 q.0, All-both xs f p.1 q.1)

hinted-none : (m : Model) (f : Field) → HasNoHint m f → hinted m f ≡ none
unfolding hinted
hinted-none m f h = elim (Option-cases (f.attrs.renamed_from)) [
  | inl e ↦ ground arith
  | inr (old, e) ↦ let missing : lookup old m.fields ≡ none = rw e at h in ground arith
]

rename_hints_none :
    (model : Text) (m : Model) (fields : List (Text × Field))
    → All (λ p. HasNoHint m p.1 × IsNumber p.1.default) fields
    → rename_hints model m fields ≡ record { changes = []; renamed = []; consumed_prev = [] }
unfolding rename_hints
rename_hints_none model m [] h = refl
rename_hints_none model m ((name, f) ∷ fields) h =
    ground (arith, hinted-none m f h.0.0, rename_hints_none model m fields h.1)

module _ (model : Text) (m : Model) (x : Text × Field) (e : lookup x.0 m.fields ≡ some x.1) where
  add_new_self : add_new model m [] x ≡ []
  unfolding add_new contains_key contains
  add_new_self = ground arith

  drop_removed_self :
      drop_removed model m (record { changes = []; renamed = []; consumed_prev = [] }) x ≡ []
  unfolding drop_removed contains_key contains
  drop_removed_self = ground arith

  alter_changed_self : IsNumber x.1.default → alter_changed model m [] x ≡ []
  unfolding alter_changed contains
  alter_changed_self h = ground (arith, alter_self model x.1 h)

pub diff_columns_self : (model : Text) (m : Model) → IsPlainModel m → diff_columns model m m ≡ []
unfolding diff_columns
diff_columns_self model m p = rw (
  rename_hints_none model m m.fields p.plain,
  flat_map_nothing (add_new model m []) m.fields
      (All-both m.fields (λ x e h. add_new_self model m x e) p.fields p.plain),
  flat_map_nothing (drop_removed model m _) m.fields
      (All-both m.fields (λ x e h. drop_removed_self model m x e) p.fields p.plain),
  flat_map_nothing (alter_changed model m []) m.fields
      (All-both m.fields (λ x e h. alter_changed_self model m x e h.1) p.fields p.plain),
)
