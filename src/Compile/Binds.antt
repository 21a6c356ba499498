-- ===== src/Compile/Binds.antt =====
-- The values that a run of the compiler's steps binds, in order, one rule for each way to build a
-- step. The rules are about crates/runtime/src/compile.rs.
pub mod Leaves
pub mod Arrays
pub mod Filter
pub mod Statements
pub mod Writes
pub mod Returning
pub mod Carried
use ruprizzle_orm.Base.{
  ℕ, ◌≡◌, refl, sym, ap, ◌∙◌, Bool, true, false, List, [], ◌∷◌, ◌++◌, Text, append_assoc,
  append-nil, if◌then◌else◌,
}
use ruprizzle_orm.Dialect.{Dialect}
use ruprizzle_orm.Compile.Value.{Foreign, Value}
use ruprizzle_orm.Compile.State.{
  Compiler, Step, ◌⨾◌, skip, push_str, push_quoted, push_bind, push_column, each_after, separated,
}

-- The step appends these values.
pub record Binds {F : Foreign} (f : Step F) (vs : List (Value F)) : Type 0 where
  pub at : (c : Compiler F) → (f c).binds ≡ c.binds ++ vs

-- The step leaves the values as they are.
pub record Silent {F : Foreign} (f : Step F) : Type 0 where
  pub at : (c : Compiler F) → (f c).binds ≡ c.binds

module _ {F : Foreign} where
  pub Silent-skip : Silent {F = F} skip
  unfolding skip
  Silent-skip = record { at = λ c. refl }

  pub Silent-push_str : (s : Text) → Silent {F = F} (push_str s)
  unfolding push_str
  Silent-push_str s = record { at = λ c. refl }

  pub Silent-⨾ : (f g : Step F) → Silent f → Silent g → Silent (f ⨾ g)
  unfolding ◌⨾◌
  Silent-⨾ f g hf hg = record { at = λ c. hg.at (f c) ∙ hf.at c }

  pub Silent-if : (b : Bool) (f g : Step F) → Silent f → Silent g → Silent (if b then f else g)
  Silent-if true f g hf hg = hf
  Silent-if false f g hf hg = hg

  pub Silent-push_quoted : (d : Dialect) (s : Text) → Silent {F = F} (push_quoted d s)
  unfolding push_quoted
  Silent-push_quoted d s = Silent-push_str _

  pub Silent-push_column :
      (d : Dialect) (table column : Text) → Silent {F = F} (push_column d table column)
  unfolding push_column
  Silent-push_column d table column = search (Silent-⨾, Silent-push_quoted, Silent-push_str)

  pub Silent-each_after :
      {A : Type 0} (sep : Text) (body : A → Step F) (xs : List A)
      → ((x : A) → Silent (body x))
      → Silent (each_after sep body xs)
  unfolding each_after
  Silent-each_after sep body [] h = Silent-skip
  Silent-each_after sep body (x ∷ xs) h =
      Silent-⨾ _ _ (Silent-push_str sep) (Silent-⨾ _ _ (h x) (Silent-each_after sep body xs h))

  pub Silent-separated :
      {A : Type 0} (sep : Text) (body : A → Step F) (xs : List A)
      → ((x : A) → Silent (body x))
      → Silent (separated sep body xs)
  unfolding separated
  Silent-separated sep body [] h = Silent-skip
  Silent-separated sep body (x ∷ xs) h = Silent-⨾ _ _ (h x) (Silent-each_after sep body xs h)

  pub Binds-Silent : (f : Step F) → Silent f → Binds f []
  Binds-Silent f h = record { at = λ c. h.at c ∙ sym (append-nil c.binds) }

  pub Binds-bind : (d : Dialect) (v : Value F) → Binds (push_bind d v) (v ∷ [])
  unfolding push_bind
  Binds-bind d v = record { at = λ c. refl }

  pub Binds-⨾ :
      (f g : Step F) (vs ws : List (Value F)) → Binds f vs → Binds g ws → Binds (f ⨾ g) (vs ++ ws)
  unfolding ◌⨾◌
  Binds-⨾ f g vs ws hf hg = record {
    at = λ c. hg.at (f c) ∙ ap (λ bs. bs ++ ws) (hf.at c) ∙ append_assoc c.binds vs ws;
  }

  pub Binds-behind : (f g : Step F) (vs : List (Value F)) → Silent f → Binds g vs → Binds (f ⨾ g) vs
  Binds-behind f g vs hf hg = Binds-⨾ f g [] vs (Binds-Silent f hf) hg

  pub Binds-before : (f g : Step F) (vs : List (Value F)) → Binds f vs → Silent g → Binds (f ⨾ g) vs
  unfolding ◌⨾◌
  Binds-before f g vs hf hg = record { at = λ c. hg.at (f c) ∙ hf.at c }

  pub Binds-cons :
      (d : Dialect) (v : Value F) (g : Step F) (vs : List (Value F))
      → Binds g vs
      → Binds (push_bind d v ⨾ g) (v ∷ vs)
  Binds-cons d v g vs hg = Binds-⨾ (push_bind d v) g (v ∷ []) vs (Binds-bind d v) hg

  -- The values of a list of items, where each item binds `values x`.
  unfoldable pub gather : {A : Type 0} → (A → List (Value F)) → List A → List (Value F)
  gather values [] = []
  gather values (x ∷ xs) = values x ++ gather values xs

  pub Binds-each_after :
      {A : Type 0} (sep : Text) (body : A → Step F) (values : A → List (Value F)) (xs : List A)
      → ((x : A) → Binds (body x) (values x))
      → Binds (each_after sep body xs) (gather values xs)
  unfolding each_after gather
  Binds-each_after sep body values [] h = Binds-Silent _ Silent-skip
  Binds-each_after sep body values (x ∷ xs) h =
      Binds-behind _ _ _ (Silent-push_str sep)
        (Binds-⨾ _ _ _ _ (h x) (Binds-each_after sep body values xs h))

  pub Binds-separated :
      {A : Type 0} (sep : Text) (body : A → Step F) (values : A → List (Value F)) (xs : List A)
      → ((x : A) → Binds (body x) (values x))
      → Binds (separated sep body xs) (gather values xs)
  unfolding separated gather
  Binds-separated sep body values [] h = Binds-Silent _ Silent-skip
  Binds-separated sep body values (x ∷ xs) h =
      Binds-⨾ _ _ _ _ (h x) (Binds-each_after sep body values xs h)

  pub gather-single : (vs : List (Value F)) → gather (λ v. v ∷ []) vs ≡ vs
  unfolding gather
  gather-single [] = refl
  gather-single (v ∷ vs) = ap (λ ws. v ∷ ws) (gather-single vs)

  -- A list of values, each behind a separator.
  pub Binds-values :
      (d : Dialect) (sep : Text) (vs : List (Value F)) → Binds (separated sep (push_bind d) vs) vs
  Binds-values d sep vs =
      rw (gather-single vs) at (Binds-separated sep (push_bind d) (λ v. v ∷ []) vs (Binds-bind d))

pub ruleset silent_rules =
    (Silent-⨾, Silent-skip, Silent-push_str, Silent-if, Silent-push_quoted, Silent-push_column)

pub ruleset binds_rules =
    (silent_rules, Binds-Silent, Binds-cons, Binds-behind, Binds-before, Binds-bind)
