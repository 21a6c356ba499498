-- ===== src/Compile/Binds/Returning.antt =====
-- The text of the RETURNING clause of crates/runtime/src/compile.rs, which does not depend on what
-- stands before it.
use ruprizzle_orm.Base.{
  ◌≡◌, refl, sym, ap, ◌∙◌, List, [], ◌∷◌, ◌++◌, append_assoc, append-nil, Bool-cases, inl, inr,
  Text, str,
}
use ruprizzle_orm.Dialect.{Dialect, postgres, sqlite, mysql, returning_supported}
use ruprizzle_orm.Compile.Value.{Foreign}
use ruprizzle_orm.Compile.State.{
  Compiler, Step, ◌⨾◌, skip, new, push_str, push_quoted, each_after, separated,
}
use ruprizzle_orm.Compile.Clauses.{is_star, push_returned, push_returning}

-- The step appends one text, whatever stands before it.
record Appends {F : Foreign} (f : Step F) : Type 0 where
  text : Text
  at : (c : Compiler F) → (f c).sql ≡ c.sql ++ text

-- The `RETURNING` clause by itself.
abbrev pub returning_clause : Foreign → Dialect → List Text → Text
returning_clause F d returning = (push_returning {F = F} d returning new).sql

module _ {F : Foreign} where
  Appends-skip : Appends {F = F} skip
  unfolding skip
  Appends-skip = record { text = []; at = λ c. sym (append-nil c.sql) }

  Appends-push_str : (s : Text) → Appends {F = F} (push_str s)
  unfolding push_str
  Appends-push_str s = record { text = s; at = λ c. refl }

  Appends-⨾ : (f g : Step F) → Appends f → Appends g → Appends (f ⨾ g)
  unfolding ◌⨾◌
  Appends-⨾ f g hf hg = record {
    text = hf.text ++ hg.text;
    at = λ c. hg.at (f c) ∙ ap (λ t. t ++ hg.text) (hf.at c) ∙ append_assoc c.sql hf.text hg.text;
  }

  Appends-each_after :
      (sep : Text) (body : Text → Step F) (xs : List Text)
      → ((x : Text) → Appends (body x))
      → Appends (each_after sep body xs)
  unfolding each_after
  Appends-each_after sep body [] h = Appends-skip
  Appends-each_after sep body (x ∷ xs) h =
      Appends-⨾ _ _ (Appends-push_str sep) (Appends-⨾ _ _ (h x) (Appends-each_after sep body xs h))

  Appends-push_returned : (d : Dialect) (col : Text) → Appends {F = F} (push_returned d col)
  unfolding push_returned push_quoted
  Appends-push_returned d col = elim (Bool-cases (is_star col)) [
    | inl e ↦ rw (e) (Appends-push_str _)
    | inr e ↦ rw (e) (Appends-push_str _)
  ]

  Appends-push_returning :
      (d : Dialect) (returning : List Text) → Appends {F = F} (push_returning d returning)
  unfolding push_returning separated
  Appends-push_returning d [] = elim (Bool-cases (returning_supported d)) [
    | inl e ↦ rw (e) Appends-skip
    | inr e ↦ rw (e) Appends-skip
  ]
  Appends-push_returning d (r ∷ returning) = elim (Bool-cases (returning_supported d)) [
    | inl e ↦ rw (e) (
        Appends-⨾ _ _ (Appends-push_str _) (
          Appends-⨾ _ _ (Appends-push_returned d r)
            (Appends-each_after (str ", ") _ returning (Appends-push_returned d))))
    | inr e ↦ rw (e) Appends-skip
  ]

  pub push_returning-sql :
      (d : Dialect) (returning : List Text) (c : Compiler F)
      → (push_returning d returning c).sql ≡ c.sql ++ returning_clause F d returning
  push_returning-sql d returning c =
      let a = Appends-push_returning d returning in a.at c ∙ ap (λ t. c.sql ++ t) (sym (a.at new))

  pub push_returning-none : (d : Dialect) (c : Compiler F) → (push_returning d [] c).sql ≡ c.sql
  unfolding push_returning skip returning_supported
  push_returning-none postgres c = refl
  push_returning-none sqlite c = refl
  push_returning-none mysql c = refl
