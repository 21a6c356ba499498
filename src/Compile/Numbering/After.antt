-- ===== src/Compile/Numbering/After.antt =====
-- Steps that keep the markers in step with the values behind a text: a number that is written out
-- must not stand directly behind a marker (crates/runtime/src/compile.rs).
use ruprizzle_orm.Base.{
  ℕ, ◌≡◌, refl, Bool, true, ◌&&◌, not, List, [], ◌∷◌, ◌++◌, Text, arith, All, is_empty,
  append_assoc, IsDigit, to_string, All-IsDigit-to_string, all-append, ◌==◌,
}
use ruprizzle_orm.Dialect.{Dialect}
use ruprizzle_orm.Compile.Value.{Foreign}
use ruprizzle_orm.Compile.Numbering.{
  Keeps, keeps_rules, Keeps-skip, Keeps-⨾, Keeps-push_str, is_plain, is_name, IsName,
  is_headed-append,
}
use ruprizzle_orm.Compile.State.{Step, ◌⨾◌, push_str, each_after, separated}

-- A plain text with at least one byte.
abbrev pub is_word : Text → Bool
is_word a = is_plain a && not (is_empty a)

pub record KeepsAfter {F : Foreign} (d : Dialect) (f : Step F) : Type 0 where
  pub at : (a : Text) → is_word a ≡ true → Keeps d (push_str a ⨾ f)

digits-is_name : (s : Text) → All IsDigit s → is_name s ≡ true
digits-is_name [] h = refl
digits-is_name (c ∷ s) h = ground (arith, h.0, digits-is_name s h.1)

word-append : (a s : Text) → is_word a ≡ true → is_name s ≡ true → is_plain (a ++ s) ≡ true
word-append [] s ha hs = cc
word-append (c ∷ a) s ha hs =
    ground (arith, all-append (λ x. not (x == b'$')) a s, all-append (λ x. not (x == b'?')) a s)

module _ {F : Foreign} {d : Dialect} where
  pub KeepsAfter-name : (s : Text) → is_name s ≡ true → KeepsAfter {F = F} d (push_str s)
  KeepsAfter-name s h = record {
    at = λ a e. record {
      at = λ c k.
          unfold ◌⨾◌ push_str in
          rw append_assoc
            (unfold push_str in (Keeps-push_str {F = F} (a ++ s) (word-append a s e h)).at c k);
      headed = λ c k.
          unfold ◌⨾◌ push_str in is_headed-append (c.sql ++ a) s (is_headed-append c.sql a k);
    };
  }

  pub KeepsAfter-to_string : (n : ℕ) → KeepsAfter {F = F} d (push_str (to_string n))
  KeepsAfter-to_string n =
      KeepsAfter-name (to_string n) (digits-is_name (to_string n) (All-IsDigit-to_string n))

  pub KeepsAfter-step : (f : Step F) → Keeps d f → KeepsAfter d f
  KeepsAfter-step f k = record { at = λ a e. Keeps-⨾ _ _ (Keeps-push_str a (ground arith)) k }

  pub KeepsAfter-⨾ : (f g : Step F) → KeepsAfter d f → Keeps d g → KeepsAfter d (f ⨾ g)
  unfolding ◌⨾◌
  KeepsAfter-⨾ f g kf kg = record {
    at = λ a e. record {
      at = λ c h. kg.at _ ((kf.at a e).at c h);
      headed = λ c h. kg.headed _ ((kf.at a e).headed c h);
    };
  }

  pub Keeps-after :
      (a : Text) (f : Step F) → is_word a ≡ true → KeepsAfter d f → Keeps d (push_str a ⨾ f)
  Keeps-after a f e k = k.at a e

module _ {F : Foreign} {d : Dialect} {A : Type 0} where
  pub Keeps-each_after_word :
      (P : A → Type 0) (sep : Text) (body : A → Step F) (xs : List A)
      → is_word sep ≡ true
      → All P xs
      → ((x : A) → P x → KeepsAfter d (body x))
      → Keeps d (each_after sep body xs)
  unfolding each_after
  Keeps-each_after_word P sep body [] e h k = Keeps-skip
  Keeps-each_after_word P sep body (x ∷ xs) e h k =
      (KeepsAfter-⨾ _ _ (k x h.0) (Keeps-each_after_word P sep body xs e h.1 k)).at sep e

  pub KeepsAfter-separated :
      (P : A → Type 0) (sep : Text) (body : A → Step F) (xs : List A)
      → is_word sep ≡ true
      → All P xs
      → ((x : A) → P x → KeepsAfter d (body x))
      → KeepsAfter d (separated sep body xs)
  unfolding separated
  KeepsAfter-separated P sep body [] e h k = KeepsAfter-step _ Keeps-skip
  KeepsAfter-separated P sep body (x ∷ xs) e h k =
      KeepsAfter-⨾ _ _ (k x h.0) (Keeps-each_after_word P sep body xs e h.1 k)

pub ruleset after_rules =
    (keeps_rules, Keeps-after, KeepsAfter-⨾, KeepsAfter-to_string, KeepsAfter-step)
