-- ===== src/Compile/Numbering.antt =====
-- Steps of the compiler that keep the markers of the statement in step with its values, one rule
-- for each way to build a step. The rules are about crates/runtime/src/compile.rs.
pub mod After
use ruprizzle_orm.Base.{
  ℕ, zero, suc, ◌+◌, ◌≡◌, refl, ap, ◌∙◌, Bool, true, false, ◌&&◌, List, [], ◌∷◌, ◌++◌, Option, none,
  some, Text, str, length, length-append, arith, if◌then◌else◌, All, double, append_assoc, ◌==◌,
  not, is_digit, Bool-cases, inl, inr,
}
use ruprizzle_orm.Dialect.{Dialect, postgres, sqlite, mysql, quote_char, quote_ident, placeholder}
use ruprizzle_orm.Compile.Value.{Foreign, Value}
use ruprizzle_orm.Compile.Markers.{
  IsNumbered, is_chunk, no_dollar, no_mark, stops, IsNumbered-chunk, IsNumbered-placeholder,
}
use ruprizzle_orm.Compile.State.{
  Compiler, Step, ◌⨾◌, skip, push_str, push_quoted, push_bind, push_column, each_after, separated,
}

-- No `$`, no `?`, and no digit at the front.
abbrev pub is_plain : Text → Bool
is_plain s = no_dollar s && no_mark s && stops s

-- Neither `$` nor `?` stands in the name.
abbrev pub is_name : Text → Bool
is_name s = no_dollar s && no_mark s

abbrev pub IsName : Text → Type 0
IsName s = is_name s ≡ true

pub is_chunk-plain : (d : Dialect) (s : Text) → is_plain s ≡ true → is_chunk d s ≡ true
is_chunk-plain postgres s h = ground arith
is_chunk-plain sqlite s h = ground arith
is_chunk-plain mysql s h = ground arith

-- A text has a first byte, and it is no digit.
abbrev pub is_headed : Text → Bool
is_headed [] = false
is_headed (c ∷ t) = not (is_digit c)

pub is_headed-append : (a b : Text) → is_headed a ≡ true → is_headed (a ++ b) ≡ true
is_headed-append [] b h = cc
is_headed-append (c ∷ a) b h = h

-- A step keeps the markers in step with the values, and what the statement begins with.
pub record Keeps {F : Foreign} (d : Dialect) (f : Step F) : Type 0 where
  pub at :
      (c : Compiler F)
      → IsNumbered d c.sql (length c.binds)
      → IsNumbered d (f c).sql (length (f c).binds)
  pub headed : (c : Compiler F) → is_headed c.sql ≡ true → is_headed (f c).sql ≡ true

module _ {F : Foreign} {d : Dialect} where
  pub Keeps-⨾ : (f g : Step F) → Keeps d f → Keeps d g → Keeps d (f ⨾ g)
  unfolding ◌⨾◌
  Keeps-⨾ f g kf kg = record {
    at = λ c h. kg.at (f c) (kf.at c h);
    headed = λ c h. kg.headed (f c) (kf.headed c h);
  }

  pub Keeps-skip : Keeps {F = F} d skip
  unfolding skip
  Keeps-skip = record { at = λ c h. h; headed = λ c h. h }

  pub Keeps-chunk : (s : Text) → is_chunk d s ≡ true → Keeps {F = F} d (push_str s)
  unfolding push_str
  Keeps-chunk s e = record {
    at = λ c h. IsNumbered-chunk d c.sql s (length c.binds) e h;
    headed = λ c h. is_headed-append c.sql s h;
  }

  pub Keeps-push_str : (s : Text) → is_plain s ≡ true → Keeps {F = F} d (push_str s)
  Keeps-push_str s e = Keeps-chunk s (is_chunk-plain d s e)

  pub Keeps-push_bind : (v : Value F) → Keeps d (push_bind d v)
  unfolding push_bind
  Keeps-push_bind v = record {
    at = λ c h.
        let e : length (c.binds ++ (v ∷ [])) ≡ length c.binds + 1 =
          length-append c.binds (v ∷ []) in
        rw e (IsNumbered-placeholder d c.sql (length c.binds) h);
    headed = λ c h. is_headed-append c.sql (placeholder d (length c.binds)) h;
  }

  pub Keeps-if : (b : Bool) (f g : Step F) → Keeps d f → Keeps d g → Keeps d (if b then f else g)
  Keeps-if true f g kf kg = kf
  Keeps-if false f g kf kg = kg

pub is_name-double :
    (q : ℕ) (s t : Text)
    → is_name (q ∷ []) ≡ true
    → is_name s ≡ true
    → is_name t ≡ true
    → is_name (double q s ++ t) ≡ true
unfolding double
is_name-double q [] t hq hs ht = ht
is_name-double q (c ∷ s) t hq hs ht = ground (arith, is_name-double q s t hq)

pub is_plain-quote_ident : (d : Dialect) (s : Text) → IsName s → is_plain (quote_ident d s) ≡ true
unfolding quote_ident
is_plain-quote_ident postgres s h = ground (arith, is_name-double b'"' s (b'"' ∷ []) refl h refl)
is_plain-quote_ident sqlite s h = ground (arith, is_name-double b'`' s (b'`' ∷ []) refl h refl)
is_plain-quote_ident mysql s h = ground (arith, is_name-double b'`' s (b'`' ∷ []) refl h refl)

module _ {F : Foreign} {d : Dialect} where
  pub Keeps-push_quoted : (s : Text) → IsName s → Keeps {F = F} d (push_quoted d s)
  unfolding push_quoted
  Keeps-push_quoted s h = Keeps-push_str (quote_ident d s) (is_plain-quote_ident d s h)

  pub Keeps-push_column :
      (table column : Text)
      → IsName table
      → IsName column
      → Keeps {F = F} d (push_column d table column)
  unfolding push_column
  Keeps-push_column table column ht hc = search (Keeps-⨾, Keeps-push_quoted, Keeps-push_str)

module _ {F : Foreign} {d : Dialect} {A : Type 0} where
  pub Keeps-each_after :
      (sep : Text) (body : A → Step F) (xs : List A)
      → is_plain sep ≡ true
      → ((x : A) → Keeps d (body x))
      → Keeps d (each_after sep body xs)
  unfolding each_after
  Keeps-each_after sep body [] e k = Keeps-skip
  Keeps-each_after sep body (x ∷ xs) e k =
      Keeps-⨾ _ _ (Keeps-push_str sep e) (Keeps-⨾ _ _ (k x) (Keeps-each_after sep body xs e k))

  pub Keeps-separated :
      (sep : Text) (body : A → Step F) (xs : List A)
      → is_plain sep ≡ true
      → ((x : A) → Keeps d (body x))
      → Keeps d (separated sep body xs)
  unfolding separated
  Keeps-separated sep body [] e k = Keeps-skip
  Keeps-separated sep body (x ∷ xs) e k = Keeps-⨾ _ _ (k x) (Keeps-each_after sep body xs e k)

  -- The same where each item satisfies `P`.
  pub Keeps-each_after-All :
      (P : A → Type 0) (sep : Text) (body : A → Step F) (xs : List A)
      → is_plain sep ≡ true
      → All P xs
      → ((x : A) → P x → Keeps d (body x))
      → Keeps d (each_after sep body xs)
  unfolding each_after
  Keeps-each_after-All P sep body [] e h k = Keeps-skip
  Keeps-each_after-All P sep body (x ∷ xs) e h k =
      Keeps-⨾ _ _ (Keeps-push_str sep e)
        (Keeps-⨾ _ _ (k x h.0) (Keeps-each_after-All P sep body xs e h.1 k))

  pub Keeps-separated-All :
      (P : A → Type 0) (sep : Text) (body : A → Step F) (xs : List A)
      → is_plain sep ≡ true
      → All P xs
      → ((x : A) → P x → Keeps d (body x))
      → Keeps d (separated sep body xs)
  unfolding separated
  Keeps-separated-All P sep body [] e h k = Keeps-skip
  Keeps-separated-All P sep body (x ∷ xs) e h k =
      Keeps-⨾ _ _ (k x h.0) (Keeps-each_after-All P sep body xs e h.1 k)

pub ruleset keeps_rules = (
  Keeps-⨾, Keeps-skip, Keeps-push_str, Keeps-chunk, Keeps-push_bind, Keeps-if, Keeps-push_quoted,
  Keeps-push_column, Keeps-separated,
)
