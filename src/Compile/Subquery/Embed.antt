-- ===== src/Compile/Subquery/Embed.antt =====
-- The markers of statements inside statements: `push_subquery` and `renumbered` of
-- crates/runtime/src/compile.rs.
use ruprizzle_orm.Base.{
  ℕ, zero, suc, ◌+◌, ◌-◌, ◌≡◌, ◌↔◌, refl, sym, ap, ◌∙◌, true, false, ◌||◌, not, List, [], ◌∷◌, ◌++◌,
  map, Text, length, is_empty, any, to_string, ◌==◌, arith, Bool-cases, ==_iff, inl, inr,
  range_from, range_from-append, length-append,
}
use native.Mathlib.Nat.{zero-add}
use ruprizzle_orm.Dialect.{Dialect, postgres, sqlite, mysql}
use ruprizzle_orm.Compile.Value.{Foreign, Value}
use ruprizzle_orm.Compile.Filter.{CompiledSql}
use ruprizzle_orm.Compile.Markers.{
  lex, plain, stops, lex-append, markers, marks, marks-append, marks-eq, IsNumbered, no_dollar,
  lex-no_dollar, marks-no_mark, is_chunk,
}
use ruprizzle_orm.Compile.Numbering.{Keeps, is_headed-append}
use ruprizzle_orm.Compile.State.{Compiler}
use ruprizzle_orm.Compile.Subquery.{splice, renumbered, push_subquery}
use ruprizzle_orm.Compile.Subquery.Renumber.{lex-splice, marks-splice, stops-splice}

map-range_from :
    (g : ℕ → ℕ) (k j n : ℕ)
    → ((i : ℕ) → g (k + i + 1) ≡ j + i + 1)
    → map g (range_from k n) ≡ range_from j n
map-range_from g k j zero h = refl
map-range_from g k j (suc n) h =
    let head : g (k + 1) ≡ j + 1 = ap g (omega arith) ∙ h 0 ∙ omega arith in
    cc
      (head, map-range_from g (k + 1) (j + 1) n (λ i. ap g (omega arith) ∙ h (i + 1) ∙ omega arith))

-- The markers of a piece of a statement are `k + 1, …, k + n`; where markers are not numbered,
-- there are n of them.
abbrev Run : Dialect → Text → ℕ → ℕ → Type 0
Run postgres sql k n = lex plain sql ≡ range_from k n
Run sqlite sql k n = marks sql ≡ n
Run mysql sql k n = marks sql ≡ n

pub record IsRun (d : Dialect) (sql : Text) (k n : ℕ) : Type 0 where
  pub at : Run d sql k n

-- A statement whose own markers are `1, …, n`, for its n values, and which begins with no digit.
pub record IsStatement {F : Foreign} (d : Dialect) (s : CompiledSql F) : Type 0 where
  pub numbered : IsNumbered d s.sql (length s.binds)
  pub front : stops s.sql ≡ true

pub IsRun-IsNumbered : (d : Dialect) (sql : Text) (n : ℕ) → IsRun d sql 0 n ↔ IsNumbered d sql n
unfolding markers
IsRun-IsNumbered postgres sql n = (λ h. record { at = h.at }, λ h. record { at = h.at })
IsRun-IsNumbered sqlite sql n =
    (λ h. record { at = ap (range_from 0) h.at }, λ h. record { at = marks-eq sql n h.at })
IsRun-IsNumbered mysql sql n =
    (λ h. record { at = ap (range_from 0) h.at }, λ h. record { at = marks-eq sql n h.at })

-- Pieces join where the second begins with no digit.
pub IsRun-append :
    (d : Dialect) (a b : Text) (k m n l : ℕ)
    → stops b ≡ true
    → IsRun d a k m
    → IsRun d b (k + m) n
    → l ≡ m + n
    → IsRun d (a ++ b) k l
IsRun-append postgres a b k m n l e ha hb h = record {
  at =
      lex-append plain a b e
      ∙ cc (ha.at, hb.at)
      ∙ range_from-append k m n
      ∙ ap (range_from k) (sym h);
}
IsRun-append sqlite a b k m n l e ha hb h = record {
  at = omega (arith, marks-append a b, ha.at, hb.at, h);
}
IsRun-append mysql a b k m n l e ha hb h = record {
  at = omega (arith, marks-append a b, ha.at, hb.at, h);
}

pub IsRun-chunk : (d : Dialect) (s : Text) (k : ℕ) → is_chunk d s ≡ true → IsRun d s k 0
IsRun-chunk postgres s k e = record { at = lex-no_dollar s (ground arith) }
IsRun-chunk sqlite s k e = record { at = marks-no_mark s e }
IsRun-chunk mysql s k e = record { at = marks-no_mark s e }

IsRun-splice :
    (d : Dialect) (g : ℕ → ℕ) (sql : Text) (k n : ℕ)
    → ((i : ℕ) → g (0 + i + 1) ≡ k + i + 1)
    → IsNumbered d sql n
    → IsRun d (splice (λ m. b'$' ∷ to_string (g m)) (length sql) sql) k n
unfolding markers
IsRun-splice postgres g sql k n hg h = record {
  at = lex-splice g (length sql) sql (omega arith) ∙ ap (map g) h.at ∙ map-range_from g 0 k n hg;
}
IsRun-splice sqlite g sql k n hg h = record {
  at = marks-splice g (length sql) sql (omega arith) ∙ marks-eq sql n h.at;
}
IsRun-splice mysql g sql k n hg h = record {
  at = marks-splice g (length sql) sql (omega arith) ∙ marks-eq sql n h.at;
}

any-no_dollar : (t : Text) → any (λ c. c == b'$') t ≡ false → no_dollar t ≡ true
any-no_dollar [] h = refl
any-no_dollar (c ∷ t) h = ground (arith, any-no_dollar t)

range_from-nil : (k n : ℕ) → [] ≡ range_from k n → n ≡ 0
range_from-nil k zero h = refl
range_from-nil k (suc n) h = cc

no_markers :
    (sql : Text) (n : ℕ)
    → ((n == 0) || not (any (λ c. c == b'$') sql)) ≡ true
    → lex plain sql ≡ range_from 0 n
    → n ≡ 0
no_markers sql n e h = elim (Bool-cases (n == 0)) [
  | inl z ↦ (==_iff n 0).0 z
  | inr z ↦ range_from-nil 0 n (sym (lex-no_dollar sql (any-no_dollar sql (ground arith))) ∙ h)
]

-- What `renumbered` leaves as it is needs no change.
IsRun-unmoved :
    (d : Dialect) (sql : Text) (k n : ℕ)
    → ((k == 0) || (n == 0) || not (any (λ c. c == b'$') sql)) ≡ true
    → IsNumbered d sql n
    → IsRun d sql k n
unfolding markers
IsRun-unmoved postgres sql k n e h = elim (Bool-cases (k == 0)) [
  | inl z ↦ record { at = h.at ∙ ap (λ j. range_from j n) (sym ((==_iff k 0).0 z)) }
  | inr z ↦
      let none_left : n ≡ 0 = no_markers sql n (ground arith) h.at in
      record { at = h.at ∙ ap (range_from 0) none_left ∙ sym (ap (range_from k) none_left) }
]
IsRun-unmoved sqlite sql k n e h = record { at = marks-eq sql n h.at }
IsRun-unmoved mysql sql k n e h = record { at = marks-eq sql n h.at }

module _ {F : Foreign} where
  pub Keeps-push_subquery :
      (d : Dialect) (s : CompiledSql F) → IsStatement d s → Keeps d (push_subquery d s)
  unfolding push_subquery
  Keeps-push_subquery postgres s h = record {
    at = λ c k.
        let n = length c.binds in
        let moved =
          IsRun-splice postgres (λ m. n + m - 1 + 1) s.sql n (length s.binds) (λ i. omega arith)
            h.numbered in
        (IsRun-IsNumbered postgres _ _).0 (
          IsRun-append postgres c.sql _ 0 n (length s.binds) _
            (stops-splice (λ m. n + m - 1 + 1) (length s.sql) s.sql h.front)
            ((IsRun-IsNumbered postgres c.sql n).1 k) (rw zero-add moved)
            (length-append c.binds s.binds));
    headed = λ c k. is_headed-append c.sql _ k;
  }
  Keeps-push_subquery sqlite s h = record {
    at = λ c k. (IsRun-IsNumbered sqlite _ _).0 (
        IsRun-append sqlite c.sql s.sql 0 (length c.binds) (length s.binds) _ h.front
          ((IsRun-IsNumbered sqlite _ _).1 k)
          (record { at = ((IsRun-IsNumbered sqlite _ _).1 h.numbered).at })
          (length-append c.binds s.binds));
    headed = λ c k. is_headed-append c.sql _ k;
  }
  Keeps-push_subquery mysql s h = record {
    at = λ c k. (IsRun-IsNumbered mysql _ _).0 (
        IsRun-append mysql c.sql s.sql 0 (length c.binds) (length s.binds) _ h.front
          ((IsRun-IsNumbered mysql _ _).1 k)
          (record { at = ((IsRun-IsNumbered mysql _ _).1 h.numbered).at })
          (length-append c.binds s.binds));
    headed = λ c k. is_headed-append c.sql _ k;
  }

  is_empty-length : (xs : List (Value F)) → is_empty xs ≡ (length xs == 0)
  is_empty-length [] = refl
  is_empty-length (x ∷ xs) = ground arith

  -- A statement with the markers 1, …, n for its n values has, renumbered by an offset k, the
  -- markers k + 1, …, k + n where the dialect numbers them, and n marks where it does not.
  pub IsRun-renumbered :
      (d : Dialect) (s : CompiledSql F) (offset : ℕ)
      → IsNumbered d s.sql (length s.binds)
      → IsRun d (renumbered s offset).sql offset (length s.binds)
  unfolding renumbered
  IsRun-renumbered d s offset h =
      elim (Bool-cases (offset == 0 || is_empty s.binds || not (any (λ c. c == b'$') s.sql))) [
        | inl e ↦
            rw e
              (IsRun-unmoved d s.sql offset (length s.binds) (rw (← is_empty-length s.binds) e) h)
        | inr e ↦
            rw e
              (IsRun-splice d (λ n. n + offset) s.sql offset (length s.binds) (λ i. omega arith) h)
      ]

  pub stops-renumbered :
      (s : CompiledSql F) (offset : ℕ) → stops s.sql ≡ true → stops (renumbered s offset).sql ≡ true
  unfolding renumbered
  stops-renumbered s offset h =
      elim (Bool-cases (offset == 0 || is_empty s.binds || not (any (λ c. c == b'$') s.sql))) [
        | inl e ↦ rw e h
        | inr e ↦ rw e (stops-splice (λ n. n + offset) (length s.sql) s.sql h)
      ]

  pub binds-renumbered : (s : CompiledSql F) (offset : ℕ) → (renumbered s offset).binds ≡ s.binds
  unfolding renumbered
  binds-renumbered s offset = ground arith

-- A subquery with the markers 1, …, m for its m values, which begins with no digit, pushed into a
-- statement with the markers 1, …, n for its n values, gives one with the markers 1, …, n + m.
pub push_subquery-IsNumbered :
    {F : Foreign} (d : Dialect) (s : CompiledSql F) (c : Compiler F)
    → IsStatement d s
    → IsNumbered d c.sql (length c.binds)
    → IsNumbered d (push_subquery d s c).sql (length (push_subquery d s c).binds)
push_subquery-IsNumbered d s c hs hc = (Keeps-push_subquery d s hs).at c hc
