-- ===== src/Migrate/Split/Fuel.antt =====
-- The fuel of `split_statements` (crates/migrate/src/runner.rs): each round leaves less text.
use ruprizzle_orm.Base.{
  ℕ, zero, suc, ◌≤◌, ◌≡◌, Bool, List, [], ◌∷◌, ◌++◌, Option, none, some, ◌==◌, if◌then◌else◌,
  length, arith, inl, inr, Option-cases, Bool-cases, true, false,
}
use ruprizzle_orm.Suggest.{Chars}
use ruprizzle_orm.Migrate.Split.{
  copy_literal, copy_dollar, strip_tag, skip_line, skip_block, drop_one, tag_name, dollar_tag,
  round, finish, split_loop, split_statements,
}

copy_literal-le : (s : Chars) → length (copy_literal s).1 ≤ length s
unfolding copy_literal
copy_literal-le [] = omega arith
copy_literal-le (c ∷ s) = ground (arith, copy_literal-le s)

strip_tag-le : (tag s rest : Chars) → strip_tag tag s ≡ some rest → length rest ≤ length s
unfolding strip_tag
strip_tag-le [] s rest h = ground arith
strip_tag-le (t ∷ tag) [] rest h = ground arith
strip_tag-le (t ∷ tag) (c ∷ s) rest h = ground (arith, strip_tag-le tag s rest)

copy_dollar-le : (tag s : Chars) → length (copy_dollar tag s).1 ≤ length s
unfolding copy_dollar
copy_dollar-le tag [] = omega arith
copy_dollar-le tag (c ∷ s) = elim (Option-cases (if c == 36 then strip_tag tag (c ∷ s) else none)) [
  | inl e ↦ ground (arith, copy_dollar-le tag s)
  | inr (rest, e) ↦ ground (arith, strip_tag-le tag (c ∷ s) rest)
]

skip_line-le : (s : Chars) → length (skip_line s) ≤ length s
unfolding skip_line
skip_line-le [] = omega arith
skip_line-le (c ∷ s) = ground (arith, skip_line-le s)

skip_block-le : (s : Chars) → length (skip_block s) ≤ length s
unfolding skip_block
skip_block-le [] = omega arith
skip_block-le (c ∷ []) = omega arith
skip_block-le (c ∷ d ∷ s) = ground (arith, skip_block-le (d ∷ s))

drop_one-le : (s : Chars) → length (drop_one s) ≤ length s
unfolding drop_one
drop_one-le [] = omega arith
drop_one-le (c ∷ s) = omega arith

module _ (is_alphabetic is_alphanumeric is_whitespace : ℕ → Bool) where
  abbrev name : Chars → Chars × Chars
  name = tag_name is_alphabetic is_alphanumeric is_whitespace

  abbrev tag_of : Chars → Option (Chars × Chars)
  tag_of = dollar_tag is_alphabetic is_alphanumeric is_whitespace

  abbrev loop : ℕ → Chars → Chars → List Chars
  loop = split_loop is_alphabetic is_alphanumeric is_whitespace

  tag_name-le : (s : Chars) → length (name s).1 ≤ length s
  unfolding tag_name
  tag_name-le [] = omega arith
  tag_name-le (c ∷ s) = ground (arith, tag_name-le s)

  dollar_tag-le : (s tag rest : Chars) → tag_of s ≡ some (tag, rest) → length rest ≤ length s
  unfolding dollar_tag
  dollar_tag-le [] tag rest h = ground arith
  dollar_tag-le (c ∷ s) tag rest h = ground (arith, tag_name-le (c ∷ s))

  round-le :
      (c : ℕ) (s : Chars)
      → length (round is_alphabetic is_alphanumeric is_whitespace c s).rest ≤ length s
  unfolding round
  round-le c s = elim (Option-cases (if c == 36 then tag_of s else none)) [
    | inl e ↦ ground (
      arith,
      copy_literal-le s,
      skip_line-le (drop_one s),
      skip_block-le (drop_one s),
      drop_one-le s,
    )
    | inr ((tag, body), e) ↦ ground (
      arith,
      copy_literal-le s,
      skip_line-le (drop_one s),
      skip_block-le (drop_one s),
      drop_one-le s,
      dollar_tag-le s tag body,
      copy_dollar-le tag body,
    )
  ]

  -- A run of the source's loop, which has no fuel: after that many rounds nothing is left of the
  -- text. A loop that goes on for ever has no such run.
  pub data Run : ℕ → Chars → Chars → List Chars → Type 0 where
    ended :
        (current : Chars)
        → Run 0 [] current (finish is_alphabetic is_alphanumeric is_whitespace current)
    ending :
        (n c : ℕ) (s current : Chars) (later : List Chars)
        → (round is_alphabetic is_alphanumeric is_whitespace c s).ends ≡ true
        → Run n (round is_alphabetic is_alphanumeric is_whitespace c s).rest [] later
        → Run
            (suc n)
            (c ∷ s)
            current
            (finish is_alphabetic is_alphanumeric is_whitespace current ++ later)
    inside :
        (n c : ℕ) (s current : Chars) (later : List Chars)
        → (round is_alphabetic is_alphanumeric is_whitespace c s).ends ≡ false
        → Run n
            (round is_alphabetic is_alphanumeric is_whitespace c s).rest
            (current ++ (round is_alphabetic is_alphanumeric is_whitespace c s).pushed)
            later
        → Run (suc n) (c ∷ s) current later

  loop-Run :
      (f : ℕ) (s current : Chars)
      → length s ≤ f
      → (n : ℕ) × (n ≤ length s) × Run n s current (loop f s current)
  unfolding split_loop
  loop-Run f [] current h = (0, omega arith, ended current)
  loop-Run zero (c ∷ s) current h = absurd (omega arith)
  loop-Run (suc f) (c ∷ s) current h =
      let r = round is_alphabetic is_alphanumeric is_whitespace c s in
      let shorter = round-le c s in
      elim (Bool-cases r.ends) [
        | inl e ↦
            let (n, le, run) = loop-Run f r.rest [] (omega (arith, shorter)) in
            (suc n, omega (arith, shorter, le), rw (e) (ending n c s current _ e run))
        | inr e ↦
            let (n, le, run) = loop-Run f r.rest (current ++ r.pushed) (omega (arith, shorter)) in
            (suc n, omega (arith, shorter, le), rw (e) (inside n c s current _ e run))
      ]

  -- The loop of `split_statements`, which the source runs without a fuel, ends on every text:
  -- after no more rounds than the text has characters nothing is left of it, and the statements
  -- collected are those that `split_statements` answers.
  pub split_statements-Run :
      (sql : Chars)
      → (n : ℕ) × (n ≤ length sql)
        × Run n sql [] (split_statements is_alphabetic is_alphanumeric is_whitespace sql)
  unfolding split_statements
  split_statements-Run sql = loop-Run (length sql) sql [] (omega arith)
