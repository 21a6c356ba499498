-- ===== src/Migrate/Split.antt =====
-- `split_statements` of crates/migrate/src/runner.rs: the text as what is left of it. The tests of
-- characters are the standard library's, and parameters.
pub mod Printed
pub mod Fuel
use ruprizzle_orm.Base.{
  ℕ, zero, suc, Bool, true, false, ◌&&◌, ◌||◌, not, List, [], ◌∷◌, ◌++◌, Option, none, some, ◌==◌,
  if◌then◌else◌, is_empty, length,
}
use ruprizzle_orm.Suggest.{Chars}

-- The loop behind an opening quote: what it copies, and the rest.
unfoldable pub copy_literal : Chars → Chars × Chars
copy_literal [] = ([], [])
copy_literal (c ∷ s) =
    let later = copy_literal s in if c == 39 then (39 ∷ [], s) else (c ∷ later.0, later.1)

-- `matches_at`, with the rest behind the tag.
unfoldable pub strip_tag : Chars → Chars → Option Chars
strip_tag [] s = some s
strip_tag (t ∷ tag) [] = none
strip_tag (t ∷ tag) (c ∷ s) = let later = strip_tag tag s in if t == c then later else none

-- The loop behind a dollar-quote tag.
unfoldable pub copy_dollar : Chars → Chars → Chars × Chars
copy_dollar tag [] = ([], [])
copy_dollar tag (c ∷ s) =
    let later = copy_dollar tag s in
    elim (if c == 36 then strip_tag tag (c ∷ s) else none) [
      | some rest ↦ (tag, rest)
      | none ↦ (c ∷ later.0, later.1)
    ]

-- The rest behind a `--` comment and its newline.
unfoldable pub skip_line : Chars → Chars
skip_line [] = []
skip_line (c ∷ s) = let later = skip_line s in if c == 10 then s else later

-- The rest behind a block comment; of one that is not closed the last character is left.
unfoldable pub skip_block : Chars → Chars
skip_block [] = []
skip_block (c ∷ []) = c ∷ []
skip_block (c ∷ d ∷ s) =
    let later = skip_block (d ∷ s) in if (c == 42) && (d == 47) then s else later

-- What one round of the loop pushes to `current`, whether it ends the statement, and the rest.
pub record Round : Type 0 where
  pub pushed : Chars
  pub ends : Bool
  pub rest : Chars

abbrev pub push : Chars × Chars → Chars → Round
push later head = record { pushed = head ++ later.0; ends = false; rest = later.1 }

unfoldable pub starts : ℕ → Chars → Bool
starts c [] = false
starts c (d ∷ s) = d == c

unfoldable pub drop_one : Chars → Chars
drop_one [] = []
drop_one (d ∷ rest) = rest

module _ (is_alphabetic is_alphanumeric is_whitespace : ℕ → Bool) where
  unfoldable pub tag_name : Chars → Chars × Chars
  tag_name [] = ([], [])
  tag_name (c ∷ s) =
      let later = tag_name s in
      if is_alphanumeric c || (c == 95) then (c ∷ later.0, later.1) else ([], c ∷ s)

  -- `dollar_tag_len` behind the first `$`: the tag and the rest.
  unfoldable pub dollar_tag : Chars → Option (Chars × Chars)
  dollar_tag [] = none
  dollar_tag (c ∷ s) =
      if c == 36
      then some (36 ∷ 36 ∷ [], s)
      else if not (is_alphabetic c || (c == 95))
      then none
      else elim ((tag_name (c ∷ s)).1) [
        | [] ↦ none
        | d ∷ rest ↦ if d == 36 then some (36 ∷ ((tag_name (c ∷ s)).0 ++ (36 ∷ [])), rest) else none
      ]

  unfoldable pub round : ℕ → Chars → Round
  round c s =
      if c == 39
      then push (copy_literal s) (39 ∷ [])
      else if (c == 45) && starts 45 s
      then record { pushed = 32 ∷ []; ends = false; rest = skip_line (drop_one s) }
      else if (c == 47) && starts 42 s
      then record { pushed = 32 ∷ []; ends = false; rest = skip_block (drop_one s) }
      else if c == 59
      then record { pushed = []; ends = true; rest = s }
      else elim (if c == 36 then dollar_tag s else none) [
        | some (tag, body) ↦ push (copy_dollar tag body) tag
        | none ↦ record { pushed = c ∷ []; ends = false; rest = s }
      ]

  unfoldable pub trim_start : Chars → Chars
  trim_start [] = []
  trim_start (c ∷ s) = let later = trim_start s in if is_whitespace c then later else c ∷ s

  unfoldable pub trim_end : Chars → Chars
  trim_end [] = []
  trim_end (c ∷ s) =
      let later = trim_end s in if is_whitespace c && is_empty later then [] else c ∷ later

  unfoldable pub trim : Chars → Chars
  trim s = trim_end (trim_start s)

  -- `if !current.trim().is_empty() { statements.push(current.trim()) }`
  unfoldable pub finish : Chars → List Chars
  finish current = if is_empty (trim current) then [] else trim current ∷ []

  -- The outer loop, on fuel.
  unfoldable pub split_loop : ℕ → Chars → Chars → List Chars
  split_loop fuel [] current = finish current
  split_loop zero (c ∷ s) current = []
  split_loop (suc fuel) (c ∷ s) current =
      let r = round c s in
      (if r.ends then finish current else [])
      ++ split_loop fuel r.rest (if r.ends then [] else current ++ r.pushed)

  unfoldable pub split_statements : Chars → List Chars
  split_statements sql = split_loop (length sql) sql []
