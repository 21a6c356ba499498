-- ===== src/Suggest.antt =====
-- crates/core/src/suggest.rs. A name is the list of its characters. `char::to_lowercase`, which
-- may answer several characters, is a parameter; `none` is an index out of range.
pub mod Rows
pub mod Closest
use Prim.Native.Nat.{min}
use ruprizzle_orm.Base.{
  ℕ, Bool, ◌+◌, List, [], ◌∷◌, ◌++◌, Option, none, some, leb, ltb, ◌==◌, ◌||◌, ◌&&◌, if◌then◌else◌,
  is_empty, length, get_elem?, range_from, ◌>>=◌,
}

abbrev pub Chars : Type 0
Chars = List ℕ

-- `str::len_bytes`: the number of bytes in UTF-8.
unfoldable pub len_utf8 : ℕ → ℕ
len_utf8 c = if ltb c 128 then 1 else if ltb c 2048 then 2 else if ltb c 65536 then 3 else 4

unfoldable pub len_bytes : Chars → ℕ
len_bytes [] = 0
len_bytes (c ∷ s) = len_utf8 c + len_bytes s

-- The inner loop: the cells of `curr` behind `left`, from those of `prev`.
unfoldable pub fill_cells : ℕ → ℕ → List ℕ → Chars → Option (List ℕ)
fill_cells ca left prev [] = some []
fill_cells ca left [] (cb ∷ b) = none
fill_cells ca left (diagonal ∷ []) (cb ∷ b) = none
fill_cells ca left (diagonal ∷ above ∷ prev) (cb ∷ b) = do
  let cost = if ca == cb then 0 else 1
  let cell = min (min (above + 1) (left + 1)) (diagonal + cost)
  cells ← fill_cells ca cell (above ∷ prev) b
  some (cell ∷ cells)

-- The outer loop, with the two rows swapped at the end of each round.
unfoldable pub fill_rows : ℕ → Chars → Chars → List ℕ → Option (List ℕ)
fill_rows i [] b prev = some prev
fill_rows i (ca ∷ a) b prev = do
  curr ← fill_cells ca (i + 1) prev b
  fill_rows (i + 1) a b ((i + 1) ∷ curr)

module _ (to_lowercase : ℕ → Chars) where
  unfoldable pub lower : Chars → Chars
  lower [] = []
  lower (c ∷ s) = to_lowercase c ++ lower s

  unfoldable pub distance : Chars → Chars → Option ℕ
  distance a b =
      if is_empty (lower a)
      then some (length (lower b))
      else if is_empty (lower b)
      then some (length (lower a))
      else do
        row ← fill_rows 0 (lower a) (lower b) (0 ∷ range_from 0 (length (lower b)))
        get_elem? row (length (lower b))

  unfoldable pub threshold : Chars → ℕ
  threshold input = if leb (length input) 2 then 1 else if leb (length input) 5 then 2 else 3

  -- `map` to pairs and `filter`.
  unfoldable pub near : Chars → List Chars → Option (List (ℕ × Chars))
  near input [] = some []
  near input (c ∷ candidates) = do
    d ← distance input c
    rest ← near input candidates
    some (if leb d (threshold input) then (d, c) ∷ rest else rest)

  -- `(d, c.len())` in the order of pairs.
  unfoldable pub key_lt : ℕ × Chars → ℕ × Chars → Bool
  key_lt (d, c) (e, s) = ltb d e || (d == e && ltb (len_bytes c) (len_bytes s))

  -- `min_by_key`: the first of the least.
  unfoldable pub min_by_key : ℕ × Chars → List (ℕ × Chars) → ℕ × Chars
  min_by_key best [] = best
  min_by_key best (p ∷ rest) = min_by_key (if key_lt p best then p else best) rest

  unfoldable pub closest : Chars → List Chars → Option (Option Chars)
  closest input candidates = do
    found ← near input candidates
    some (elim found [ [] ↦ none | p ∷ rest ↦ some (min_by_key p rest).1 ])
