-- ===== src/Migrate/Rename.antt =====
-- crates/migrate/src/rename.rs. `none` is an index out of range.
pub mod Score
pub mod Suggested
use Prim.Native.Nat.{min, max}
use mathlib.Core.Logic.{ite}
use ruprizzle_orm.Base.{
  ℕ, ◌+◌, ◌*◌, Bool, true, false, ◌&&◌, ◌||◌, List, [], ◌∷◌, ◌++◌, map, Option, none, some, leb,
  ltb, ◌==◌, if◌then◌else◌, length, get_elem?, range_from, ◌>>=◌, Text, str, to_string, dec_text,
  lookup,
}
use ruprizzle_orm.Suggest.{Chars, len_bytes}
use ruprizzle_orm.Ir.{FieldKind, Field, has_column, Model, Schema}
use ruprizzle_orm.Ir.Equality.{dec_scalar_type, eq_default, dec_bool}
use ruprizzle_orm.Migrate.Change.{Change, add_column, drop_column}

pub record RenameSuggestion : Type 0 where
  pub model : Text
  pub from : Text
  pub to : Text
  pub from_column : Text
  pub to_column : Text
  pub reason : Text

-- The inner loop of `levenshtein` over the cells behind `here`, which has been written; `diagonal`
-- is what the cell before was before the round.
unfoldable pub update_row : ℕ → ℕ → ℕ → List ℕ → Chars → Option (List ℕ)
update_row left diagonal here row [] = some row
update_row left diagonal here [] (right ∷ rights) = none
update_row left diagonal here (above ∷ row) (right ∷ rights) = do
  let cell = if left == right then diagonal else 1 + min (min diagonal above) here
  rest ← update_row left above cell row rights
  some (cell ∷ rest)

unfoldable pub update_rows : ℕ → Chars → Chars → List ℕ → Option (List ℕ)
update_rows i [] right row = some row
update_rows i (c ∷ left) right [] = none
update_rows i (c ∷ left) right (diagonal ∷ row) = do
  rest ← update_row c diagonal (i + 1) row right
  update_rows (i + 1) left right ((i + 1) ∷ rest)

unfoldable pub levenshtein : Chars → Chars → Option ℕ
levenshtein left right = do
  row ← update_rows 0 left right (0 ∷ range_from 0 (length right))
  get_elem? row (length right)

unfoldable pub common_prefix : Chars → Chars → ℕ
common_prefix (a ∷ left) (b ∷ right) =
    let rest = common_prefix left right in if a == b then 1 + rest else 0
common_prefix _ _ = 0

unfoldable pub to_ascii_lowercase : Chars → Chars
to_ascii_lowercase = map (λ c. if leb 65 c && leb c 90 then c + 32 else c)

unfoldable pub starts_with : Chars → Chars → Bool
starts_with s [] = true
starts_with [] (c ∷ p) = false
starts_with (d ∷ s) (c ∷ p) = (d == c) && starts_with s p

-- `str::contains`.
unfoldable pub contains_str : Chars → Chars → Bool
contains_str [] p = starts_with [] p
contains_str (c ∷ s) p = starts_with (c ∷ s) p || contains_str s p

unfoldable pub name_similarity : Chars → Chars → Option ℕ
name_similarity previous next = do
  let a = to_ascii_lowercase previous
  let b = to_ascii_lowercase next
  distance ← levenshtein a b
  some (
      if max (len_bytes a) (len_bytes b) == 0
      then 3
      else if distance == 0
      then 3
      else if leb (distance * 2) (max (len_bytes a) (len_bytes b))
          || contains_str a b
          || contains_str b a
      then 2
      else if leb 3 (common_prefix a b)
      then 1
      else 0)

unfoldable pub same_kind : FieldKind → FieldKind → Bool
same_kind (FieldKind.scalar a) (FieldKind.scalar b) = ite (dec_scalar_type a b) true false
same_kind (FieldKind.enum a) (FieldKind.enum b) = ite (dec_text a b) true false
same_kind _ _ = false

unfoldable pub candidate_score : Field → Field → Option ℕ
candidate_score previous next = do
  similarity ← name_similarity (previous.name) (next.name)
  some (
      if same_kind (previous.kind) (next.kind)
      then 3
        + ite (dec_bool previous.optional next.optional) 1 0
        + (if eq_default previous.default next.default then 1 else 0)
        + min similarity 3
      else 0)

-- The two passes of `filter_map`.
unfoldable pub added_columns : List Change → List (Text × Field)
added_columns [] = []
added_columns (add_column model field ∷ changes) = (model, field) ∷ added_columns changes
added_columns (_ ∷ changes) = added_columns changes

unfoldable pub dropped_columns : List Change → List (Text × Text)
dropped_columns [] = []
dropped_columns (drop_column model column ∷ changes) = (model, column) ∷ dropped_columns changes
dropped_columns (_ ∷ changes) = dropped_columns changes

unfoldable pub count_of {ℓ} : {A : Type ℓ} → Text → List (Text × A) → ℕ
count_of model [] = 0
count_of model ((m, _) ∷ rest) = ite (dec_text m model) 1 0 + count_of model rest

unfoldable pub candidates_are_unambiguous : List (Text × Field) → List (Text × Text) → Text → Bool
candidates_are_unambiguous added dropped model =
    (count_of model added == 1) && (count_of model dropped == 1)

-- `scalar_fields().find(|candidate| candidate.column == column)`
unfoldable pub find_column : Text → List (Text × Field) → Option Field
find_column column [] = none
find_column column ((_, field) ∷ fields) =
    if has_column field && ite (dec_text field.column column) true false
    then some field
    else find_column column fields

unfoldable pub is_candidate : Bool → ℕ → Bool
is_candidate unambiguous score = leb 6 score || (leb 4 score && unambiguous)

-- The dropped columns that the added `field` may come from, with their scores.
unfoldable pub candidates :
    Bool → Model → Text → Field → List (Text × Text) → Option (List (Field × ℕ))
candidates unambiguous previous_model model field [] = some []
candidates unambiguous previous_model model field ((dropped_model, column) ∷ dropped) = do
  rest ← candidates unambiguous previous_model model field dropped
  ite (dec_text dropped_model model)
      (elim (find_column column previous_model.fields) [
        | none ↦ some rest
        | some previous_field ↦ do
          score ← candidate_score previous_field field
          some (if is_candidate unambiguous score then (previous_field, score) ∷ rest else rest)
      ])
      (some rest)

-- `max_by_key`: the last of the greatest.
unfoldable pub max_by_score : Field × ℕ → List (Field × ℕ) → Field × ℕ
max_by_score best [] = best
max_by_score best (c ∷ rest) = max_by_score (if leb best.1 c.1 then c else best) rest

unfoldable pub suggestion : Text → Field → Field × ℕ → RenameSuggestion
suggestion model field (previous_field, score) = record {
  model = model;
  from = previous_field.name;
  to = field.name;
  from_column = previous_field.column;
  to_column = field.column;
  reason =
      str "same type and nullability; field similarity score " ++ (to_string score ++ str "/8");
}

-- `None => continue`, or the push of one suggestion.
unfoldable pub chosen : Text → Field → List (Field × ℕ) → List RenameSuggestion
chosen model field [] = []
chosen model field (c ∷ rest) = suggestion model field (max_by_score c rest) ∷ []

-- One round of the loop over the added columns.
unfoldable pub suggest_one :
    Schema
    → Schema
    → List (Text × Field)
    → List (Text × Text)
    → Text
    → Field
    → Option (List RenameSuggestion)
suggest_one previous next added dropped model field = elim (lookup model previous.models) [
  | none ↦ some []
  | some previous_model ↦ elim (lookup model next.models) [
    | none ↦ some []
    | some next_model ↦ elim (lookup field.name next_model.fields) [
      | none ↦ some []
      | some _ ↦ do
        found ←
            candidates (candidates_are_unambiguous added dropped model) previous_model model field
              dropped
        some (chosen model field found)
    ]
  ]
]

unfoldable pub suggest_each :
    Schema
    → Schema
    → List (Text × Field)
    → List (Text × Text)
    → List (Text × Field)
    → Option (List RenameSuggestion)
suggest_each previous next added dropped [] = some []
suggest_each previous next added dropped ((model, field) ∷ rest) = do
  first ← suggest_one previous next added dropped model field
  others ← suggest_each previous next added dropped rest
  some (first ++ others)

unfoldable pub suggest_renames : Schema → Schema → List Change → Option (List RenameSuggestion)
suggest_renames previous next changes =
    let added = added_columns changes in
    suggest_each previous next added (dropped_columns changes) added
