-- ===== src/Migrate/Rename/Suggested.antt =====
-- What a rename suggestion says of the schemas and the changes (crates/migrate/src/rename.rs).
use mathlib.Core.Logic.{ite, if_pos, if_neg}
use mathlib.Core.List.{Mem, mem-cons_self, mem-cons_of_mem}
use ruprizzle_orm.Base.{
  ℕ, ◌≤◌, ◌≡◌, refl, Bool, true, false, ◌&&◌, ◌||◌, List, [], ◌∷◌, ◌++◌, some, leb, if◌then◌else◌,
  arith, ◌>>=◌, ◌⊎◌, Bool-cases, Option-cases, inl, inr, Text, str, to_string, All, dec_text,
  lookup,
}
use ruprizzle_orm.Ir.{Field, has_column, Model, Schema}
use ruprizzle_orm.Migrate.Change.{Change, add_column, drop_column}
use ruprizzle_orm.Migrate.Rename.{
  RenameSuggestion, candidate_score, same_kind, added_columns, dropped_columns, find_column,
  is_candidate, candidates, candidates_are_unambiguous, max_by_score, suggestion, chosen,
  suggest_one, suggest_each, suggest_renames,
}
use ruprizzle_orm.Migrate.Rename.Score.{candidate_score-le}

All-weaken {ℓ κ λ'} :
    {A : Type ℓ} {P : A → Type κ} {Q : A → Type λ'} (xs : List A)
    → ((x : A) → P x → Q x)
    → All P xs
    → All Q xs
All-weaken [] f h = tt
All-weaken (x ∷ xs) f h = (f x h.0, All-weaken xs f h.1)

All-append {ℓ κ} :
    {A : Type ℓ} (P : A → Type κ) (xs ys : List A) → All P xs → All P ys → All P (xs ++ ys)
All-append P [] ys hx hy = hy
All-append P (x ∷ xs) ys hx hy = (hx.0, All-append P xs ys hx.1 hy)

record IsColumn (column : Text) (fields : List (Text × Field)) (field : Field) : Type 0 where
  named : field.column ≡ column
  stored : has_column field ≡ true
  among : (k : Text) × Mem (k, field) fields

find_column-IsColumn :
    (column : Text) (fields : List (Text × Field)) (field : Field)
    → find_column column fields ≡ some field
    → IsColumn column fields field
unfolding find_column
find_column-IsColumn column [] field h = absurd (ground arith)
find_column-IsColumn column ((k, f) ∷ fields) field h =
    elim (Bool-cases (has_column f && ite (dec_text f.column column) true false)) [
      | inl e ↦
          let found : some f ≡ some field = rw e at h in
          let same : f ≡ field = ground arith in
          rw (← same)
            (record { named = ground arith; stored = ground arith; among = (k, mem-cons_self) })
      | inr e ↦
          let later : find_column column fields ≡ some field = rw e at h in
          let ih = find_column-IsColumn column fields field later in
          record {
            named = ih.named;
            stored = ih.stored;
            among = (ih.among.0, mem-cons_of_mem (k, f) ih.among.1);
          }
    ]

-- The column of `previous_field` is dropped, and it may have become `field`.
pub record MayBecome (changes : List Change) (model : Text) (previous_model : Model) (field : Field)
    (c : Field × ℕ) : Type 0 where
  pub dropped : Mem (drop_column model (c.0.column)) changes
  pub among : (k : Text) × Mem (k, c.0) previous_model.fields
  pub stored : has_column c.0 ≡ true
  pub same : same_kind c.0.kind field.kind ≡ true
  pub scored : candidate_score c.0 field ≡ some c.1
  pub high : 4 ≤ c.1
  pub low : c.1 ≤ 8

module _ (changes : List Change) (model : Text) (previous_model : Model) (field : Field) where
  abbrev AllBecome : List (Field × ℕ) → Type 0
  AllBecome = All (MayBecome changes model previous_model field)

  become_cons :
      (unambiguous : Bool) (pf : Field) (score : ℕ) (rest : List (Field × ℕ))
      → Mem (drop_column model pf.column) changes
      → {column : Text} → IsColumn column previous_model.fields pf
      → (score ≡ 0) ⊎ (same_kind pf.kind field.kind ≡ true)
      → candidate_score pf field ≡ some score
      → score ≤ 8
      → AllBecome rest
      → AllBecome (if is_candidate unambiguous score then (pf, score) ∷ rest else rest)
  unfolding is_candidate
  become_cons unambiguous pf score rest gone column kind scored low h =
      elim (Bool-cases (leb 6 score || (leb 4 score && unambiguous))) [
        | inr e ↦ rw e h
        | inl e ↦
            let high : 4 ≤ score = ground arith in
            rw e (
              record {
                dropped = gone;
                among = column.among;
                stored = column.stored;
                same = elim kind [ inl zero_score ↦ absurd (omega arith) | inr s ↦ s ];
                scored = scored;
                high = high;
                low = low;
              },
              h,
            )
      ]

  candidates-AllBecome :
      (unambiguous : Bool) (dropped : List (Text × Text))
      → All (λ p. Mem (drop_column p.0 p.1) changes) dropped
      → (l : List (Field × ℕ)) × (candidates unambiguous previous_model model field dropped
          ≡ some l)
        × AllBecome l
  unfolding candidates
  candidates-AllBecome unambiguous [] h = ([], refl, tt)
  candidates-AllBecome unambiguous ((m, column) ∷ dropped) h =
      let (rest, e, ok) = candidates-AllBecome unambiguous dropped h.1 in
      rw e (elim (dec_text m model) [
        | no p ↦ rw (if_neg _ p) (rest, refl, ok)
        | yes p ↦ rw (if_pos _ p) (elim (Option-cases (find_column column previous_model.fields)) [
          | inl missing ↦ rw missing (rest, refl, ok)
          | inr (pf, found) ↦
              let (score, scored, low, kind) = candidate_score-le pf field in
              let is = find_column-IsColumn column previous_model.fields pf found in
              let gone : Mem (drop_column model pf.column) changes = rw (← p, is.named) h.0 in
              rw (found, ◌>>=◌, scored)
                (_, refl, become_cons unambiguous pf score rest gone is kind scored low ok)
        ])
      ])

  max_by_score-Become :
      (best : Field × ℕ) (rest : List (Field × ℕ))
      → AllBecome (best ∷ rest)
      → MayBecome changes model previous_model field (max_by_score best rest)
  unfolding max_by_score
  max_by_score-Become best [] h = h.0
  max_by_score-Become best (c ∷ rest) h = elim (Bool-cases (leb best.1 c.1)) [
    | inl e ↦ rw e (max_by_score-Become c rest (h.1.0, h.1.1))
    | inr e ↦ rw e (max_by_score-Become best rest (h.0, h.1.1))
  ]

-- The suggestion names a column that is dropped and a column that is added in its model.
pub record IsSuggested (previous : Schema) (changes : List Change) (s : RenameSuggestion)
    : Type 0 where
  pub previous_model : Model
  pub known : lookup s.model previous.models ≡ some previous_model
  pub field : Field
  pub added : Mem (add_column s.model field) changes
  pub c : Field × ℕ
  pub may_become : MayBecome changes s.model previous_model field c
  pub from : s.from ≡ c.0.name
  pub to : s.to ≡ field.name
  pub from_column : s.from_column ≡ c.0.column
  pub to_column : s.to_column ≡ field.column
  pub reason :
      s.reason
      ≡ str "same type and nullability; field similarity score " ++ (to_string c.1 ++ str "/8")

module _ {A : Type 0} (f : Text × A → Change) where
  one_later :
      (c : Change) (changes : List Change) (l : List (Text × A))
      → All (λ p. Mem (f p) changes) l
      → All (λ p. Mem (f p) (c ∷ changes)) l
  one_later c changes l h = All-weaken l (λ p m. mem-cons_of_mem c m) h

added : Text × Field → Change
added p = add_column p.0 p.1

dropped : Text × Text → Change
dropped p = drop_column p.0 p.1

added_columns-All :
    (changes : List Change) → All (λ p. Mem (added p) changes) (added_columns changes)
unfolding added_columns added
added_columns-All [] = tt
added_columns-All (add_column m f ∷ changes) =
    (mem-cons_self, one_later added (add_column m f) changes _ (added_columns-All changes))
added_columns-All (c ∷ changes) = one_later added c changes _ (added_columns-All changes)

dropped_columns-All :
    (changes : List Change) → All (λ p. Mem (dropped p) changes) (dropped_columns changes)
unfolding dropped_columns dropped
dropped_columns-All [] = tt
dropped_columns-All (drop_column m f ∷ changes) =
    (mem-cons_self, one_later dropped (drop_column m f) changes _ (dropped_columns-All changes))
dropped_columns-All (c ∷ changes) = one_later dropped c changes _ (dropped_columns-All changes)

module _ (previous next : Schema) (changes : List Change) where
  chosen-IsSuggested :
      (model : Text) (field : Field) (pm : Model)
      → Mem (add_column model field) changes
      → lookup model previous.models ≡ some pm
      → (l : List (Field × ℕ)) → AllBecome changes model pm field l
      → All (IsSuggested previous changes) (chosen model field l)
  unfolding chosen suggestion
  chosen-IsSuggested model field pm m e [] ok = tt
  chosen-IsSuggested model field pm m e (c ∷ rest) ok = (
    record {
      previous_model = pm;
      known = e;
      field = field;
      added = m;
      c = max_by_score c rest;
      may_become = max_by_score-Become changes model pm field c rest ok;
      from = refl;
      to = refl;
      from_column = refl;
      to_column = refl;
      reason = refl;
    },
    tt,
  )

  suggest_one-IsSuggested :
      (model : Text) (field : Field)
      → Mem (add_column model field) changes
      → (l : List RenameSuggestion) × (suggest_one previous next
            (added_columns changes)
            (dropped_columns changes)
            model
            field
          ≡ some l)
        × All (IsSuggested previous changes) l
  unfolding suggest_one dropped
  suggest_one-IsSuggested model field m = elim (Option-cases (lookup model previous.models)) [
    | inl e ↦ rw (e, suggest_one) ([], refl, tt)
    | inr (pm, e) ↦ elim (Option-cases (lookup model next.models)) [
      | inl e' ↦ rw (e, suggest_one, e') ([], refl, tt)
      | inr (nm, e') ↦ elim (Option-cases (lookup field.name nm.fields)) [
        | inl e'' ↦ rw (e, suggest_one, e', e'') ([], refl, tt)
        | inr (f, e'') ↦
            let (l, found, ok) =
              candidates-AllBecome changes model pm field
                (candidates_are_unambiguous (added_columns changes) (dropped_columns changes) model)
                (dropped_columns changes) (dropped_columns-All changes) in
            rw (e, suggest_one, e', e'', found)
              (_, refl, chosen-IsSuggested model field pm m e l ok)
      ]
    ]
  ]

  suggest_each-IsSuggested :
      (l : List (Text × Field))
      → All (λ p. Mem (added p) changes) l
      → (s : List RenameSuggestion) × (suggest_each previous next
            (added_columns changes)
            (dropped_columns changes)
            l
          ≡ some s)
        × All (IsSuggested previous changes) s
  unfolding suggest_each added
  suggest_each-IsSuggested [] h = ([], refl, tt)
  suggest_each-IsSuggested ((model, field) ∷ l) h =
      let (first, e, ok) = suggest_one-IsSuggested model field h.0 in
      let (rest, e', ok') = suggest_each-IsSuggested l h.1 in
      rw (e, e') (_, refl, All-append (IsSuggested previous changes) first rest ok ok')

  -- `suggest_renames` reads no cell out of range, and for each suggestion that it makes there are
  -- a field that the changes add to the suggested model and a field of that model in the old
  -- schema whose column the changes drop, both of one scalar type or one enum, with a
  -- `candidate_score` from 4 to 8. The suggestion goes from the name and the column of the old
  -- field to those of the added one, and its reason gives that score.
  pub suggest_renames-IsSuggested :
      (suggestions : List RenameSuggestion) × (suggest_renames previous next changes
        ≡ some suggestions)
      × All (IsSuggested previous changes) suggestions
  unfolding suggest_renames
  suggest_renames-IsSuggested =
      suggest_each-IsSuggested (added_columns changes) (added_columns-All changes)
