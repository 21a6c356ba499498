-- ===== src/Migrate/Rename/Score.antt =====
-- The edit distance and the scores of crates/migrate/src/rename.rs.
use Prim.Native.Nat.{min}
use ruprizzle_orm.Base.{
  ℕ, ◌+◌, ◌≤◌, ◌≡◌, refl, Bool, true, false, [], ◌∷◌, some, ◌==◌, ◌⊎◌, if◌then◌else◌, arith, length,
  range_from, inl, inr,
}
use ruprizzle_orm.Distance.{IsDistance}
use ruprizzle_orm.Distance.Least.{
  lev, rev, lev-nil, lev-rev, lev_shrink_left, lev_shrink_right, lev-IsDistance,
}
use ruprizzle_orm.Distance.Table.{cells, range_from-cells, get_elem?-cells}
use ruprizzle_orm.Suggest.{Chars}
use ruprizzle_orm.Ir.{Field}
use ruprizzle_orm.Migrate.Rename.{
  update_row, update_rows, levenshtein, to_ascii_lowercase, name_similarity, same_kind,
  candidate_score,
}

-- The short form of the cell: where the characters agree, the diagonal is the least.
cell-lev :
    (x y : ℕ) (p q : Chars)
    → (if x == y then lev p q else 1 + min (min (lev p q) (lev p (y ∷ q))) (lev (x ∷ p) q))
      ≡ lev (x ∷ p) (y ∷ q)
unfolding lev
cell-lev x y p q = ground (arith, lev_shrink_right y p q, lev_shrink_left x p q)

update_row-cells :
    (x : ℕ) (p q b : Chars)
    → update_row x (lev p q) (lev (x ∷ p) q) (cells p q b) b ≡ some (cells (x ∷ p) q b)
unfolding update_row cells
update_row-cells x p q [] = refl
update_row-cells x p q (y ∷ b) = rw (cell-lev x y p q, update_row-cells x p (y ∷ q) b)

update_rows-cells :
    (i : ℕ) (p a b : Chars)
    → i ≡ length p
    → update_rows i a b (lev p [] ∷ cells p [] b) ≡ some (lev (rev a p) [] ∷ cells (rev a p) [] b)
unfolding update_rows
update_rows-cells i p [] b h = refl
update_rows-cells i p (x ∷ a) b h =
    let e : i + 1 ≡ lev (x ∷ p) [] = omega (arith, lev-nil (x ∷ p)) in
    rw (e, update_row-cells x p [] b)
      (update_rows-cells (lev (x ∷ p) []) (x ∷ p) a b (lev-nil (x ∷ p)))

pub levenshtein-lev : (a b : Chars) → levenshtein a b ≡ some (lev a b)
unfolding levenshtein lev
levenshtein-lev a b =
    let filled : update_rows 0 a b (0 ∷ range_from 0 (length b))
        ≡ some (lev (rev a []) [] ∷ cells (rev a []) [] b) =
      rw (range_from-cells [] b) (update_rows-cells 0 [] a b refl) in
    rw (filled, get_elem?-cells (rev a []) [] b, lev-rev a b)

-- `levenshtein`, on its single row, reads no cell out of range and returns the least number of
-- deletions, insertions and replacements that turn one name into the other.
pub levenshtein-IsDistance : (a b : Chars) → (d : ℕ) × (levenshtein a b ≡ some d) × IsDistance a b d
levenshtein-IsDistance a b = (_, levenshtein-lev a b, lev-IsDistance a b)

name_similarity-le : (a b : Chars) → (n : ℕ) × (name_similarity a b ≡ some n) × (n ≤ 3)
unfolding name_similarity
name_similarity-le a b =
    rw (levenshtein-lev (to_ascii_lowercase a) (to_ascii_lowercase b)) (_, refl, ground arith)

score_kind : (same : Bool) (n m : ℕ) → ((if same then n + m else 0) ≡ 0) ⊎ (same ≡ true)
score_kind true n m = inr refl
score_kind false n m = inl refl

pub candidate_score-le :
    (previous next : Field)
    → (n : ℕ) × (candidate_score previous next ≡ some n)
      × (n ≤ 8)
      × ((n ≡ 0) ⊎ (same_kind previous.kind next.kind ≡ true))
unfolding candidate_score
candidate_score-le previous next =
    let (similarity, e, le) = name_similarity-le previous.name next.name in
    rw e (_, refl, ground arith, score_kind _ _ _)
