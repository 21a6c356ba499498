-- ===== src/Suggest/Rows.antt =====
-- The rows of `distance` (crates/core/src/suggest.rs) hold the distances of the prefixes.
use ruprizzle_orm.Base.{
  ℕ, ◌+◌, ◌≡◌, refl, [], ◌∷◌, some, arith, is_empty, if◌then◌else◌, length, get_elem?, range_from,
  ◌>>=◌,
}
use ruprizzle_orm.Distance.{IsDistance}
use ruprizzle_orm.Distance.Least.{lev, rev, lev-nil, lev-rev, lev-IsDistance}
use ruprizzle_orm.Distance.Table.{cells, range_from-cells, get_elem?-cells}
use ruprizzle_orm.Suggest.{Chars, fill_cells, fill_rows, lower, distance}

fill_cells-cells :
    (x : ℕ) (p q b : Chars)
    → fill_cells x (lev (x ∷ p) q) (lev p q ∷ cells p q b) b ≡ some (cells (x ∷ p) q b)
unfolding fill_cells cells lev
fill_cells-cells x p q [] = refl
fill_cells-cells x p q (y ∷ b) = rw (fill_cells-cells x p (y ∷ q) b)

fill_rows-cells :
    (i : ℕ) (p a b : Chars)
    → i ≡ length p
    → fill_rows i a b (lev p [] ∷ cells p [] b) ≡ some (lev (rev a p) [] ∷ cells (rev a p) [] b)
unfolding fill_rows
fill_rows-cells i p [] b h = refl
fill_rows-cells i p (x ∷ a) b h =
    let e : i + 1 ≡ lev (x ∷ p) [] = omega (arith, lev-nil (x ∷ p)) in
    rw (e, fill_cells-cells x p [] b)
      (fill_rows-cells (lev (x ∷ p) []) (x ∷ p) a b (lev-nil (x ∷ p)))

table-lev :
    (a b : Chars)
    → (fill_rows 0 a b (0 ∷ range_from 0 (length b)) >>= λ row. get_elem? row (length b))
      ≡ some (lev a b)
unfolding lev
table-lev a b =
    let filled : fill_rows 0 a b (0 ∷ range_from 0 (length b))
        ≡ some (lev (rev a []) [] ∷ cells (rev a []) [] b) =
      rw (range_from-cells [] b) (fill_rows-cells 0 [] a b refl) in
    rw (filled, get_elem?-cells (rev a []) [] b, lev-rev a b)

distance_body :
    (a b : Chars)
    → (if is_empty a
        then some (length b)
        else if is_empty b
        then some (length a)
        else (fill_rows 0 a b (0 ∷ range_from 0 (length b)) >>= λ row. get_elem? row (length b)))
      ≡ some (lev a b)
unfolding lev
distance_body [] b = refl
distance_body (x ∷ a) [] = refl
distance_body (x ∷ a) (y ∷ b) = table-lev (x ∷ a) (y ∷ b)

module _ (to_lowercase : ℕ → Chars) where
  pub distance-lev :
      (a b : Chars)
      → distance to_lowercase a b ≡ some (lev (lower to_lowercase a) (lower to_lowercase b))
  unfolding distance
  distance-lev a b = distance_body (lower to_lowercase a) (lower to_lowercase b)

  -- `distance` reads no cell out of range and returns the least number of deletions, insertions
  -- and replacements that turn one lower-cased name into the other: some edit script makes so
  -- many, and none makes fewer.
  pub distance-IsDistance :
      (a b : Chars)
      → (d : ℕ) × (distance to_lowercase a b ≡ some d)
        × IsDistance (lower to_lowercase a) (lower to_lowercase b) d
  distance-IsDistance a b = (_, distance-lev a b, lev-IsDistance _ _)
