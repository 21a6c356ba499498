-- ===== src/Distance/Table.antt =====
-- The cells of a row of the table: the distances of one prefix to the prefixes of `b`, each prefix
-- read from its end.
use ruprizzle_orm.Base.{
  ℕ, suc, ◌+◌, ◌≡◌, refl, List, [], ◌∷◌, some, arith, length, get_elem?, range_from, ap,
}
use ruprizzle_orm.Distance.Least.{lev, rev}

-- The cells behind the one of `q`.
unfoldable pub cells : List ℕ → List ℕ → List ℕ → List ℕ
cells p q [] = []
cells p q (y ∷ b) = lev p (y ∷ q) ∷ cells p (y ∷ q) b

pub range_from-cells : (q b : List ℕ) → range_from (length q) (length b) ≡ cells [] q b
unfolding cells lev
range_from-cells q [] = refl
range_from-cells q (y ∷ b) =
    let e : length q + 1 ≡ suc (length q) = omega arith in
    rw e (ap (λ l. suc (length q) ∷ l) (range_from-cells (y ∷ q) b))

pub get_elem?-cells :
    (p q b : List ℕ) → get_elem? (lev p q ∷ cells p q b) (length b) ≡ some (lev p (rev b q))
unfolding cells
get_elem?-cells p q [] = refl
get_elem?-cells p q (y ∷ b) = get_elem?-cells p (y ∷ q) b
