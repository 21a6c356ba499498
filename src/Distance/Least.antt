-- ===== src/Distance/Least.antt =====
-- The recursive distance is the least number of changes, from the front and from the back.
use Prim.Native.Nat.{min}
use native.Mathlib.Decide.{dec_le, ℕ_discrete}
use ruprizzle_orm.Base.{
  ℕ, suc, ◌+◌, ◌≡◌, refl, ◌≤◌, List, [], ◌∷◌, ◌++◌, ◌==◌, if◌then◌else◌, arith, length, subst, ◌∙◌,
  append-nil,
}
use ruprizzle_orm.Distance.{Script, done, deleted, inserted, kept, replaced, IsDistance}

abbrev pub cost : ℕ → ℕ → ℕ
cost x y = if x == y then 0 else 1

unfoldable pub lev : List ℕ → List ℕ → ℕ
lev [] b = length b
lev (x ∷ a) [] = suc (length a)
lev (x ∷ a) (y ∷ b) = min (min (lev a (y ∷ b) + 1) (lev (x ∷ a) b + 1)) (lev a b + cost x y)

pub lev-nil : (a : List ℕ) → lev a [] ≡ length a
unfolding lev
lev-nil [] = refl
lev-nil (x ∷ a) = refl

-- The distance changes by at most one with one more character.
lev_delete : (x : ℕ) (a b : List ℕ) → lev (x ∷ a) b ≤ lev a b + 1
unfolding lev
lev_delete x a [] = omega (arith, lev-nil a)
lev_delete x a (y ∷ b) = omega arith

lev_insert : (y : ℕ) (a b : List ℕ) → lev a (y ∷ b) ≤ lev a b + 1
unfolding lev
lev_insert y [] b = omega arith
lev_insert y (x ∷ a) b = omega arith

pub lev_shrink_right : (y : ℕ) (a b : List ℕ) → lev a b ≤ lev a (y ∷ b) + 1
unfolding lev
lev_shrink_right y [] b = omega arith
lev_shrink_right y (x ∷ a) b = ground (arith, lev_shrink_right y a b, lev_delete x a b)

pub lev_shrink_left : (x : ℕ) (a b : List ℕ) → lev a b ≤ lev (x ∷ a) b + 1
unfolding lev
lev_shrink_left x a [] = omega (arith, lev-nil a)
lev_shrink_left x a (y ∷ b) = ground (arith, lev_shrink_left x a b, lev_insert y a b)

lev-le : {a b : List ℕ} {n : ℕ} → Script a b n → lev a b ≤ n
unfolding lev
lev-le done = omega arith
lev-le (deleted x {a} {b} s) = omega (arith, lev_delete x a b, lev-le s)
lev-le (inserted y {a} {b} s) = omega (arith, lev_insert y a b, lev-le s)
lev-le (kept e s) = ground (arith, lev-le s)
lev-le (replaced s) = ground (arith, lev-le s)

inserts : (b : List ℕ) → Script [] b (length b)
inserts [] = done
inserts (y ∷ b) = inserted y (inserts b)

deletes : (a : List ℕ) → Script a [] (length a)
deletes [] = done
deletes (x ∷ a) = deleted x (deletes a)

Script-min : {a b : List ℕ} {m n : ℕ} → Script a b m → Script a b n → Script a b (min m n)
Script-min {a} {b} {m} {n} s t = elim (dec_le m n) [
  | yes h ↦ let e : min m n ≡ m = omega arith in rw e s
  | no h ↦ let e : min m n ≡ n = omega arith in rw e t
]

Script-aligned :
    (x y : ℕ) {a b : List ℕ} {n : ℕ} → Script a b n → Script (x ∷ a) (y ∷ b) (n + cost x y)
Script-aligned x y {n} s = elim (ℕ_discrete x y) [
  | yes p ↦ let e : n + cost x y ≡ n = ground arith in rw e (kept p s)
  | no p ↦ let e : n + cost x y ≡ suc n = ground arith in rw e (replaced s)
]

lev-Script : (a b : List ℕ) → Script a b (lev a b)
unfolding lev
lev-Script [] b = inserts b
lev-Script (x ∷ a) [] = deletes (x ∷ a)
lev-Script (x ∷ a) (y ∷ b) =
    let one : (n : ℕ) → n + 1 ≡ suc n = λ n. omega arith in
    Script-min
      (Script-min (rw one (deleted x (lev-Script a (y ∷ b))))
        (rw one (inserted y (lev-Script (x ∷ a) b))))
      (Script-aligned x y (lev-Script a b))

pub lev-IsDistance : (a b : List ℕ) → IsDistance a b (lev a b)
lev-IsDistance a b = record { attained = lev-Script a b; least = λ n s. lev-le s }

-- The scripts read from the back.
abbrev pub rev : List ℕ → List ℕ → List ℕ
rev [] p = p
rev (x ∷ a) p = rev a (x ∷ p)

Script-rev :
    {a b p q : List ℕ} {n m : ℕ} → Script a b n → Script p q m → Script (rev a p) (rev b q) (n + m)
Script-rev {m} done t = let e : 0 + m ≡ m = omega arith in rw e t
Script-rev {m} (deleted x {n} s) t =
    let e : suc n + m ≡ n + suc m = omega arith in rw e (Script-rev s (deleted x t))
Script-rev {m} (inserted y {n} s) t =
    let e : suc n + m ≡ n + suc m = omega arith in rw e (Script-rev s (inserted y t))
Script-rev (kept e s) t = Script-rev s (kept e t)
Script-rev {m} (replaced {n} s) t =
    let e : suc n + m ≡ n + suc m = omega arith in rw e (Script-rev s (replaced t))

rev-rev : (a p q : List ℕ) → rev (rev a p) q ≡ rev p (a ++ q)
rev-rev [] p q = refl
rev-rev (x ∷ a) p q = rev-rev a (x ∷ p) q

length-rev : (a p : List ℕ) → length (rev a p) ≡ length a + length p
length-rev [] p = omega arith
length-rev (x ∷ a) p = omega (arith, length-rev a (x ∷ p))

Script-back : {a b : List ℕ} {n : ℕ} → Script a b n → Script (rev a []) (rev b []) n
Script-back {n} s = let e : n ≡ n + 0 = omega arith in rw e (Script-rev s done)

Script-front : (a b : List ℕ) {n : ℕ} → Script (rev a []) (rev b []) n → Script a b n
Script-front a b {n} s =
    subst (λ t. Script t b n) (rev-rev a [] [] ∙ append-nil a)
      (subst (λ t. Script (rev (rev a []) []) t n) (rev-rev b [] [] ∙ append-nil b) (Script-back s))

-- From the back as from the front.
pub lev-rev : (a b : List ℕ) → lev (rev a []) (rev b []) ≡ lev a b
lev-rev a b = omega (
  arith,
  lev-le (Script-back (lev-Script a b)),
  lev-le (Script-front a b (lev-Script (rev a []) (rev b []))),
)
