-- ===== src/Base/Lists.antt =====
-- Lists measured by native numbers, and the predicates on lists that the components share.
use Prim.Native.Nat.{ℕ, zero, suc, ◌+◌}
use mathlib.Core.Path.{◌≡◌, refl, ap}
use mathlib.Core.Bool.{Bool, true, false, ◌&&◌, ◌||◌}
use mathlib.Core.Option.{Option, none, some}
use mathlib.Core.List.{List, [], ◌∷◌, ◌++◌}
use native.Mathlib.Omega.{arith}

module _ {ℓ} {A : Type ℓ} where
  abbrev pub length : List A → ℕ
  length [] = 0
  length (x ∷ xs) = suc (length xs)

  pub length-append : (xs ys : List A) → length (xs ++ ys) ≡ length xs + length ys
  length-append [] ys = omega arith
  length-append (x ∷ xs) ys = omega (arith, length-append xs ys)

  abbrev pub is_empty : List A → Bool
  is_empty [] = true
  is_empty (x ∷ xs) = false

  abbrev pub get_elem? : List A → ℕ → Option A
  get_elem? [] i = none
  get_elem? (x ∷ xs) zero = some x
  get_elem? (x ∷ xs) (suc i) = get_elem? xs i

  -- `Iterator::any` and `Iterator::all`.
  abbrev pub any : (A → Bool) → List A → Bool
  any p [] = false
  any p (x ∷ xs) = p x || any p xs

  abbrev pub all : (A → Bool) → List A → Bool
  all p [] = true
  all p (x ∷ xs) = p x && all p xs

  pub all-append : (p : A → Bool) (xs ys : List A) → all p (xs ++ ys) ≡ (all p xs && all p ys)
  all-append p [] ys = refl
  all-append p (x ∷ xs) ys = ground (arith, all-append p xs ys)

-- A loop over a list that pushes some items for each of its items.
abbrev pub flat_map {ℓ κ} : {A : Type ℓ} {B : Type κ} → (A → List B) → List A → List B
flat_map f [] = []
flat_map f (x ∷ xs) = f x ++ flat_map f xs

-- Code that panics on `none`.
infixl 5 ◌>>=◌
abbrev pub ◌>>=◌ {ℓ κ} : {A : Type ℓ} {B : Type κ} → Option A → (A → Option B) → Option B
none >>= f = none
some a >>= f = f a

pub any-append {ℓ} :
    {A : Type ℓ} (p : A → Bool) (xs ys : List A) → any p (xs ++ ys) ≡ (any p xs || any p ys)
any-append p [] ys = refl
any-append p (x ∷ xs) ys = ground (arith, any-append p xs ys)

pub any-flat_map {ℓ κ} :
    {A : Type ℓ} {B : Type κ} (p : B → Bool) (f : A → List B) (xs : List A)
    → any p (flat_map f xs) ≡ any (λ x. any p (f x)) xs
any-flat_map p f [] = refl
any-flat_map p f (x ∷ xs) = ground (arith, any-append p (f x) (flat_map f xs), any-flat_map p f xs)

-- A predicate that every item satisfies.
abbrev pub All {ℓ κ} : {A : Type ℓ} → (A → Type κ) → List A → Type κ
All P [] = Unit
All P (x ∷ xs) = P x × All P xs

-- `1, 2, …, n`, each increased by `k`.
abbrev pub range_from : ℕ → ℕ → List ℕ
range_from k zero = []
range_from k (suc n) = (k + 1) ∷ range_from (k + 1) n

pub range_from-append : (k m n : ℕ) → range_from k m ++ range_from (k + m) n ≡ range_from k (m + n)
range_from-append k zero n =
    let e : k + 0 ≡ k = omega arith in let e' : 0 + n ≡ n = omega arith in rw (e, e')
range_from-append k (suc m) n =
    let e : k + suc m ≡ (k + 1) + m = omega arith in
    let e' : suc m + n ≡ suc (m + n) = omega arith in
    rw (e, e') (ap (λ l. (k + 1) ∷ l) (range_from-append (k + 1) m n))

pub length-range_from : (k n : ℕ) → length (range_from k n) ≡ n
length-range_from k zero = refl
length-range_from k (suc n) = ap suc (length-range_from (k + 1) n)
