-- ===== src/Base/Maps.antt =====
-- Rust's `HashMap<String, V>` as an association list and `HashSet<String>` as a list.
use Prim.Native.Nat.{ℕ, ◌≤◌, ◌<◌}
use mathlib.Core.Path.{◌≡◌, refl, sym}
use mathlib.Core.Logic.{◌≢◌, ite}
use mathlib.Core.Bool.{Bool, true, false}
use mathlib.Core.Option.{Option, none, some}
use mathlib.Core.List.{List, [], ◌∷◌}
use native.Mathlib.Decide.{ℕ_discrete}
use native.Mathlib.Omega.{arith}
use ruprizzle_orm.Base.Bytes.{Text}
use ruprizzle_orm.Base.Lists.{length}

pub cons-ne-nil : {x : ℕ} {s : Text} → x ∷ s ≢ []
cons-ne-nil e = cc

pub head-ne : {x y : ℕ} {s t : Text} → x ≢ y → x ∷ s ≢ y ∷ t
head-ne p e = p (ground arith)

pub tail-ne : {x y : ℕ} {s t : Text} → s ≢ t → x ∷ s ≢ y ∷ t
tail-ne p e = p (ground arith)

both : {x y : ℕ} {s t : Text} → Dec (x ≡ y) → Dec (s ≡ t) → Dec (x ∷ s ≡ y ∷ t)
both (yes p) (yes q) = yes (λ i. p i ∷ q i)
both (no p) d = no (head-ne p)
both (yes p) (no q) = no (tail-ne q)

-- Equality of texts.
unfoldable pub dec_text : Discrete Text
unfolding both ℕ_discrete
dec_text [] [] = yes refl
dec_text [] (y ∷ t) = no (λ e. cons-ne-nil (sym e))
dec_text (x ∷ s) [] = no cons-ne-nil
dec_text (x ∷ s) (y ∷ t) = both (ℕ_discrete x y) (dec_text s t)

-- `HashSet::contains`, `remove` and `insert`.
unfoldable pub contains : Text → List Text → Bool
contains k [] = false
contains k (q ∷ s) = ite (dec_text q k) true (contains k s)

unfoldable pub set_remove : Text → List Text → List Text
set_remove k [] = []
set_remove k (q ∷ s) = let rest = set_remove k s in ite (dec_text q k) rest (q ∷ rest)

unfoldable pub set_insert : Text → List Text → List Text
set_insert k s = elim (contains k s) [ true ↦ s | false ↦ k ∷ s ]

pub contains-set_remove :
    (k q : Text) (s : List Text)
    → contains q (set_remove k s) ≡ ite (dec_text k q) false (contains q s)
unfolding contains set_remove
contains-set_remove k q [] = ground arith
contains-set_remove k q (p ∷ s) = ground (arith, contains-set_remove k q s)

pub contains-set_insert :
    (k q : Text) (s : List Text)
    → contains q (set_insert k s) ≡ ite (dec_text k q) true (contains q s)
unfolding contains set_insert
contains-set_insert k q s = ground arith

module _ {ℓ} {V : Type ℓ} where
  -- `HashMap::get`, `remove` and `insert`.
  unfoldable pub lookup : Text → List (Text × V) → Option V
  lookup k [] = none
  lookup k ((q, v) ∷ m) = ite (dec_text q k) (some v) (lookup k m)

  unfoldable pub contains_key : Text → List (Text × V) → Bool
  contains_key k m = elim (lookup k m) [ none ↦ false | some _ ↦ true ]

  unfoldable pub remove : Text → List (Text × V) → List (Text × V)
  remove k [] = []
  remove k ((q, v) ∷ m) = let rest = remove k m in ite (dec_text q k) rest ((q, v) ∷ rest)

  unfoldable pub insert : Text → V → List (Text × V) → List (Text × V)
  insert k v m = (k, v) ∷ remove k m

  pub lookup-remove :
      (k q : Text) (m : List (Text × V))
      → lookup q (remove k m) ≡ ite (dec_text k q) none (lookup q m)
  unfolding lookup remove
  lookup-remove k q [] = ground arith
  lookup-remove k q ((p, v) ∷ m) = ground (arith, lookup-remove k q m)

  pub lookup-insert :
      (k q : Text) (v : V) (m : List (Text × V))
      → lookup q (insert k v m) ≡ ite (dec_text k q) (some v) (lookup q m)
  unfolding lookup insert
  lookup-insert k q v m = ground (arith, lookup-remove k q m)

  pub length-remove-le : (k : Text) (m : List (Text × V)) → length (remove k m) ≤ length m
  unfolding remove
  length-remove-le k [] = omega arith
  length-remove-le k ((q, v) ∷ m) = ground (arith, length-remove-le k m)

  pub length-remove-lt :
      (k : Text) (m : List (Text × V)) → lookup k m ≢ none → length (remove k m) < length m
  unfolding remove lookup
  length-remove-lt k [] h = absurd (h refl)
  length-remove-lt k ((q, v) ∷ m) h = ground (arith, length-remove-lt k m, length-remove-le k m)

pub ruleset map_laws = (lookup-remove, lookup-insert, contains-set_remove, contains-set_insert)
