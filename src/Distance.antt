-- ===== src/Distance.antt =====
-- Edit scripts between two sequences of characters, against which the two edit distances of the
-- repository (crates/core/src/suggest.rs, crates/migrate/src/rename.rs) are stated.
pub mod Least
pub mod Table
use ruprizzle_orm.Base.{ℕ, suc, ◌≡◌, ◌≢◌, ◌≤◌, List, [], ◌∷◌, Option, some}

-- A way to turn `a` into `b`, and the number of characters that it deletes, inserts and replaces.
pub data Script : List ℕ → List ℕ → ℕ → Type 0 where
  done : Script [] [] 0
  deleted : (x : ℕ) {a b : List ℕ} {n : ℕ} → Script a b n → Script (x ∷ a) b (suc n)
  inserted : (y : ℕ) {a b : List ℕ} {n : ℕ} → Script a b n → Script a (y ∷ b) (suc n)
  kept : {x y : ℕ} {a b : List ℕ} {n : ℕ} → x ≡ y → Script a b n → Script (x ∷ a) (y ∷ b) n
  replaced : {x y : ℕ} {a b : List ℕ} {n : ℕ} → Script a b n → Script (x ∷ a) (y ∷ b) (suc n)

-- Some script makes `d` changes, and none makes fewer.
pub record IsDistance (a b : List ℕ) (d : ℕ) : Type 0 where
  pub attained : Script a b d
  pub least : (n : ℕ) → Script a b n → d ≤ n
