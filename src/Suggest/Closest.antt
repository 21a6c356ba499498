-- ===== src/Suggest/Closest.antt =====
-- Which candidate `closest` takes (crates/core/src/suggest.rs).
use mathlib.Core.List.{Mem, mem-cons_self, mem-cons_of_mem}
use ruprizzle_orm.Base.{
  ℕ, ◌≡◌, refl, ◌⊎◌, ◌≤◌, ◌<◌, List, [], ◌∷◌, Option, none, some, true, false, inl, inr, Bool-cases,
  arith, All, leb, if◌then◌else◌,
}
use ruprizzle_orm.Distance.Least.{lev}
use ruprizzle_orm.Suggest.{Chars, len_bytes, lower, threshold, near, key_lt, min_by_key, closest}
use ruprizzle_orm.Suggest.Rows.{distance-lev}

All-map {ℓ κ λ'} :
    {A : Type ℓ} {P : A → Type κ} {Q : A → Type λ'} (xs : List A)
    → ((x : A) → P x → Q x)
    → All P xs
    → All Q xs
All-map [] f h = tt
All-map (x ∷ xs) f h = (f x h.0, All-map xs f h.1)

module _ (to_lowercase : ℕ → Chars) where
  key_lt_asym : (p q : ℕ × Chars) → key_lt to_lowercase p q ≡ true → key_lt to_lowercase q p ≡ false
  unfolding key_lt
  key_lt_asym (d, c) (e, s) h = ground arith

  key_lt_trans :
      (p q r : ℕ × Chars)
      → key_lt to_lowercase q r ≡ false
      → key_lt to_lowercase p q ≡ false
      → key_lt to_lowercase p r ≡ false
  unfolding key_lt
  key_lt_trans (d, c) (e, s) (f, t) h k = ground arith

  key_lt_self : (p : ℕ × Chars) → key_lt to_lowercase p p ≡ false
  unfolding key_lt
  key_lt_self (d, c) = ground arith

  key_le :
      (d e : ℕ) (c s : Chars)
      → key_lt to_lowercase (e, s) (d, c) ≡ false
      → (d < e) ⊎ ((d ≡ e) × (len_bytes c ≤ len_bytes s))
  unfolding key_lt
  key_le d e c s h = ground arith

  min_by_key-All :
      (P : ℕ × Chars → Type 0) (best : ℕ × Chars) (rest : List (ℕ × Chars))
      → P best
      → All P rest
      → P (min_by_key to_lowercase best rest)
  unfolding min_by_key
  min_by_key-All P best [] b h = b
  min_by_key-All P best (p ∷ rest) b h = elim (Bool-cases (key_lt to_lowercase p best)) [
    | inl e ↦ rw e (min_by_key-All P p rest h.0 h.1)
    | inr e ↦ rw e (min_by_key-All P best rest b h.1)
  ]

  abbrev NotBelow : ℕ × Chars → ℕ × Chars → Type 0
  NotBelow r p = key_lt to_lowercase p r ≡ false

  min_by_key_least :
      (best : ℕ × Chars) (rest : List (ℕ × Chars)) (r : ℕ × Chars)
      → min_by_key to_lowercase best rest ≡ r
      → All (NotBelow r) (best ∷ rest)
  unfolding min_by_key
  min_by_key_least best [] r h = rw (← h) (key_lt_self best, tt)
  min_by_key_least best (p ∷ rest) r h = elim (Bool-cases (key_lt to_lowercase p best)) [
    | inl e ↦
        let ih = min_by_key_least p rest r (rw e at h) in
        (key_lt_trans best p r ih.0 (key_lt_asym p best e), ih)
    | inr e ↦
        let ih = min_by_key_least best rest r (rw e at h) in
        (ih.0, (key_lt_trans p best r ih.0 e, ih.1))
  ]

  module _ (input : Chars) where
    abbrev pub dist : Chars → ℕ
    dist c = lev (lower to_lowercase input) (lower to_lowercase c)

    near_list : List Chars → List (ℕ × Chars)
    near_list [] = []
    near_list (c ∷ candidates) =
        let rest = near_list candidates in
        if leb (dist c) (threshold to_lowercase input) then (dist c, c) ∷ rest else rest

    near-near_list :
        (candidates : List Chars) → near to_lowercase input candidates ≡ some (near_list candidates)
    unfolding near near_list
    near-near_list [] = refl
    near-near_list (c ∷ candidates) =
        rw (distance-lev to_lowercase input c, near-near_list candidates)

    -- `c` is within the threshold, and no candidate is nearer, or as near and shorter.
    abbrev pub IsBest : List Chars → Option Chars → Type 0
    IsBest candidates none = All (λ c. threshold to_lowercase input < dist c) candidates
    IsBest candidates (some c) =
        Mem c candidates
        × (dist c ≤ threshold to_lowercase input)
        × All (λ s. (dist c < dist s) ⊎ ((dist c ≡ dist s) × (len_bytes c ≤ len_bytes s)))
            candidates

    IsNear : List Chars → ℕ × Chars → Type 0
    IsNear candidates p =
        (p.0 ≡ dist p.1) × Mem p.1 candidates × (dist p.1 ≤ threshold to_lowercase input)

    near_list-IsNear : (candidates : List Chars) → All (IsNear candidates) (near_list candidates)
    unfolding near_list IsNear
    near_list-IsNear [] = tt
    near_list-IsNear (c ∷ candidates) =
        let rest =
          All-map {P = IsNear candidates} {Q = IsNear (c ∷ candidates)} (near_list candidates)
            (λ p h. (h.0, mem-cons_of_mem c h.1, h.2)) (near_list-IsNear candidates) in
        elim (Bool-cases (leb (dist c) (threshold to_lowercase input))) [
          | inl e ↦ rw e ((refl, mem-cons_self, ground arith), rest)
          | inr e ↦ rw e rest
        ]

    near_list-All :
        (Q : ℕ × Chars → Type 0) (candidates : List Chars)
        → All Q (near_list candidates)
        → All (λ c. (threshold to_lowercase input < dist c) ⊎ Q (dist c, c)) candidates
    unfolding near_list
    near_list-All Q [] h = tt
    near_list-All Q (c ∷ candidates) h =
        elim (Bool-cases (leb (dist c) (threshold to_lowercase input))) [
          | inl e ↦
              let both : Q (dist c, c) × All Q (near_list candidates) = rw e at h in
              (inr both.0, near_list-All Q candidates both.1)
          | inr e ↦
              let others : All Q (near_list candidates) = rw e at h in
              (inl (ground arith), near_list-All Q candidates others)
        ]

    not_nearer :
        (r : ℕ × Chars) (s : Chars)
        → r.0 ≡ dist r.1
        → dist r.1 ≤ threshold to_lowercase input
        → (threshold to_lowercase input < dist s) ⊎ NotBelow r (dist s, s)
        → (dist r.1 < dist s) ⊎ ((dist r.1 ≡ dist s) × (len_bytes r.1 ≤ len_bytes s))
    not_nearer r s same close (inl far) = inl (omega arith)
    not_nearer r s same close (inr least) = rw (← same) (key_le r.0 (dist s) r.1 s least)

    near_list-IsBest :
        (candidates : List Chars) (p : ℕ × Chars) (rest : List (ℕ × Chars))
        → near_list candidates ≡ p ∷ rest
        → IsBest candidates (some (min_by_key to_lowercase p rest).1)
    unfolding IsNear
    near_list-IsBest candidates p rest e =
        let r = min_by_key to_lowercase p rest in
        let near_all : All (IsNear candidates) (p ∷ rest) = rw e at (near_list-IsNear candidates) in
        let (same, among, close) =
          min_by_key-All (IsNear candidates) p rest near_all.0 near_all.1 in
        let others : All (NotBelow r) (near_list candidates) =
          rw e (min_by_key_least p rest r refl) in
        (
          among,
          close,
          All-map candidates
              (λ (s : Chars) (h : (threshold to_lowercase input < dist s) ⊎ NotBelow r (dist s, s)).
                not_nearer r s same close h)
              (near_list-All (NotBelow r) candidates others),
        )

    -- What is not near, there is none nearer than it; a list of no near candidates has none.
    closest_in_list :
        (candidates : List Chars) (l : List (ℕ × Chars))
        → near_list candidates ≡ l
        → IsBest candidates
            (elim l [ [] ↦ none | p ∷ rest ↦ some (min_by_key to_lowercase p rest).1 ])
    closest_in_list candidates [] e =
        let nothing : All (λ p. ⊥) (near_list candidates) = rw e tt in
        All-map candidates
          (λ (c : Chars) (h : (threshold to_lowercase input < dist c) ⊎ ⊥). elim h [
            | inl far ↦ far
            | inr no_way ↦ absurd no_way
          ])
          (near_list-All (λ p. ⊥) candidates nothing)
    closest_in_list candidates (p ∷ rest) e = near_list-IsBest candidates p rest e

    -- `closest` reads no cell out of range. Where it returns nothing, every candidate is farther
    -- from the input than the threshold for the input's length; where it returns a name, that is
    -- one of the candidates, within the threshold, and no candidate is nearer, or as near and of
    -- fewer bytes.
    pub closest-IsBest :
        (candidates : List Chars)
        → (found : Option Chars) × (closest to_lowercase input candidates ≡ some found)
          × IsBest candidates found
    unfolding closest
    closest-IsBest candidates = (
      _,
      rw (near-near_list candidates) refl,
      closest_in_list candidates (near_list candidates) refl,
    )
