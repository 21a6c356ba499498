-- ===== src/Base/Bytes.antt =====
-- Text as the list of its UTF-8 bytes, which is how Rust's `String` holds it.
use Prim.Native.Char.{code}
use Prim.Native.String.{String}
use Prim.Native.Nat.{ℕ, zero, suc, ◌+◌, ◌-◌, ◌*◌, ◌/◌, ◌%◌, ◌<◌}
use mathlib.Core.Path.{◌≡◌, refl}
use mathlib.Core.Bool.{Bool, true, false, ◌&&◌}
use mathlib.Core.Logic.{inl, inr}
use mathlib.Core.List.{List, [], ◌∷◌, ◌++◌}
use native.Mathlib.Omega.{arith}
use ruprizzle_orm.Base.Tests.{ltb, leb, ◌==◌, if◌then◌else◌, Bool-cases}
use ruprizzle_orm.Base.Lists.{All, is_empty}

abbrev pub Text : Type 0
Text = List ℕ

-- The bytes of an ASCII literal.
abbrev pub str : String → Text
str String.[] = []
str (String.◌∷◌ c s) = code c ∷ str s

-- `[Text]::join`.
unfoldable pub join : Text → List Text → Text
join sep [] = []
join sep (s ∷ []) = s
join sep (s ∷ s' ∷ rest) = s ++ (sep ++ join sep (s' ∷ rest))

-- `str::replace(q, "qq")` for a one-byte `q`.
unfoldable pub double : ℕ → Text → Text
double q [] = []
double q (c ∷ s) = if c == q then q ∷ q ∷ double q s else c ∷ double q s

abbrev pub is_digit : ℕ → Bool
is_digit c = leb 48 c && leb c 57

-- The value of a run of digits that continues the value `n`.
abbrev pub number : ℕ → Text → ℕ
number n [] = n
number n (c ∷ s) = number (n * 10 + (c - 48)) s

-- `usize::to_string`; `f` rounds of division by ten are enough for a number below `f`.
abbrev to_string_fuel : ℕ → ℕ → Text
to_string_fuel zero n = []
to_string_fuel (suc f) n =
    let rest = to_string_fuel f (n / 10) ++ ((48 + n % 10) ∷ []) in
    if ltb n 10 then (48 + n) ∷ [] else rest

unfoldable pub to_string : ℕ → Text
to_string n = to_string_fuel (suc n) n

abbrev pub IsDigit : ℕ → Type 0
IsDigit c = is_digit c ≡ true

number-append : (k c : ℕ) (s : Text) → number k (s ++ (c ∷ [])) ≡ number k s * 10 + (c - 48)
number-append k c [] = refl
number-append k c (d ∷ s) = number-append (k * 10 + (d - 48)) c s

All-IsDigit-append : (s : Text) (c : ℕ) → All IsDigit s → IsDigit c → All IsDigit (s ++ (c ∷ []))
All-IsDigit-append [] c h d = (d, tt)
All-IsDigit-append (x ∷ s) c h d = (h.0, All-IsDigit-append s c h.1 d)

digits_fuel : (f n : ℕ) → n < f → All IsDigit (to_string_fuel f n)
digits_fuel zero n h = absurd (omega arith)
digits_fuel (suc f) n h = elim (Bool-cases (ltb n 10)) [
  | inl e ↦ rw e (ground arith, tt)
  | inr e ↦ rw e (
      All-IsDigit-append (to_string_fuel f (n / 10)) (48 + n % 10)
        (digits_fuel f (n / 10) (ground arith)) (ground arith))
]

number_fuel : (f n : ℕ) → n < f → number 0 (to_string_fuel f n) ≡ n
number_fuel zero n h = absurd (omega arith)
number_fuel (suc f) n h = elim (Bool-cases (ltb n 10)) [
  | inl e ↦ rw e (omega arith)
  | inr e ↦ rw e (
      rw (number-append 0 (48 + n % 10) (to_string_fuel f (n / 10)))
        (omega (arith, number_fuel f (n / 10) (ground arith))))
]

is_empty-concat : (s : Text) (c : ℕ) → is_empty (s ++ (c ∷ [])) ≡ false
is_empty-concat [] c = refl
is_empty-concat (x ∷ s) c = refl

-- A printed number is made of digits, at least one, and reads back as the number.
pub All-IsDigit-to_string : (n : ℕ) → All IsDigit (to_string n)
unfolding to_string
All-IsDigit-to_string n = digits_fuel (suc n) n (omega arith)

pub number-to_string : (n : ℕ) → number 0 (to_string n) ≡ n
unfolding to_string
number-to_string n = number_fuel (suc n) n (omega arith)

pub is_empty-to_string : (n : ℕ) → is_empty (to_string n) ≡ false
unfolding to_string
is_empty-to_string n = elim (Bool-cases (ltb n 10)) [
  | inl e ↦ rw e
  | inr e ↦ rw e (is_empty-concat (to_string_fuel n (n / 10)) (48 + n % 10))
]
