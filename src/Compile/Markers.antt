-- ===== src/Compile/Markers.antt =====
-- The parameter markers that a database reads in a statement, and how they add up when texts are
-- joined.
use ruprizzle_orm.Base.{
  ℕ, suc, ◌+◌, ◌-◌, ◌*◌, ◌≡◌, refl, ap, ◌∙◌, sym, Bool, true, false, ◌&&◌, not, List, [], ◌∷◌, ◌++◌,
  length, append-nil, arith, Text, ◌==◌, is_empty, is_digit, IsDigit, All, number, to_string,
  All-IsDigit-to_string, number-to_string, is_empty-to_string, length-range_from, range_from,
  range_from-append, if◌then◌else◌, all, Bool-cases, inl, inr,
}
use ruprizzle_orm.Dialect.{Dialect, postgres, sqlite, mysql, placeholder}

-- Where the reader stands: outside a marker, behind a dollar sign, or in a marker's number.
pub data Mode : Type 0 where
  plain dollar : Mode
  num : ℕ → Mode

-- The numbers of the `$n` markers, from left to right.
unfoldable pub lex : Mode → Text → List ℕ
lex plain [] = []
lex dollar [] = []
lex (num k) [] = k ∷ []
lex plain (c ∷ t) = lex (if c == b'$' then dollar else plain) t
lex dollar (c ∷ t) =
    lex (if is_digit c then num (c - 48) else if c == b'$' then dollar else plain) t
lex (num k) (c ∷ t) =
    let inside = lex (num (k * 10 + (c - 48))) t in
    let behind = k ∷ lex (if c == b'$' then dollar else plain) t in
    if is_digit c then inside else behind

-- The number of `?` marks.
unfoldable pub marks : Text → ℕ
marks [] = 0
marks (c ∷ t) = if c == b'?' then suc (marks t) else marks t

-- The parameters that the markers of a statement refer to, from left to right: `$n` names its
-- parameter, and each `?` takes the next one.
unfoldable pub markers : Dialect → Text → List ℕ
unfolding lex marks
markers postgres sql = lex plain sql
markers sqlite sql = range_from 0 (marks sql)
markers mysql sql = range_from 0 (marks sql)

-- The text does not begin with a digit, so that it cannot go on with a marker's number.
abbrev pub stops : Text → Bool
stops [] = true
stops (c ∷ t) = not (is_digit c)

abbrev pub no_dollar : Text → Bool
no_dollar = all (λ c. not (c == b'$'))

abbrev pub no_mark : Text → Bool
no_mark = all (λ c. not (c == b'?'))

pub lex-dollar_stops : (t : Text) → stops t ≡ true → lex dollar t ≡ lex plain t
unfolding lex
lex-dollar_stops [] h = refl
lex-dollar_stops (c ∷ t) h = ground arith

lex-num_stops : (k : ℕ) (t : Text) → stops t ≡ true → lex (num k) t ≡ k ∷ lex plain t
unfolding lex
lex-num_stops k [] h = refl
lex-num_stops k (c ∷ t) h = ground arith

lex-num_digits :
    (k : ℕ) (s t : Text) → All IsDigit s → lex (num k) (s ++ t) ≡ lex (num (number k s)) t
unfolding lex
lex-num_digits k [] t h = refl
lex-num_digits k (c ∷ s) t h = rw (h.0) (lex-num_digits (k * 10 + (c - 48)) s t h.1)

-- Reading stops at a text that begins with no digit.
pub lex-append : (m : Mode) (s t : Text) → stops t ≡ true → lex m (s ++ t) ≡ lex m s ++ lex plain t
unfolding lex
lex-append plain [] t h = refl
lex-append dollar [] t h = lex-dollar_stops t h
lex-append (num k) [] t h = lex-num_stops k t h
lex-append plain (c ∷ s) t h = lex-append (if c == b'$' then dollar else plain) s t h
lex-append dollar (c ∷ s) t h =
    lex-append (if is_digit c then num (c - 48) else if c == b'$' then dollar else plain) s t h
lex-append (num k) (c ∷ s) t h = elim (Bool-cases (is_digit c)) [
  | inl e ↦ rw e (lex-append (num (k * 10 + (c - 48))) s t h)
  | inr e ↦ rw e (ap (λ l. k ∷ l) (lex-append (if c == b'$' then dollar else plain) s t h))
]

pub lex-no_dollar : (s : Text) → no_dollar s ≡ true → lex plain s ≡ []
unfolding lex
lex-no_dollar [] h = refl
lex-no_dollar (c ∷ s) h = ground (arith, lex-no_dollar s)

lex-dollar_digit :
    (c : ℕ) (t : Text) → is_digit c ≡ true → lex dollar (c ∷ t) ≡ lex (num (c - 48)) t
unfolding lex
lex-dollar_digit c t h =
    ap (λ b. lex (if b then num (c - 48) else if c == b'$' then dollar else plain) t) h

pub lex-dollar_number :
    (n : ℕ) (s : Text) → is_empty s ≡ false → All IsDigit s → number 0 s ≡ n → lex dollar s ≡ n ∷ []
unfolding lex
lex-dollar_number n [] e h v = cc
lex-dollar_number n (c ∷ s) e h v =
    lex-dollar_digit c s (h.0)
    ∙ ap (λ k. lex (num k) s) (omega arith)
    ∙ ap (lex (num (0 * 10 + (c - 48)))) (sym (append-nil s))
    ∙ lex-num_digits (0 * 10 + (c - 48)) s [] h.1
    ∙ ap (λ k. k ∷ []) v

-- A `$n` that a number is printed in reads back as that number.
pub lex-marker : (n : ℕ) → lex plain (b'$' ∷ to_string n) ≡ n ∷ []
unfolding lex
lex-marker n =
    lex-dollar_number n (to_string n) (is_empty-to_string n) (All-IsDigit-to_string n)
      (number-to_string n)

pub marks-append : (s t : Text) → marks (s ++ t) ≡ marks s + marks t
unfolding marks
marks-append [] t = omega arith
marks-append (c ∷ s) t = ground (arith, marks-append s t)

pub marks-no_mark : (s : Text) → no_mark s ≡ true → marks s ≡ 0
unfolding marks
marks-no_mark [] h = refl
marks-no_mark (c ∷ s) h = ground (arith, marks-no_mark s)

-- A text that adds no marker to the statement of a dialect, wherever it is appended.
abbrev pub is_chunk : Dialect → Text → Bool
is_chunk postgres s = no_dollar s && stops s
is_chunk sqlite s = no_mark s
is_chunk mysql s = no_mark s

-- The markers of a statement are `1, …, n` in order.
pub record IsNumbered (d : Dialect) (sql : Text) (n : ℕ) : Type 0 where
  pub at : markers d sql ≡ range_from 0 n

pub marks-eq : (sql : Text) (n : ℕ) → range_from 0 (marks sql) ≡ range_from 0 n → marks sql ≡ n
marks-eq sql n h = sym (length-range_from 0 (marks sql)) ∙ ap length h ∙ length-range_from 0 n

pub lex-concat_range :
    (sql s : Text) (n : ℕ) (l : List ℕ)
    → stops s ≡ true
    → lex plain sql ≡ range_from 0 n
    → lex plain s ≡ l
    → lex plain (sql ++ s) ≡ range_from 0 n ++ l
lex-concat_range sql s n l e h k = lex-append plain sql s e ∙ cc (h, k)

pub marks-concat :
    (sql s : Text) (n k : ℕ)
    → range_from 0 (marks sql) ≡ range_from 0 n
    → marks s ≡ k
    → range_from 0 (marks (sql ++ s)) ≡ range_from 0 (n + k)
marks-concat sql s n k h e = ap (range_from 0) (omega (arith, marks-append sql s, marks-eq sql n h))

pub IsNumbered-nil : (d : Dialect) → IsNumbered d [] 0
unfolding markers
IsNumbered-nil postgres = record { at = refl }
IsNumbered-nil sqlite = record { at = refl }
IsNumbered-nil mysql = record { at = refl }

pub IsNumbered-chunk :
    (d : Dialect) (sql s : Text) (n : ℕ)
    → is_chunk d s ≡ true
    → IsNumbered d sql n
    → IsNumbered d (sql ++ s) n
unfolding markers
IsNumbered-chunk postgres sql s n e h = record {
  at =
      lex-concat_range sql s n [] (ground arith) h.at (lex-no_dollar s (ground arith))
      ∙ append-nil _;
}
IsNumbered-chunk sqlite sql s n e h = record {
  at = marks-concat sql s n 0 h.at (marks-no_mark s e) ∙ ap (range_from 0) (omega arith);
}
IsNumbered-chunk mysql sql s n e h = record {
  at = marks-concat sql s n 0 h.at (marks-no_mark s e) ∙ ap (range_from 0) (omega arith);
}

pub IsNumbered-placeholder :
    (d : Dialect) (sql : Text) (n : ℕ)
    → IsNumbered d sql n
    → IsNumbered d (sql ++ placeholder d n) (n + 1)
unfolding markers placeholder
IsNumbered-placeholder postgres sql n h = record {
  at =
      lex-concat_range sql _ n ((n + 1) ∷ []) refl h.at (lex-marker (n + 1))
      ∙ ap (λ k. range_from 0 n ++ (k ∷ [])) (omega arith)
      ∙ range_from-append 0 n 1;
}
IsNumbered-placeholder sqlite sql n h = record { at = marks-concat sql (b'?' ∷ []) n 1 h.at refl }
IsNumbered-placeholder mysql sql n h = record { at = marks-concat sql (b'?' ∷ []) n 1 h.at refl }
