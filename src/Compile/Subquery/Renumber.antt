-- ===== src/Compile/Subquery/Renumber.antt =====
-- What the copying loop of `renumbered` and `push_subquery` (crates/runtime/src/compile.rs) does to
-- the markers of the statement that it copies.
use ruprizzle_orm.Base.{
  ℕ, zero, suc, ◌+◌, ◌≤◌, ◌/◌, ◌%◌, ◌≡◌, refl, sym, ap, ◌∙◌, true, false, [], ◌∷◌, ◌++◌, map, Text,
  length, is_empty, is_digit, IsDigit, All, number, to_string, All-IsDigit-to_string, ltb, ◌==◌,
  arith, Bool-cases, inl, inr, ==_iff, subst,
}
use ruprizzle_orm.Compile.Markers.{
  lex, plain, stops, lex-append, lex-marker, lex-dollar_number, lex-dollar_stops, marks,
  marks-append,
}
use ruprizzle_orm.Compile.Subquery.{push_as_char, digits_front, behind_digits, splice}

digits_front-append : (t : Text) → digits_front t ++ behind_digits t ≡ t
unfolding digits_front behind_digits
digits_front-append [] = refl
digits_front-append (c ∷ t) = elim (Bool-cases (is_digit c)) [
  | inl e ↦ rw e (ap (λ l. c ∷ l) (digits_front-append t))
  | inr e ↦ rw e
]

All-IsDigit-front : (t : Text) → All IsDigit (digits_front t)
unfolding digits_front
All-IsDigit-front [] = tt
All-IsDigit-front (c ∷ t) = elim (Bool-cases (is_digit c)) [
  | inl e ↦ rw e (e, All-IsDigit-front t)
  | inr e ↦ rw e tt
]

stops-behind_digits : (t : Text) → stops (behind_digits t) ≡ true
unfolding behind_digits
stops-behind_digits [] = refl
stops-behind_digits (c ∷ t) = ground (arith, stops-behind_digits t)

length-behind_digits : (t : Text) → length (behind_digits t) ≤ length t
unfolding behind_digits
length-behind_digits [] = omega arith
length-behind_digits (c ∷ t) = ground (arith, length-behind_digits t)

stops_of_no_digits : (t : Text) → is_empty (digits_front t) ≡ true → stops t ≡ true
unfolding digits_front
stops_of_no_digits [] h = refl
stops_of_no_digits (c ∷ t) h = ground arith

lex-plain_other : (c : ℕ) (t : Text) → (c == b'$') ≡ false → lex plain (c ∷ t) ≡ lex plain t
unfolding lex
lex-plain_other c t e = rw (e, lex)

lex-push_as_char :
    (c : ℕ) (s : Text) → (c == b'$') ≡ false → lex plain (push_as_char c s) ≡ lex plain s
unfolding push_as_char
lex-push_as_char c s e = elim (Bool-cases (ltb c 128)) [
  | inl h ↦ rw h (lex-plain_other c s e)
  | inr h ↦ rw h (
      lex-plain_other (192 + c / 64) _ (ground arith)
      ∙ lex-plain_other (128 + c % 64) s (ground arith))
]

lex-dollar_run :
    (ds t : Text)
    → is_empty ds ≡ false
    → All IsDigit ds
    → stops t ≡ true
    → lex plain (b'$' ∷ (ds ++ t)) ≡ number 0 ds ∷ lex plain t
unfolding lex
lex-dollar_run ds t e hd ht =
    lex-append plain (b'$' ∷ ds) t ht
    ∙ ap (λ l. l ++ lex plain t) (lex-dollar_number (number 0 ds) ds e hd refl)

module _ (g : ℕ → ℕ) where
  abbrev marker : ℕ → Text
  marker n = b'$' ∷ to_string (g n)

  pub stops-splice : (f : ℕ) (t : Text) → stops t ≡ true → stops (splice marker f t) ≡ true
  unfolding splice push_as_char
  stops-splice zero t h = refl
  stops-splice (suc f) [] h = refl
  stops-splice (suc f) (c ∷ t) h = ground arith

  copied_case :
      (c : ℕ) (t x : Text)
      → (c == b'$') ≡ false
      → lex plain x ≡ map g (lex plain t)
      → lex plain (push_as_char c x) ≡ map g (lex plain (c ∷ t))
  copied_case c t x e h = lex-push_as_char c x e ∙ h ∙ ap (map g) (sym (lex-plain_other c t e))

  lone_dollar_case :
      (t x : Text)
      → stops t ≡ true
      → stops x ≡ true
      → lex plain x ≡ map g (lex plain t)
      → lex plain (b'$' ∷ x) ≡ map g (lex plain (b'$' ∷ t))
  unfolding lex
  lone_dollar_case t x ht hx h =
      lex-dollar_stops x hx ∙ h ∙ ap (map g) (sym (lex-dollar_stops t ht))

  marked_case :
      (ds t x : Text)
      → is_empty ds ≡ false
      → All IsDigit ds
      → stops t ≡ true
      → stops x ≡ true
      → lex plain x ≡ map g (lex plain t)
      → lex plain (marker (number 0 ds) ++ x) ≡ map g (lex plain (b'$' ∷ (ds ++ t)))
  marked_case ds t x e hd ht hx h =
      lex-append plain (marker (number 0 ds)) x hx
      ∙ ap (λ l. l ++ lex plain x) (lex-marker (g (number 0 ds)))
      ∙ ap (λ l. g (number 0 ds) ∷ l) h
      ∙ ap (map g) (sym (lex-dollar_run ds t e hd ht))

  dollar_step :
      (f : ℕ) (t : Text)
      → lex plain (splice marker f t) ≡ map g (lex plain t)
      → lex plain (splice marker f (behind_digits t)) ≡ map g (lex plain (behind_digits t))
      → lex plain (splice marker (suc f) (b'$' ∷ t)) ≡ map g (lex plain (b'$' ∷ t))
  unfolding splice push_as_char
  dollar_step f t ih ih' = elim (Bool-cases (is_empty (digits_front t))) [
    | inl e ↦ rw e (
        lone_dollar_case t (splice marker f t) (stops_of_no_digits t e)
          (stops-splice f t (stops_of_no_digits t e)) ih)
    | inr e ↦ rw e (
        subst
          (λ s.
            lex plain (marker (number 0 (digits_front t)) ++ splice marker f (behind_digits t))
            ≡ map g (lex plain (b'$' ∷ s)))
          (digits_front-append t)
          (marked_case (digits_front t) (behind_digits t) (splice marker f (behind_digits t)) e
            (All-IsDigit-front t) (stops-behind_digits t)
            (stops-splice f (behind_digits t) (stops-behind_digits t)) ih'))
  ]

  -- Each marker of the copy has the number that `g` gives the marker of the original, in the same
  -- order, and there are no others.
  pub lex-splice :
      (f : ℕ) (t : Text) → length t ≤ f → lex plain (splice marker f t) ≡ map g (lex plain t)
  unfolding splice
  lex-splice zero [] h = unfold lex in refl
  lex-splice (suc f) [] h = unfold lex in refl
  lex-splice zero (c ∷ t) h = absurd (omega arith)
  lex-splice (suc f) (c ∷ t) h = elim (Bool-cases (c == b'$')) [
    | inr e ↦ rw e (copied_case c t (splice marker f t) e (lex-splice f t (omega arith)))
    | inl e ↦
        let same : c ≡ b'$' = (==_iff c b'$').0 e in
        rw same (
          dollar_step f t (lex-splice f t (omega arith))
            (lex-splice f (behind_digits t) (omega (arith, length-behind_digits t))))
  ]

pub marks-digits : (s : Text) → All IsDigit s → marks s ≡ 0
unfolding marks
marks-digits [] h = refl
marks-digits (c ∷ s) h = ground (arith, h.0, marks-digits s h.1)

marks-push_as_char : (c : ℕ) (s : Text) → marks (push_as_char c s) ≡ marks (c ∷ s)
unfolding marks push_as_char
marks-push_as_char c s = elim (Bool-cases (ltb c 128)) [
  | inl h ↦ rw h
  | inr h ↦ rw h (ground arith)
]

marks-cons : (c : ℕ) (s t : Text) → marks s ≡ marks t → marks (c ∷ s) ≡ marks (c ∷ t)
unfolding marks
marks-cons c s t h = cc

module _ (g : ℕ → ℕ) where
  marks-marked :
      (ds t x : Text)
      → All IsDigit ds
      → marks x ≡ marks t
      → marks (marker g (number 0 ds) ++ x) ≡ marks (b'$' ∷ (ds ++ t))
  unfolding marks
  marks-marked ds t x hd h = omega (
    arith,
    h,
    marks-append (to_string (g (number 0 ds))) x,
    marks-append ds t,
    marks-digits ds hd,
    marks-digits (to_string (g (number 0 ds))) (All-IsDigit-to_string (g (number 0 ds))),
  )

  -- The copy has as many `?` marks.
  pub marks-splice : (f : ℕ) (t : Text) → length t ≤ f → marks (splice (marker g) f t) ≡ marks t
  unfolding splice
  marks-splice zero [] h = refl
  marks-splice (suc f) [] h = refl
  marks-splice zero (c ∷ t) h = absurd (omega arith)
  marks-splice (suc f) (c ∷ t) h =
      let ih = marks-splice f t (omega arith) in
      let ih' = marks-splice f (behind_digits t) (omega (arith, length-behind_digits t)) in
      let copy = marks-push_as_char c (splice (marker g) f t) ∙ marks-cons c _ t ih in
      elim (Bool-cases (c == b'$')) [
        | inr e ↦ rw e copy
        | inl e ↦ elim (Bool-cases (is_empty (digits_front t))) [
          | inl e' ↦ rw (e, e') copy
          | inr e' ↦
              rw (e, e')
                (subst
                  (λ s.
                    marks (
                      marker g (number 0 (digits_front t)) ++ splice (marker g) f (behind_digits t))
                    ≡ marks (c ∷ s))
                  (digits_front-append t)
                  (rw ((==_iff c b'$').0 e)
                    (marks-marked (digits_front t) (behind_digits t) _ (All-IsDigit-front t) ih')))
        ]
      ]
