-- ===== src/Dialect/Quoting.antt =====
-- A reader of quoted identifiers, as the databases read them, beside `quote_ident` of crates/dialect.
use ruprizzle_orm.Base.{
  ℕ, ◌≡◌, ap, Option, none, some, [], ◌∷◌, ◌++◌, append_assoc, arith, Text, ◌==◌, if◌then◌else◌,
  double, Bool-cases, ==_iff, inl, inr, true, false,
}
use ruprizzle_orm.Dialect.{Dialect, quote_char, quote_ident}

abbrev with_byte : ℕ → Option (Text × Text) → Option (Text × Text)
with_byte c none = none
with_byte c (some (s, rest)) = some (c ∷ s, rest)

-- Behind the opening quote: a doubled quote is one quote, a single one ends the identifier.
pub read_body : ℕ → Text → Option (Text × Text)
read_body q [] = none
read_body q (c ∷ []) = if c == q then some ([], []) else none
read_body q (c ∷ d ∷ s) =
    let escaped = with_byte q (read_body q s) in
    let plain = with_byte c (read_body q (d ∷ s)) in
    if c == q then (if d == q then escaped else some ([], d ∷ s)) else plain

unfoldable pub read_ident : Dialect → Text → Option (Text × Text)
unfolding read_body quote_char
read_ident d [] = none
read_ident d (c ∷ s) = if c == quote_char d then read_body (quote_char d) s else none

-- The text that follows does not begin with the quote.
abbrev pub NotQuoteFirst : ℕ → Text → Type 0
NotQuoteFirst q [] = Unit
NotQuoteFirst q (c ∷ s) = (c == q) ≡ false

==_refl : (q : ℕ) → (q == q) ≡ true
==_refl q = ground arith

read_body-close :
    (q : ℕ) (rest : Text) → NotQuoteFirst q rest → read_body q (q ∷ rest) ≡ some ([], rest)
unfolding read_body
read_body-close q [] h = rw (==_refl q)
read_body-close q (c ∷ s) h = rw (==_refl q, h)

read_body-byte :
    (q c : ℕ) (s : Text) (r : Text × Text)
    → (c == q) ≡ false
    → read_body q s ≡ some r
    → read_body q (c ∷ s) ≡ some (c ∷ r.0, r.1)
unfolding read_body
read_body-byte q c [] r e h = cc
read_body-byte q c (d ∷ s) r e h = rw (e, h)

read_body-double :
    (q : ℕ) (s rest : Text)
    → NotQuoteFirst q rest
    → read_body q (double q s ++ (q ∷ rest)) ≡ some (s, rest)
unfolding double read_body
read_body-double q [] rest h = read_body-close q rest h
read_body-double q (c ∷ s) rest h = elim (Bool-cases (c == q)) [
  | inl e ↦
      let same : c ≡ q = (==_iff c q).0 e in
      rw (e, same) (rw (==_refl q) (ap (with_byte q) (read_body-double q s rest h)))
  | inr e ↦ rw e (read_body-byte q c _ (s, rest) e (read_body-double q s rest h))
]

-- A quoted identifier reads back as the identifier, whatever bytes it holds, and the text behind
-- it is left as it is, where that text does not go on with a quote.
pub read_ident-quote_ident :
    (d : Dialect) (s rest : Text)
    → NotQuoteFirst (quote_char d) rest
    → read_ident d (quote_ident d s ++ rest) ≡ some (s, rest)
unfolding read_ident quote_ident
read_ident-quote_ident d s rest h =
    rw (==_refl (quote_char d)) (rw append_assoc (read_body-double (quote_char d) s rest h))
