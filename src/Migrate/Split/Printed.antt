-- ===== src/Migrate/Split/Printed.antt =====
-- What `split_statements` (crates/migrate/src/runner.rs) makes of statements printed one behind
-- the other, each with its semicolon.
use ruprizzle_orm.Base.{
  ℕ, zero, suc, ◌+◌, ◌-◌, ◌≤◌, ◌≡◌, refl, ◌≢◌, Bool, List, [], ◌∷◌, ◌++◌, append_assoc, append-nil,
  length, length-append, All, arith,
}
use ruprizzle_orm.Suggest.{Chars}
use ruprizzle_orm.Migrate.Split.{
  copy_literal, copy_dollar, strip_tag, skip_line, skip_block, drop_one, dollar_tag, starts, round,
  trim, trim_start, trim_end, finish, split_loop, split_statements,
}

-- A part of a statement: a character that begins nothing, a literal, a dollar-quoted body with no
-- tag, and the two kinds of comment.
pub data Piece : Type 0 where
  plain : ℕ → Piece
  quoted dollared line_comment block_comment : Chars → Piece

abbrev pub IsPiece : Piece → Type 0
IsPiece (plain c) = (c ≢ 39) × (c ≢ 36) × (c ≢ 45) × (c ≢ 47) × (c ≢ 59)
IsPiece (quoted body) = All (λ c. c ≢ 39) body
IsPiece (dollared body) = All (λ c. c ≢ 36) body
IsPiece (line_comment body) = All (λ c. c ≢ 10) body
IsPiece (block_comment body) = All (λ c. c ≢ 42) body

abbrev pub print_piece : Piece → Chars
print_piece (plain c) = c ∷ []
print_piece (quoted body) = 39 ∷ (body ++ (39 ∷ []))
print_piece (dollared body) = 36 ∷ 36 ∷ (body ++ (36 ∷ 36 ∷ []))
print_piece (line_comment body) = 45 ∷ 45 ∷ (body ++ (10 ∷ []))
print_piece (block_comment body) = 47 ∷ 42 ∷ (body ++ (42 ∷ 47 ∷ []))

-- What a statement keeps of a piece: a comment is a space.
abbrev pub kept_piece : Piece → Chars
kept_piece (plain c) = c ∷ []
kept_piece (quoted body) = 39 ∷ (body ++ (39 ∷ []))
kept_piece (dollared body) = 36 ∷ 36 ∷ (body ++ (36 ∷ 36 ∷ []))
kept_piece (line_comment body) = 32 ∷ []
kept_piece (block_comment body) = 32 ∷ []

abbrev pub print_pieces : List Piece → Chars
print_pieces [] = []
print_pieces (p ∷ ps) = print_piece p ++ print_pieces ps

abbrev pub kept_pieces : List Piece → Chars
kept_pieces [] = []
kept_pieces (p ∷ ps) = kept_piece p ++ kept_pieces ps

-- Each statement with its semicolon behind it.
abbrev pub print_statements : List (List Piece) → Chars
print_statements [] = []
print_statements (ps ∷ rest) = print_pieces ps ++ (59 ∷ print_statements rest)

copy_literal-body :
    (body rest : Chars)
    → All (λ c. c ≢ 39) body
    → copy_literal (body ++ (39 ∷ rest)) ≡ (body ++ (39 ∷ []), rest)
unfolding copy_literal
copy_literal-body [] rest h = refl
copy_literal-body (c ∷ body) rest h = ground (arith, h.0, copy_literal-body body rest h.1)

copy_dollar-body :
    (body rest : Chars)
    → All (λ c. c ≢ 36) body
    → copy_dollar (36 ∷ 36 ∷ []) (body ++ (36 ∷ 36 ∷ rest)) ≡ (body ++ (36 ∷ 36 ∷ []), rest)
unfolding copy_dollar strip_tag
copy_dollar-body [] rest h = refl
copy_dollar-body (c ∷ body) rest h = ground (arith, h.0, copy_dollar-body body rest h.1)

skip_line-body :
    (body rest : Chars) → All (λ c. c ≢ 10) body → skip_line (body ++ (10 ∷ rest)) ≡ rest
unfolding skip_line
skip_line-body [] rest h = refl
skip_line-body (c ∷ body) rest h = ground (arith, h.0, skip_line-body body rest h.1)

skip_block-body :
    (body rest : Chars) → All (λ c. c ≢ 42) body → skip_block (body ++ (42 ∷ 47 ∷ rest)) ≡ rest
unfolding skip_block
skip_block-body [] rest h = refl
skip_block-body (c ∷ []) rest h = ground (arith, h.0)
skip_block-body (c ∷ d ∷ body) rest h = ground (arith, h.0, skip_block-body (d ∷ body) rest h.1)

length-print_pieces : (ps : List Piece) → length ps ≤ length (print_pieces ps)
length-print_pieces [] = omega arith
length-print_pieces (plain c ∷ ps) = omega (arith, length-print_pieces ps)
length-print_pieces (quoted body ∷ ps) =
    omega
      (arith, length-append (39 ∷ (body ++ (39 ∷ []))) (print_pieces ps), length-print_pieces ps)
length-print_pieces (dollared body ∷ ps) = omega (
  arith,
  length-append (36 ∷ 36 ∷ (body ++ (36 ∷ 36 ∷ []))) (print_pieces ps),
  length-print_pieces ps,
)
length-print_pieces (line_comment body ∷ ps) =
    omega (
      arith,
      length-append (45 ∷ 45 ∷ (body ++ (10 ∷ []))) (print_pieces ps),
      length-print_pieces ps,
    )
length-print_pieces (block_comment body ∷ ps) = omega (
  arith,
  length-append (47 ∷ 42 ∷ (body ++ (42 ∷ 47 ∷ []))) (print_pieces ps),
  length-print_pieces ps,
)

module _ (is_alphabetic is_alphanumeric is_whitespace : ℕ → Bool) where
  abbrev loop : ℕ → Chars → Chars → List Chars
  loop = split_loop is_alphabetic is_alphanumeric is_whitespace

  -- One round consumes one piece.
  loop-piece :
      (fuel : ℕ) (p : Piece) (rest current : Chars)
      → IsPiece p
      → loop (suc fuel) (print_piece p ++ rest) current ≡ loop fuel rest (current ++ kept_piece p)
  unfolding split_loop round starts drop_one dollar_tag
  loop-piece fuel (plain c) rest current h = ground arith
  loop-piece fuel (quoted body) rest current h =
      rw (append_assoc body (39 ∷ []) rest, copy_literal-body body rest h) refl
  loop-piece fuel (dollared body) rest current h =
      rw (append_assoc body (36 ∷ 36 ∷ []) rest, copy_dollar-body body rest h) refl
  loop-piece fuel (line_comment body) rest current h =
      rw (append_assoc body (10 ∷ []) rest, skip_line-body body rest h) refl
  loop-piece fuel (block_comment body) rest current h =
      rw (append_assoc body (42 ∷ 47 ∷ []) rest, skip_block-body body rest h) refl

  loop-pieces :
      (fuel : ℕ) (ps : List Piece) (rest current : Chars)
      → All IsPiece ps
      → loop (length ps + fuel) (print_pieces ps ++ rest) current
        ≡ loop fuel rest (current ++ kept_pieces ps)
  loop-pieces fuel [] rest current h =
      let e : 0 + fuel ≡ fuel = omega arith in rw (e, append-nil current) refl
  loop-pieces fuel (p ∷ ps) rest current h =
      let e : suc (length ps) + fuel ≡ suc (length ps + fuel) = omega arith in
      rw (
        e,
        append_assoc (print_piece p) (print_pieces ps) rest,
        loop-piece (length ps + fuel) p (print_pieces ps ++ rest) current h.0,
        loop-pieces fuel ps rest (current ++ kept_piece p) h.1,
        append_assoc current (kept_piece p) (kept_pieces ps),
      )

  abbrev pub split_all : List (List Piece) → List Chars
  split_all [] = []
  split_all (ps ∷ rest) =
      finish is_alphabetic is_alphanumeric is_whitespace (kept_pieces ps) ++ split_all rest

  loop-end : (fuel : ℕ) → loop fuel [] [] ≡ []
  unfolding split_loop finish trim trim_start trim_end
  loop-end zero = refl
  loop-end (suc fuel) = refl

  loop-semicolon :
      (fuel : ℕ) (rest current : Chars)
      → loop (suc fuel) (59 ∷ rest) current
        ≡ finish is_alphabetic is_alphanumeric is_whitespace current ++ loop fuel rest []
  unfolding split_loop round starts
  loop-semicolon fuel rest current = refl

  loop-statements :
      (sts : List (List Piece)) (fuel : ℕ)
      → All (All IsPiece) sts
      → length (print_statements sts) ≤ fuel
      → loop fuel (print_statements sts) [] ≡ split_all sts
  loop-statements [] fuel h le = loop-end fuel
  loop-statements (ps ∷ sts) fuel h le =
      let enough = length-print_pieces ps in
      let size = length-append (print_pieces ps) (59 ∷ print_statements sts) in
      let left = fuel - length ps - 1 in
      let e : fuel ≡ length ps + suc left = omega (arith, enough, size) in
      rw (
        e,
        loop-pieces (suc left) ps (59 ∷ print_statements sts) [] h.0,
        loop-semicolon left (print_statements sts) (kept_pieces ps),
        loop-statements sts left h.1 (omega (arith, enough, size)),
      )

  -- A text of statements, each printed with a semicolon behind it, splits into these statements in
  -- turn, each trimmed, its comments now spaces, and dropped if nothing else is left. A statement
  -- is made of literals that hold no quote, of `$$` bodies that hold no dollar, of line comments
  -- that hold no newline, of block comments that hold no star, and of characters other than the
  -- quote, the dollar, the hyphen, the slash and the semicolon.
  pub split_statements-print :
      (sts : List (List Piece))
      → All (All IsPiece) sts
      → split_statements is_alphabetic is_alphanumeric is_whitespace (print_statements sts)
        ≡ split_all sts
  unfolding split_statements
  split_statements-print sts h = loop-statements sts (length (print_statements sts)) h (omega arith)
