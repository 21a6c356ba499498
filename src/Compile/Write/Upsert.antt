-- ===== src/Compile/Write/Upsert.antt =====
-- The text of `upsert_clause` of crates/dialect.
use ruprizzle_orm.Base.{
  ◌≡◌, refl, true, false, not, List, [], ◌∷◌, ◌++◌, map, Text, str, All, all-append, arith, join,
  is_empty, ◌==◌,
}
use ruprizzle_orm.Dialect.{
  Dialect, postgres, sqlite, mysql, quote_ident, upsert_clause, excluded, on_conflict,
  on_duplicate_key, values_assignment, first_or_one,
}
use ruprizzle_orm.Compile.Numbering.{IsName, is_plain, is_plain-quote_ident}

IsName-append : (s t : Text) → IsName s → IsName t → IsName (s ++ t)
IsName-append s t hs ht =
    ground (arith, all-append (λ x. not (x == b'$')) s t, all-append (λ x. not (x == b'?')) s t)

IsName-join : (sep : Text) (xs : List Text) → IsName sep → All IsName xs → IsName (join sep xs)
unfolding join
IsName-join sep [] hs h = refl
IsName-join sep (x ∷ []) hs h = h.0
IsName-join sep (x ∷ y ∷ xs) hs h =
    IsName-append x _ h.0 (IsName-append sep _ hs (IsName-join sep (y ∷ xs) hs h.1))

All-map :
    (f : Text → Text) (xs : List Text)
    → ((x : Text) → IsName x → IsName (f x))
    → All IsName xs
    → All IsName (map f xs)
All-map f [] k h = tt
All-map f (x ∷ xs) k h = (k x h.0, All-map f xs k h.1)

IsName-quote_ident : (d : Dialect) (s : Text) → IsName s → IsName (quote_ident d s)
IsName-quote_ident d s h = ground (arith, is_plain-quote_ident d s h)

IsName-excluded :
    (d : Dialect) (keyword s : Text) → IsName keyword → IsName s → IsName (excluded d keyword s)
unfolding excluded
IsName-excluded d keyword s hk h =
    IsName-append (quote_ident d s) _ (IsName-quote_ident d s h)
      (IsName-append keyword _ hk (IsName-quote_ident d s h))

IsName-values_assignment : (s : Text) → IsName s → IsName (values_assignment s)
unfolding values_assignment
IsName-values_assignment s h =
    let q = quote_ident mysql s in
    let hq = IsName-quote_ident mysql s h in
    IsName-append q (str " = VALUES(" ++ (q ++ str ")")) hq
      (IsName-append (str " = VALUES(") (q ++ str ")") refl (IsName-append q (str ")") hq refl))

-- A name behind a text that begins with no digit.
is_plain-append :
    (s t : Text) → is_plain s ≡ true → is_empty s ≡ false → IsName t → is_plain (s ++ t) ≡ true
is_plain-append [] t hs he ht = cc
is_plain-append (c ∷ s) t hs he ht =
    let h : IsName ((c ∷ s) ++ t) = IsName-append (c ∷ s) t (ground arith) ht in ground arith

is_plain-on_conflict :
    (d : Dialect) (keyword : Text) (conflict update : List Text)
    → IsName keyword
    → All IsName conflict
    → All IsName update
    → is_plain (on_conflict d keyword conflict update) ≡ true
unfolding on_conflict
is_plain-on_conflict d keyword conflict [] hk hc hu =
    is_plain-append (str "ON CONFLICT (") (join (str ", ") conflict ++ str ") DO NOTHING") refl refl
      (IsName-append (join (str ", ") conflict) (str ") DO NOTHING")
        (IsName-join (str ", ") conflict refl hc) refl)
is_plain-on_conflict d keyword conflict (c ∷ update) hk hc hu =
    let sets = join (str ", ") (map (excluded d keyword) (c ∷ update)) in
    let h : IsName sets =
      IsName-join (str ", ") (map (excluded d keyword) (c ∷ update)) refl
        (All-map (excluded d keyword) (c ∷ update) (λ x. IsName-excluded d keyword x hk) hu) in
    is_plain-append (str "ON CONFLICT (")
      (join (str ", ") conflict ++ (str ") DO UPDATE SET " ++ sets)) refl refl
      (IsName-append (join (str ", ") conflict) (str ") DO UPDATE SET " ++ sets)
        (IsName-join (str ", ") conflict refl hc)
        (IsName-append (str ") DO UPDATE SET ") sets refl h))

IsName-first_or_one : (xs : List Text) → All IsName xs → IsName (first_or_one xs)
unfolding first_or_one
IsName-first_or_one [] h = refl
IsName-first_or_one (x ∷ xs) h = h.0

is_plain-on_duplicate_key :
    (conflict update : List Text)
    → All IsName conflict
    → All IsName update
    → is_plain (on_duplicate_key conflict update) ≡ true
unfolding on_duplicate_key
is_plain-on_duplicate_key conflict [] hc hu =
    let q = quote_ident mysql (first_or_one conflict) in
    let hq : IsName q =
      IsName-quote_ident mysql (first_or_one conflict) (IsName-first_or_one conflict hc) in
    is_plain-append (str "ON DUPLICATE KEY UPDATE ") (q ++ (str " = " ++ q)) refl refl
      (IsName-append q (str " = " ++ q) hq (IsName-append (str " = ") q refl hq))
is_plain-on_duplicate_key conflict (c ∷ update) hc hu =
    is_plain-append (str "ON DUPLICATE KEY UPDATE ")
      (join (str ", ") (map values_assignment (c ∷ update))) refl refl
      (IsName-join (str ", ") (map values_assignment (c ∷ update)) refl
        (All-map values_assignment (c ∷ update) IsName-values_assignment hu))

pub is_plain-upsert_clause :
    (d : Dialect) (conflict update : List Text)
    → All IsName conflict
    → All IsName update
    → is_plain (upsert_clause d conflict update) ≡ true
unfolding upsert_clause
is_plain-upsert_clause postgres conflict update hc hu =
    is_plain-on_conflict postgres (str " = EXCLUDED.") conflict update refl hc hu
is_plain-upsert_clause sqlite conflict update hc hu =
    is_plain-on_conflict sqlite (str " = excluded.") conflict update refl hc hu
is_plain-upsert_clause mysql conflict update hc hu = is_plain-on_duplicate_key conflict update hc hu
