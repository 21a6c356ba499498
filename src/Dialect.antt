-- ===== src/Dialect.antt =====
-- crates/dialect: the parts of `DbDialect` that the query compiler calls, for the three dialects
-- that `dialect_for` returns. A `match` on `dialect.name()` is a match on the constructor.
pub mod Quoting
use ruprizzle_orm.Base.{
  ℕ, ◌+◌, Bool, true, false, List, [], ◌∷◌, ◌++◌, map, Text, str, join, double, to_string, is_empty,
}

pub data Dialect : Type 0 where
  postgres sqlite mysql : Dialect

unfoldable pub quote_char : Dialect → ℕ
quote_char postgres = b'"'
quote_char sqlite = b'`'
quote_char mysql = b'`'

-- Quotes and escapes an identifier: `format!("\"{}\"", s.replace('"', "\"\""))` and alike.
unfoldable pub quote_ident : Dialect → Text → Text
unfolding quote_char
quote_ident d s = quote_char d ∷ (double (quote_char d) s ++ (quote_char d ∷ []))

-- The parameter marker of the bind at a 0-based index.
unfoldable pub placeholder : Dialect → ℕ → Text
placeholder postgres index = b'$' ∷ to_string (index + 1)
placeholder sqlite index = b'?' ∷ []
placeholder mysql index = b'?' ∷ []

unfoldable pub returning_supported : Dialect → Bool
returning_supported postgres = true
returning_supported sqlite = true
returning_supported mysql = false

unfoldable pub excluded : Dialect → Text → Text → Text
excluded d keyword c = quote_ident d c ++ (keyword ++ quote_ident d c)

unfoldable pub first_or_one : List Text → Text
first_or_one [] = str "1"
first_or_one (c ∷ rest) = c

unfoldable pub values_assignment : Text → Text
values_assignment c = quote_ident mysql c ++ (str " = VALUES(" ++ (quote_ident mysql c ++ str ")"))

-- The part of `ON CONFLICT` that `update` decides.
unfoldable pub on_conflict : Dialect → Text → List Text → List Text → Text
unfolding excluded
on_conflict d keyword conflict [] =
    str "ON CONFLICT (" ++ (join (str ", ") conflict ++ str ") DO NOTHING")
on_conflict d keyword conflict (c ∷ update) =
    str "ON CONFLICT ("
    ++ (join (str ", ") conflict
        ++ (str ") DO UPDATE SET " ++ join (str ", ") (map (excluded d keyword) (c ∷ update))))

unfoldable pub on_duplicate_key : List Text → List Text → Text
unfolding first_or_one values_assignment
on_duplicate_key conflict [] =
    let first = quote_ident mysql (first_or_one conflict) in
    str "ON DUPLICATE KEY UPDATE " ++ (first ++ (str " = " ++ first))
on_duplicate_key conflict (c ∷ update) =
    str "ON DUPLICATE KEY UPDATE " ++ join (str ", ") (map values_assignment (c ∷ update))

unfoldable pub upsert_clause : Dialect → List Text → List Text → Text
unfolding on_conflict on_duplicate_key
upsert_clause postgres conflict update = on_conflict postgres (str " = EXCLUDED.") conflict update
upsert_clause sqlite conflict update = on_conflict sqlite (str " = excluded.") conflict update
upsert_clause mysql conflict update = on_duplicate_key conflict update
