-- ===== src/Examples/Naming.antt =====
-- The theorems about edit distances, on misspelt names (crates/core/src/suggest.rs,
-- crates/migrate/src/rename.rs).
use ruprizzle_orm.Base.{ℕ, ◌+◌, ◌≡◌, List, [], ◌∷◌, Option, some, leb, ◌&&◌, if◌then◌else◌, str}
use ruprizzle_orm.Distance.{IsDistance}
use ruprizzle_orm.Suggest.{Chars, lower, distance, closest}
use ruprizzle_orm.Suggest.Rows.{distance-IsDistance}
use ruprizzle_orm.Suggest.Closest.{IsBest, closest-IsBest}
use ruprizzle_orm.Migrate.Rename.{levenshtein}
use ruprizzle_orm.Migrate.Rename.Score.{levenshtein-IsDistance}

-- `char::to_lowercase` on ASCII.
abbrev to_lowercase : ℕ → Chars
to_lowercase c = (if leb 65 c && leb c 90 then c + 32 else c) ∷ []

abbrev types : List Chars
types = str "String" ∷ str "Int" ∷ str "DateTime" ∷ []

distance-IsDistance_example :
    (d : ℕ) × (distance to_lowercase (str "strng") (str "String") ≡ some d)
    × IsDistance (lower to_lowercase (str "strng")) (lower to_lowercase (str "String")) d
distance-IsDistance_example = distance-IsDistance to_lowercase (str "strng") (str "String")

closest-IsBest_example :
    (found : Option Chars) × (closest to_lowercase (str "Strng") types ≡ some found)
    × IsBest to_lowercase (str "Strng") types found
closest-IsBest_example = closest-IsBest to_lowercase (str "Strng") types

levenshtein-IsDistance_example :
    (d : ℕ) × (levenshtein (str "name") (str "displayname") ≡ some d)
    × IsDistance (str "name") (str "displayname") d
levenshtein-IsDistance_example = levenshtein-IsDistance (str "name") (str "displayname")
