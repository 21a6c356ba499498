-- ===== src/Compile/Compound/Numbering.antt =====
-- The markers of `with_cte_prefix` and `set_op` (crates/runtime/src/compile.rs).
use ruprizzle_orm.Base.{
  ℕ, ◌+◌, ◌≡◌, refl, ap, subst, ◌∙◌, Bool, true, false, List, [], ◌∷◌, ◌++◌, Text, str, join,
  length, length-append, All, arith,
}
use ruprizzle_orm.Dialect.{Dialect, postgres, sqlite, mysql, quote_ident, quote_char}
use ruprizzle_orm.Compile.Value.{Foreign, Value}
use ruprizzle_orm.Compile.Filter.{CompiledSql, Cte, SetOp}
use ruprizzle_orm.Compile.Markers.{stops}
use ruprizzle_orm.Compile.Subquery.{renumbered}
use ruprizzle_orm.Compile.Subquery.Embed.{
  IsRun, IsStatement, IsRun-IsNumbered, IsRun-append, IsRun-chunk, IsRun-renumbered,
  stops-renumbered, binds-renumbered,
}
use ruprizzle_orm.Compile.Numbering.{IsName, is_plain, is_chunk-plain, is_plain-quote_ident}
use ruprizzle_orm.Compile.Compound.Runs.{
  stops-append, IsRun-before, IsRun-behind, IsRun-join, IsRun-combined, stops-combined,
}
use ruprizzle_orm.Compile.Compound.{with_keyword, cte_parts, cte_binds, with_cte_prefix, set_op}

-- A CTE with a name free of marker characters, around a statement.
pub record IsCte {F : Foreign} (d : Dialect) (cte : Cte F) : Type 0 where
  pub name : IsName cte.name
  pub compiled : IsStatement d cte.compiled

cte_total : {F : Foreign} → List (Cte F) → ℕ
cte_total [] = 0
cte_total (cte ∷ ctes) = length cte.compiled.binds + cte_total ctes

abbrev cte_text : {F : Foreign} → Dialect → Text → CompiledSql F → ℕ → Text
cte_text d name s k = quote_ident d name ++ (str " AS (" ++ ((renumbered s k).sql ++ str ")"))

stops-quoted : (d : Dialect) (name t : Text) → stops (quote_ident d name ++ t) ≡ true
unfolding quote_ident quote_char
stops-quoted postgres name t = refl
stops-quoted sqlite name t = refl
stops-quoted mysql name t = refl

stops-quoted_text : (d : Dialect) (name t u : Text) → stops ((quote_ident d name ++ t) ++ u) ≡ true
unfolding quote_ident quote_char
stops-quoted_text postgres name t u = refl
stops-quoted_text sqlite name t u = refl
stops-quoted_text mysql name t u = refl

module _ {F : Foreign} where
  length-renumbered :
      (binds : List (Value F)) (s : CompiledSql F) (k : ℕ)
      → length (binds ++ (renumbered s k).binds) ≡ length binds + length s.binds
  length-renumbered binds s k =
      length-append binds (renumbered s k).binds
      ∙ ap (λ bs. length binds + length bs) (binds-renumbered s k)

  length-cte_binds :
      (binds : List (Value F)) (ctes : List (Cte F))
      → length (cte_binds binds ctes) ≡ length binds + cte_total ctes
  unfolding cte_binds cte_total
  length-cte_binds binds [] = omega arith
  length-cte_binds binds (cte ∷ ctes) =
      let k = length binds in
      omega (
        arith,
        length-cte_binds (binds ++ (renumbered cte.compiled k).binds) ctes,
        length-renumbered binds cte.compiled k,
      )

is_plain-with_keyword : (b : Bool) → is_plain (with_keyword b) ≡ true
unfolding with_keyword
is_plain-with_keyword true = refl
is_plain-with_keyword false = refl

stops-with_keyword : (b : Bool) (t : Text) → stops (with_keyword b ++ t) ≡ true
unfolding with_keyword
stops-with_keyword true t = refl
stops-with_keyword false t = refl

module _ {F : Foreign} (d : Dialect) where
  IsRun-cte :
      (name : Text) (s : CompiledSql F) (k : ℕ)
      → IsName name
      → IsStatement d s
      → IsRun d (cte_text d name s k) k (length s.binds)
  IsRun-cte name s k hn hs =
      let inner = (renumbered s k).sql in
      let hi : stops (inner ++ str ")") ≡ true =
        stops-append inner (str ")") (stops-renumbered s k hs.front) refl in
      IsRun-before d (quote_ident d name) (str " AS (" ++ (inner ++ str ")")) k _
        (is_plain-quote_ident d name hn) refl
        (IsRun-before d (str " AS (") (inner ++ str ")") k _ refl hi
          (IsRun-behind d inner (str ")") k _ refl (IsRun-renumbered d s k hs.numbered)))

  stops-cte_parts :
      (binds : List (Value F)) (ctes : List (Cte F))
      → stops (join (str ", ") (cte_parts d binds ctes)) ≡ true
  unfolding cte_parts join
  stops-cte_parts binds [] = refl
  stops-cte_parts binds (cte ∷ []) = stops-quoted d cte.name _
  stops-cte_parts binds (cte ∷ cte' ∷ ctes) = stops-quoted_text d cte.name _ _

  -- The parts of a `WITH` clause count on from the values before them.
  IsRun-cte_parts :
      (binds : List (Value F)) (ctes : List (Cte F))
      → All (IsCte d) ctes
      → IsRun d (join (str ", ") (cte_parts d binds ctes)) (length binds) (cte_total ctes)
  unfolding cte_parts cte_total
  IsRun-cte_parts binds [] h =
      unfold join in IsRun-chunk d [] (length binds) (is_chunk-plain d [] refl)
  IsRun-cte_parts binds (cte ∷ ctes) h =
      let k = length binds in
      let more = binds ++ (renumbered cte.compiled k).binds in
      let rest = IsRun-cte_parts more ctes h.1 in
      IsRun-join d (cte_text d cte.name cte.compiled k) (cte_parts d more ctes) k _ _
        (IsRun-cte cte.name cte.compiled k h.0.name h.0.compiled)
        (rw (length-renumbered binds cte.compiled k) at rest) (stops-cte_parts more ctes)

  IsStatement-run :
      (s : CompiledSql F) (n : ℕ)
      → IsRun d s.sql 0 n
      → length s.binds ≡ n
      → stops s.sql ≡ true
      → IsStatement d s
  IsStatement-run s n h e hs = record {
    numbered = rw e ((IsRun-IsNumbered d s.sql n).0 h);
    front = hs;
  }

  -- A statement behind a `WITH` clause of common table expressions that are statements with names
  -- free of `$` and `?` has one run of markers over the expressions and the main statement, one
  -- for each value.
  pub with_cte_prefix-IsStatement :
      (ctes : List (Cte F)) (main : CompiledSql F)
      → All (IsCte d) ctes
      → IsStatement d main
      → IsStatement d (with_cte_prefix d ctes main)
  unfolding with_cte_prefix
  with_cte_prefix-IsStatement [] main hc hm = hm
  with_cte_prefix-IsStatement (cte ∷ ctes) main hc hm =
      let all_ctes = cte ∷ ctes in
      let binds = cte_binds [] all_ctes in
      let shifted = renumbered main (length binds) in
      let total : length binds ≡ 0 + cte_total all_ctes = length-cte_binds [] all_ctes in
      let run =
        subst (λ k. IsRun d shifted.sql k (length main.binds)) total
          (IsRun-renumbered d main (length binds) hm.numbered) in
      let e = stops-renumbered main (length binds) hm.front in
      IsStatement-run _ (cte_total all_ctes + length main.binds)
        (IsRun-before d (with_keyword _) _ 0 _ (is_plain-with_keyword _)
          (stops-append (join (str ", ") (cte_parts d [] all_ctes)) (str " " ++ shifted.sql)
            (stops-cte_parts [] all_ctes) refl)
          (IsRun-append d (join (str ", ") (cte_parts d [] all_ctes)) (str " " ++ shifted.sql) 0 _ _
            _ refl (IsRun-cte_parts [] all_ctes hc)
            (IsRun-before d (str " ") shifted.sql _ _ refl e run) refl))
        (omega (arith, length-renumbered binds main (length binds), total)) (stops-with_keyword _ _)

  -- A set operation on two statements, under common table expressions that are statements with
  -- names free of `$` and `?`, has one run of markers over all of its parts, one for each value.
  pub set_op-IsStatement :
      (op : SetOp) (ctes : List (Cte F)) (left right : CompiledSql F)
      → All (IsCte d) ctes
      → IsStatement d left
      → IsStatement d right
      → IsStatement d (set_op d op ctes left right)
  unfolding set_op
  set_op-IsStatement op ctes left right hc hl hr =
      let k = length left.binds in
      with_cte_prefix-IsStatement ctes _ hc (
        IsStatement-run _ (k + length right.binds)
          (IsRun-combined d op left.sql (renumbered right k).sql k (length right.binds) hl.front
            (stops-renumbered right k hr.front) ((IsRun-IsNumbered d left.sql k).1 hl.numbered)
            (IsRun-renumbered d right k hr.numbered))
          (length-renumbered left.binds right k)
          (stops-combined d op left.sql (renumbered right k).sql))
