-- ===== src/Compile/Compound.antt =====
-- crates/runtime/src/compile.rs: `with_cte_prefix` and `set_op`, which join compiled statements, and
-- `SetOp::sql` of crates/runtime/src/query.rs.
pub mod Numbering
pub mod Runs
use ruprizzle_orm.Base.{
  ℕ, Bool, true, false, List, [], ◌∷◌, ◌++◌, Text, str, join, length, any, if◌then◌else◌,
}
use ruprizzle_orm.Dialect.{Dialect, postgres, sqlite, mysql, quote_ident}
use ruprizzle_orm.Compile.Value.{Foreign, Value}
use ruprizzle_orm.Compile.Filter.{CompiledSql, Cte, SetOp}
use ruprizzle_orm.Compile.Subquery.{renumbered}

unfoldable pub set_op_sql : SetOp → Text
set_op_sql SetOp.union = str "UNION"
set_op_sql SetOp.union_all = str "UNION ALL"
set_op_sql SetOp.intersect = str "INTERSECT"
set_op_sql SetOp.except = str "EXCEPT"

unfoldable pub with_keyword : Bool → Text
with_keyword recursive = if recursive then str "WITH RECURSIVE " else str "WITH "

module _ {F : Foreign} where
  -- The values that the loop over the CTEs ends with, behind the values `binds` of those before.
  unfoldable pub cte_binds : List (Value F) → List (Cte F) → List (Value F)
  cte_binds binds [] = binds
  cte_binds binds (cte ∷ ctes) =
      cte_binds (binds ++ (renumbered cte.compiled (length binds)).binds) ctes

module _ {F : Foreign} (d : Dialect) where
  -- The loop over the CTEs, behind the values `binds` of those before: the parts it adds.
  unfoldable pub cte_parts : List (Value F) → List (Cte F) → List Text
  cte_parts binds [] = []
  cte_parts binds (cte ∷ ctes) =
      let shifted = renumbered cte.compiled (length binds) in
      (quote_ident d cte.name ++ (str " AS (" ++ (shifted.sql ++ str ")")))
      ∷ cte_parts (binds ++ shifted.binds) ctes

  unfoldable pub with_cte_prefix : List (Cte F) → CompiledSql F → CompiledSql F
  with_cte_prefix [] main = main
  with_cte_prefix (cte ∷ ctes) main =
      let binds = cte_binds [] (cte ∷ ctes) in
      let shifted = renumbered main (length binds) in
      record {
        sql =
            with_keyword (any (λ c. c.recursive) (cte ∷ ctes))
            ++ (join (str ", ") (cte_parts [] (cte ∷ ctes)) ++ (str " " ++ shifted.sql));
        binds = binds ++ shifted.binds;
      }

-- SQLite takes no parenthesised operand.
unfoldable pub combined : Dialect → SetOp → Text → Text → Text
combined sqlite op left right =
    str "SELECT * FROM ("
    ++ (left
        ++ (str ") AS __rz_l "
            ++ (set_op_sql op ++ (str " SELECT * FROM (" ++ (right ++ str ") AS __rz_r")))))
combined postgres op left right =
    str "(" ++ (left ++ (str ") " ++ (set_op_sql op ++ (str " (" ++ (right ++ str ")")))))
combined mysql op left right =
    str "(" ++ (left ++ (str ") " ++ (set_op_sql op ++ (str " (" ++ (right ++ str ")")))))

module _ {F : Foreign} where
  unfoldable pub set_op :
      Dialect → SetOp → List (Cte F) → CompiledSql F → CompiledSql F → CompiledSql F
  set_op d op ctes left right =
      let shifted = renumbered right (length left.binds) in
      with_cte_prefix d ctes
        (record { sql = combined d op left.sql shifted.sql; binds = left.binds ++ shifted.binds })
