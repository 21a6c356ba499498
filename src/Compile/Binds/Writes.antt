-- ===== src/Compile/Binds/Writes.antt =====
-- The values that the statements of crates/runtime/src/compile.rs which write rows, and the joined
-- ones, bind, in the order of their markers.
use ruprizzle_orm.Base.{
  ◌≡◌, refl, sym, ap, ◌∙◌, List, [], ◌∷◌, ◌++◌, map, Text, str, append-nil, append_assoc, length,
}
use ruprizzle_orm.Dialect.{Dialect, postgres, sqlite, mysql}
use ruprizzle_orm.Compile.Value.{Foreign, Value}
use ruprizzle_orm.Compile.Filter.{FilterNode, CompiledSql, JsonPath, Cte, SetOp}
use ruprizzle_orm.Compile.State.{◌⨾◌, new, finish, push_str, push_quoted, push_bind, separated}
use ruprizzle_orm.Compile.Write.{
  Assignment, SetExpr, push_names, push_values, push_into, push_row, insert_steps, insert,
  insert_many_steps, insert_many, push_json_set, push_set, update_steps, update_with_sets,
}
use ruprizzle_orm.Compile.Subquery.{renumbered}
use ruprizzle_orm.Compile.Subquery.Embed.{binds-renumbered}
use ruprizzle_orm.Compile.Compound.{cte_binds, with_cte_prefix, set_op}
use ruprizzle_orm.Compile.Binds.{
  Binds, Silent, silent_rules, binds_rules, gather, Silent-push_quoted, Silent-separated,
  Binds-separated, Binds-⨾, Binds-before, Binds-behind, Binds-bind,
}
use ruprizzle_orm.Compile.Binds.Leaves.{Silent-path, Silent-path_array}
use ruprizzle_orm.Compile.Binds.Filter.{filter_values}
use ruprizzle_orm.Compile.Binds.Statements.{Binds-push_where, Silent-push_returning}

abbrev pub set_values : {F : Foreign} → SetExpr F → List (Value F)
set_values (SetExpr.column col value) = value ∷ []
set_values (SetExpr.json_set col path value) = value ∷ []

abbrev pub row_values : {F : Foreign} → List (Assignment F) → List (Value F)
row_values row = map (λ a. a.value) row

gather-map :
    {F : Foreign} (row : List (Assignment F)) → gather (λ a. a.value ∷ []) row ≡ row_values row
unfolding gather
gather-map [] = refl
gather-map (a ∷ row) = ap (λ vs. a.value ∷ vs) (gather-map row)

module _ {F : Foreign} (d : Dialect) where
  pub Silent-push_into :
      (table : Text) (values : List (Assignment F)) → Silent (push_into d table values)
  unfolding push_into push_names
  Silent-push_into table values =
      let s =
        Silent-separated {F = F} (str ", ") (λ a. push_quoted d a.column) values
          (λ a. Silent-push_quoted d a.column) in
      search silent_rules

  pub Binds-push_row : (row : List (Assignment F)) → Binds (push_row d row) (row_values row)
  unfolding push_row push_values
  Binds-push_row row =
      let k : Binds (separated (str ", ") (λ a. push_bind d a.value) row) (row_values row) =
        rw (gather-map row) at (
          Binds-separated (str ", ") (λ a. push_bind d a.value) (λ a. a.value ∷ []) row
            (λ a. Binds-bind d a.value)) in
      search binds_rules

  -- `INSERT` binds the values of the row in the order of its columns.
  pub insert-binds :
      (table : Text) (values : List (Assignment F)) (returning : List Text)
      → (insert d table values returning).binds ≡ row_values values
  unfolding insert insert_steps finish
  insert-binds table values returning =
      let k : Binds (push_str (str "INSERT INTO ") ⨾ insert_steps d table values returning)
          (row_values values) =
        search (binds_rules, Silent-push_into, Binds-push_row, Silent-push_returning) depth 8 in
      k.at new

  -- An `INSERT` of many rows binds the values of each row in turn, in the order of its columns.
  pub insert_many-binds :
      (table : Text) (rows : List (List (Assignment F))) (returning : List Text)
      → (insert_many d table rows returning).binds ≡ gather row_values rows
  unfolding insert_many insert_many_steps finish
  insert_many-binds table [] returning = unfold gather in refl
  insert_many-binds table (first ∷ rows) returning =
      let r = Binds-separated (str ", ") (push_row d) row_values (first ∷ rows) Binds-push_row in
      let k : Binds
          (push_str (str "INSERT INTO ") ⨾ insert_many_steps d table first (first ∷ rows) returning)
          (gather row_values (first ∷ rows)) =
        search (Binds-behind, Binds-before, silent_rules, Silent-push_into, Silent-push_returning)
          depth 8 in
      k.at new

module _ {F : Foreign} where
  Binds-push_json_set :
      (d : Dialect) (col : Text) (path : JsonPath) (value : Value F)
      → Binds (push_json_set d col path value) (value ∷ [])
  unfolding push_json_set
  Binds-push_json_set postgres col path value = search (binds_rules, Silent-path_array) depth 10
  Binds-push_json_set sqlite col path value = search (binds_rules, Silent-path) depth 10
  Binds-push_json_set mysql col path value = search (binds_rules, Silent-path) depth 10

module _ {F : Foreign} (d : Dialect) where
  Binds-push_set : (s : SetExpr F) → Binds (push_set d s) (set_values s)
  unfolding push_set
  Binds-push_set (SetExpr.column col value) = search binds_rules
  Binds-push_set (SetExpr.json_set col path value) =
      Binds-behind _ _ _ (Silent-push_quoted d col) (Binds-push_json_set d col path value)

  -- `UPDATE` binds the values of its set clauses in turn, and then those of its filter.
  pub update-binds :
      (table : Text) (sets : List (SetExpr F)) (filter : FilterNode F) (returning : List Text)
      → (update_with_sets d table sets filter returning).binds
        ≡ gather set_values sets ++ filter_values d filter
  unfolding update_with_sets update_steps finish
  update-binds table sets filter returning =
      let t =
        Binds-⨾ _ _ (gather set_values sets) _
          (Binds-separated (str ", ") (push_set d) set_values sets Binds-push_set)
          (Binds-before _ _ _ (Binds-push_where d (str " WHERE ") filter)
            (Silent-push_returning d returning)) in
      let k : Binds (push_str (str "UPDATE ") ⨾ update_steps d table sets filter returning)
          (gather set_values sets ++ filter_values d filter) =
        search (Binds-behind, silent_rules) in
      k.at new

  cte_binds-gather :
      (bs : List (Value F)) (ctes : List (Cte F))
      → cte_binds bs ctes ≡ bs ++ gather (λ c. c.compiled.binds) ctes
  unfolding cte_binds gather
  cte_binds-gather bs [] = sym (append-nil bs)
  cte_binds-gather bs (cte ∷ ctes) =
      let ren = renumbered cte.compiled (length bs) in
      cte_binds-gather (bs ++ ren.binds) ctes
      ∙ append_assoc bs ren.binds (gather (λ c. c.compiled.binds) ctes)
      ∙ ap (λ vs. bs ++ (vs ++ gather (λ c. c.compiled.binds) ctes))
          (binds-renumbered cte.compiled (length bs))

  -- The values of a `WITH` statement are those of its common table expressions in turn, and then
  -- those of the main statement.
  with_cte_prefix-binds :
      (ctes : List (Cte F)) (main : CompiledSql F)
      → (with_cte_prefix d ctes main).binds ≡ gather (λ c. c.compiled.binds) ctes ++ main.binds
  unfolding with_cte_prefix
  with_cte_prefix-binds [] main = unfold gather in refl
  with_cte_prefix-binds (cte ∷ ctes) main =
      let bs = cte_binds [] (cte ∷ ctes) in
      ap (λ vs. bs ++ vs) (binds-renumbered main (length bs))
      ∙ ap (λ vs. vs ++ main.binds) (cte_binds-gather [] (cte ∷ ctes))

  -- The values of a set operation are those of its common table expressions, then those of the
  -- left statement, then those of the right one.
  pub set_op-binds :
      (op : SetOp) (ctes : List (Cte F)) (left right : CompiledSql F)
      → (set_op d op ctes left right).binds
        ≡ gather (λ c. c.compiled.binds) ctes ++ (left.binds ++ right.binds)
  unfolding set_op
  set_op-binds op ctes left right =
      with_cte_prefix-binds ctes _
      ∙ ap (λ vs. gather (λ c. c.compiled.binds) ctes ++ (left.binds ++ vs))
          (binds-renumbered right (length left.binds))
