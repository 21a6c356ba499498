-- ===== src/Compile/Array/Numbering.antt =====
-- The markers of array predicates (crates/runtime/src/compile.rs).
use ruprizzle_orm.Base.{List, [], ◌∷◌, Text}
use ruprizzle_orm.Dialect.{Dialect, postgres, sqlite, mysql}
use ruprizzle_orm.Compile.Value.{Foreign, Value}
use ruprizzle_orm.Compile.Filter.{ArrayFilterOp}
use ruprizzle_orm.Compile.Array.{
  push_json_array, array_op_postgres, mysql_candidate, array_op_mysql, each_exists, array_op_sqlite,
  push_array_op,
}
use ruprizzle_orm.Compile.Numbering.{Keeps, keeps_rules, IsName}

Keeps-push_json_array :
    {F : Foreign} {d : Dialect} (vs : List (Value F)) → Keeps d (push_json_array d vs)
unfolding push_json_array
Keeps-push_json_array vs = search keeps_rules

module _ {F : Foreign} (table column : Text) (ht : IsName table) (hc : IsName column) where
  array_op_postgres-Keeps :
      (op : ArrayFilterOp) (vs : List (Value F))
      → Keeps postgres (array_op_postgres table column op vs)
  unfolding array_op_postgres
  array_op_postgres-Keeps ArrayFilterOp.has vs = search keeps_rules depth 8
  array_op_postgres-Keeps op vs = search keeps_rules depth 8

  mysql_candidate-Keeps : (vs : List (Value F)) → Keeps mysql (mysql_candidate table column vs)
  unfolding mysql_candidate
  mysql_candidate-Keeps [] = search keeps_rules
  mysql_candidate-Keeps (v ∷ vs) = Keeps-push_json_array (v ∷ [])

  array_op_mysql-Keeps :
      (op : ArrayFilterOp) (vs : List (Value F)) → Keeps mysql (array_op_mysql table column op vs)
  unfolding array_op_mysql
  array_op_mysql-Keeps ArrayFilterOp.has vs = search (keeps_rules, mysql_candidate-Keeps) depth 8
  array_op_mysql-Keeps op vs = search (keeps_rules, Keeps-push_json_array) depth 8

  each_exists-Keeps : (v : Value F) → Keeps sqlite (each_exists table column v)
  unfolding each_exists
  each_exists-Keeps v = search keeps_rules depth 8

  array_op_sqlite-Keeps :
      (op : ArrayFilterOp) (vs : List (Value F)) → Keeps sqlite (array_op_sqlite table column op vs)
  unfolding array_op_sqlite
  array_op_sqlite-Keeps ArrayFilterOp.contains [] = search keeps_rules
  array_op_sqlite-Keeps ArrayFilterOp.contains (v ∷ vs) = search (keeps_rules, each_exists-Keeps)
  array_op_sqlite-Keeps ArrayFilterOp.contained_by [] = search keeps_rules
  array_op_sqlite-Keeps ArrayFilterOp.contained_by (v ∷ vs) = search keeps_rules depth 8
  array_op_sqlite-Keeps ArrayFilterOp.overlaps [] = search keeps_rules
  array_op_sqlite-Keeps ArrayFilterOp.overlaps (v ∷ vs) = search keeps_rules depth 8
  array_op_sqlite-Keeps op vs = search (keeps_rules, each_exists-Keeps) depth 8

  pub push_array_op-Keeps :
      (d : Dialect) (op : ArrayFilterOp) (vs : List (Value F))
      → Keeps d (push_array_op table column d op vs)
  unfolding push_array_op
  push_array_op-Keeps postgres op vs = array_op_postgres-Keeps op vs
  push_array_op-Keeps mysql op vs = array_op_mysql-Keeps op vs
  push_array_op-Keeps sqlite op vs = array_op_sqlite-Keeps op vs
