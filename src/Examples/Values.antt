-- ===== src/Examples/Values.antt =====
-- The theorems about the values of statements, on the statements of Examples
-- (crates/runtime/src/compile.rs).
use ruprizzle_orm.Base.{◌≡◌, true, false, List, [], ◌∷◌, none, some, str}
use ruprizzle_orm.Dialect.{postgres, sqlite}
use ruprizzle_orm.Compile.Value.{Value, ℤ, is_null}
use ruprizzle_orm.Compile.Filter.{SetOp, key, index}
use ruprizzle_orm.Compile.State.{new}
use ruprizzle_orm.Compile.Predicate.{push_filter}
use ruprizzle_orm.Compile.Select.{select, join_select_with_columns}
use ruprizzle_orm.Compile.Write.{Assignment, SetExpr, insert_many, update_with_sets}
use ruprizzle_orm.Compile.Compound.{set_op}
use ruprizzle_orm.Compile.Binds.{gather}
use ruprizzle_orm.Compile.Binds.Statements.{push_filter-binds, select-binds, join-binds}
use ruprizzle_orm.Compile.Binds.Writes.{insert_many-binds, update-binds, set_op-binds}
use ruprizzle_orm.Examples.{
  plain_types, users, older_than, adult_or_listed, ids, by_name, user, listed, posts,
}

abbrev ada : List (Assignment plain_types)
ada =
    record { column = str "name"; value = Value.str (str "Ada") }
    ∷ record { column = str "age"; value = Value.i64 (ℤ.pos 36) }
    ∷ []

abbrev renamed : List (SetExpr plain_types)
renamed =
    SetExpr.column (str "name") (Value.str (str "Ada"))
    ∷ SetExpr.json_set (str "data") (key (str "tags") ∷ index 0 ∷ []) (Value.bool true)
    ∷ []

push_filter-binds_example :
    (push_filter postgres adult_or_listed new).binds ≡ Value.i64 (ℤ.pos 18) ∷ Value.bool true ∷ []
unfolding is_null
push_filter-binds_example = push_filter-binds postgres adult_or_listed new

select-binds_example :
    (select postgres
      (user.columns)
      users
      []
      adult_or_listed
      (by_name ∷ [])
      (some 10)
      none
      true).binds
    ≡ Value.i64 (ℤ.pos 18) ∷ Value.bool true ∷ []
unfolding is_null gather
select-binds_example =
    select-binds postgres (user.columns) users [] adult_or_listed (by_name ∷ []) (some 10) none true

join-binds_example :
    (join_select_with_columns postgres users
      (user.columns)
      (str "posts")
      (str "title" ∷ [])
      (some (str "p"))
      (posts.kind)
      (older_than 7)
      adult_or_listed
      (by_name ∷ [])
      none
      (some 3)
      false).binds
    ≡ Value.i64 (ℤ.pos 7) ∷ Value.i64 (ℤ.pos 18) ∷ Value.bool true ∷ []
unfolding is_null gather
join-binds_example =
    join-binds postgres users (user.columns) (str "posts") (str "title" ∷ []) (some (str "p"))
      (posts.kind) (older_than 7) adult_or_listed (by_name ∷ []) none (some 3) false

insert_many-binds_example :
    (insert_many sqlite users (ada ∷ ada ∷ []) []).binds
    ≡ Value.str (str "Ada")
      ∷ Value.i64 (ℤ.pos 36)
      ∷ Value.str (str "Ada")
      ∷ Value.i64 (ℤ.pos 36)
      ∷ []
unfolding gather
insert_many-binds_example = insert_many-binds sqlite users (ada ∷ ada ∷ []) []

update-binds_example :
    (update_with_sets sqlite users renamed adult_or_listed []).binds
    ≡ Value.str (str "Ada") ∷ Value.bool true ∷ Value.i64 (ℤ.pos 18) ∷ Value.bool true ∷ []
unfolding is_null gather
update-binds_example = update-binds sqlite users renamed adult_or_listed []

set_op-binds_example :
    (set_op postgres SetOp.union (listed ∷ []) ids ids).binds
    ≡ Value.bool true ∷ Value.bool true ∷ Value.bool true ∷ []
unfolding gather
set_op-binds_example = set_op-binds postgres SetOp.union (listed ∷ []) ids ids
