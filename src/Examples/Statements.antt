-- ===== src/Examples/Statements.antt =====
-- The theorems about the compiler's statements, on the statements of Examples
-- (crates/runtime/src/compile.rs).
use ruprizzle_orm.Base.{◌≡◌, refl, true, List, [], ◌∷◌, ◌++◌, none, some, str, length}
use ruprizzle_orm.Dialect.{postgres, quote_ident, quote_char}
use ruprizzle_orm.Dialect.Quoting.{read_ident, read_ident-quote_ident}
use ruprizzle_orm.Compile.Value.{Value, ℤ}
use ruprizzle_orm.Compile.Filter.{SetOp, key, index}
use ruprizzle_orm.Compile.Markers.{IsNumbered, IsNumbered-nil, markers, lex}
use ruprizzle_orm.Compile.State.{new}
use ruprizzle_orm.Compile.Subquery.{renumbered, push_subquery}
use ruprizzle_orm.Compile.Subquery.Embed.{
  IsStatement, IsRun, IsRun-renumbered, push_subquery-IsNumbered,
}
use ruprizzle_orm.Compile.Predicate.{push_filter}
use ruprizzle_orm.Compile.Predicate.Numbering.{HasNames, push_filter-IsNumbered}
use ruprizzle_orm.Compile.Clauses.Numbering.{IsOrder, IsAggregate}
use ruprizzle_orm.Compile.Select.{select}
use ruprizzle_orm.Compile.Select.Numbering.{select-IsStatement}
use ruprizzle_orm.Compile.Write.{Assignment, SetExpr, insert_many, update_with_sets}
use ruprizzle_orm.Compile.Write.Numbering.{insert_many-IsStatement, update-IsStatement}
use ruprizzle_orm.Compile.Compound.{with_cte_prefix, set_op}
use ruprizzle_orm.Compile.Compound.Numbering.{
  IsCte, with_cte_prefix-IsStatement, set_op-IsStatement,
}
use ruprizzle_orm.Examples.{
  plain_types, users, ids, adult_or_listed, by_name, total_age, user, listed,
}

-- The one marker of `ids` is `$1`.
ids-IsNumbered : IsNumbered postgres (ids.sql) 1
unfolding markers lex
ids-IsNumbered = record { at = refl }

pub ids-IsStatement : IsStatement postgres ids
ids-IsStatement = record { numbered = ids-IsNumbered; front = refl }

pub adult-HasNames : HasNames postgres adult_or_listed
adult-HasNames = ((refl, refl), (((refl, refl), ids-IsStatement), tt))

pub by_name-IsOrder : IsOrder by_name
by_name-IsOrder = record { table = refl; column = refl; json_path = tt }

pub total_age-IsAggregate : IsAggregate total_age
total_age-IsAggregate = record { table = refl; column = refl; alias = refl }

pub listed-IsCte : IsCte postgres listed
listed-IsCte = record { name = refl; compiled = ids-IsStatement }

abbrev pub row : List (Assignment plain_types)
row =
    record { column = str "name"; value = Value.str (str "Ada") }
    ∷ record { column = str "age"; value = Value.i64 (ℤ.pos 36) }
    ∷ []

abbrev sets : List (SetExpr plain_types)
sets =
    SetExpr.column (str "name") (Value.str (str "Ada"))
    ∷ SetExpr.json_set (str "data") (key (str "tags") ∷ index 0 ∷ []) (Value.bool true)
    ∷ []

read_ident-quote_ident_example :
    read_ident postgres (quote_ident postgres (str "a\"; --") ++ str ".x")
    ≡ some (str "a\"; --", str ".x")
read_ident-quote_ident_example =
    unfold quote_char in read_ident-quote_ident postgres (str "a\"; --") (str ".x") refl

push_filter-IsNumbered_example :
    IsNumbered postgres
      (push_filter postgres adult_or_listed new).sql
      (length (push_filter postgres adult_or_listed new).binds)
push_filter-IsNumbered_example =
    push_filter-IsNumbered postgres adult_or_listed new adult-HasNames (IsNumbered-nil postgres)

push_subquery-IsNumbered_example :
    IsNumbered postgres
      (push_subquery postgres ids (record { sql = ids.sql; binds = ids.binds })).sql
      (length (push_subquery postgres ids (record { sql = ids.sql; binds = ids.binds })).binds)
push_subquery-IsNumbered_example =
    push_subquery-IsNumbered postgres ids (record { sql = ids.sql; binds = ids.binds })
      ids-IsStatement ids-IsNumbered

IsRun-renumbered_example : IsRun postgres (renumbered ids 4).sql 4 1
IsRun-renumbered_example = IsRun-renumbered postgres ids 4 ids-IsNumbered

select-IsStatement_example :
    IsStatement postgres
      (select postgres (user.columns) users [] adult_or_listed (by_name ∷ []) (some 10) none true)
select-IsStatement_example =
    select-IsStatement postgres (user.columns) users [] adult_or_listed (by_name ∷ []) (some 10)
      none true (refl, (refl, tt)) refl tt adult-HasNames (by_name-IsOrder, tt)

insert_many-IsStatement_example :
    IsStatement postgres (insert_many postgres users (row ∷ row ∷ []) (str "id" ∷ []))
insert_many-IsStatement_example =
    insert_many-IsStatement postgres users (row ∷ row ∷ []) (str "id" ∷ []) refl
      ((refl, (refl, tt)), ((refl, (refl, tt)), tt)) (refl, tt)

update-IsStatement_example :
    IsStatement postgres (update_with_sets postgres users sets adult_or_listed (str "id" ∷ []))
update-IsStatement_example =
    update-IsStatement postgres users sets adult_or_listed (str "id" ∷ []) refl
      (refl, ((refl, (refl, (tt, tt))), tt)) adult-HasNames (refl, tt)

with_cte_prefix-IsStatement_example :
    IsStatement postgres (with_cte_prefix postgres (listed ∷ listed ∷ []) ids)
with_cte_prefix-IsStatement_example =
    with_cte_prefix-IsStatement postgres (listed ∷ listed ∷ []) ids
      (listed-IsCte, (listed-IsCte, tt)) ids-IsStatement

set_op-IsStatement_example :
    IsStatement postgres (set_op postgres SetOp.union_all (listed ∷ []) ids ids)
set_op-IsStatement_example =
    set_op-IsStatement postgres SetOp.union_all (listed ∷ []) ids ids (listed-IsCte, tt)
      ids-IsStatement ids-IsStatement
