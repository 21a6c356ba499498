-- ===== src/Examples/Carried.antt =====
-- The theorems about the values that the statements of crates/runtime/src/compile.rs carry, on the
-- statements of Examples.
use ruprizzle_orm.Base.{◌≡◌, refl, [], ◌∷◌, ◌++◌, none, str}
use ruprizzle_orm.Dialect.{postgres, upsert_clause}
use ruprizzle_orm.Compile.Select.{aggregate_select, select_partitioned}
use ruprizzle_orm.Compile.Write.{insert, upsert, delete}
use ruprizzle_orm.Compile.Binds.{gather}
use ruprizzle_orm.Compile.Binds.Filter.{filter_values}
use ruprizzle_orm.Compile.Binds.Statements.{order_values}
use ruprizzle_orm.Compile.Binds.Writes.{row_values}
use ruprizzle_orm.Compile.Binds.Returning.{returning_clause}
use ruprizzle_orm.Compile.Binds.Carried.{
  Carries, aggregate-Carries, partitioned-Carries, insert-Carries, upsert-Carries, delete-Carries,
}
use ruprizzle_orm.Examples.{
  plain_types, users, older_than, adult_or_listed, by_name, total_age, user,
}
use ruprizzle_orm.Examples.Statements.{adult-HasNames, by_name-IsOrder, total_age-IsAggregate, row}

aggregate-Carries_example :
    Carries postgres
      (aggregate_select postgres users
        (total_age ∷ [])
        adult_or_listed
        (str "city" ∷ [])
        (older_than 7)
        (by_name ∷ [])
        none
        none)
      (filter_values postgres adult_or_listed
        ++ (filter_values postgres (older_than 7) ++ gather order_values (by_name ∷ [])))
aggregate-Carries_example =
    aggregate-Carries postgres users (total_age ∷ []) adult_or_listed (str "city" ∷ [])
      (older_than 7) (by_name ∷ []) none none refl (total_age-IsAggregate, tt) adult-HasNames
      (refl, tt) (refl, refl) (by_name-IsOrder, tt)

partitioned-Carries_example :
    Carries postgres
      (select_partitioned postgres user users (str "city") adult_or_listed (by_name ∷ []) 5)
      (gather order_values (by_name ∷ []) ++ filter_values postgres adult_or_listed)
partitioned-Carries_example =
    partitioned-Carries postgres user users (str "city") adult_or_listed (by_name ∷ []) 5
      (refl, (refl, tt)) refl refl refl adult-HasNames (by_name-IsOrder, tt)

insert-Carries_example :
    Carries postgres (insert postgres users row (str "id" ∷ [])) (row_values row)
insert-Carries_example =
    insert-Carries postgres users row (str "id" ∷ []) refl (refl, (refl, tt)) (refl, tt)

upsert-Carries_example :
    Carries postgres
      (upsert postgres users row (str "name" ∷ []) (str "age" ∷ []) (str "*" ∷ []))
      (row_values row)
    × ((upsert postgres users row (str "name" ∷ []) (str "age" ∷ []) (str "*" ∷ [])).sql
        ≡ (insert postgres users row []).sql
          ++ (str " "
              ++ (upsert_clause postgres (str "name" ∷ []) (str "age" ∷ [])
                  ++ returning_clause plain_types postgres (str "*" ∷ []))))
upsert-Carries_example =
    upsert-Carries postgres users row (str "name" ∷ []) (str "age" ∷ []) (str "*" ∷ []) refl
      (refl, (refl, tt)) (refl, tt) (refl, tt) (refl, tt)

delete-Carries_example :
    Carries postgres
      (delete postgres users adult_or_listed (str "id" ∷ []))
      (filter_values postgres adult_or_listed)
delete-Carries_example =
    delete-Carries postgres users adult_or_listed (str "id" ∷ []) refl adult-HasNames (refl, tt)
