-- ===== src/Query/Refused.antt =====
-- The queries that do not compile (crates/runtime/src/query.rs).
use ruprizzle_orm.Base.{◌≡◌, ◌≢◌, ◌↔◌, refl, Option, none, some, str}
use ruprizzle_orm.Dialect.{Dialect, postgres, sqlite, mysql}
use ruprizzle_orm.Compile.Value.{Foreign}
use ruprizzle_orm.Compile.Filter.{JoinKind}
use ruprizzle_orm.Compile.Select.{Model}
use ruprizzle_orm.Query.{
  Error, message, Result, ok, err, JoinSpec, SelectQuery, supports_right_join, supports_full_join,
  unsupported, dialect_name, check_join_kind, check_join_support, statement, to_sql_without_cte,
  to_sql,
}
use ruprizzle_orm.Query.Numbering.{with_ctes-error}

-- SQLite has neither a RIGHT nor a FULL OUTER join, MySQL no FULL OUTER join; `e` says so.
abbrev pub RefusedKind : Dialect → JoinKind → Error → Type 0
RefusedKind sqlite JoinKind.right e = e ≡ message (str "RIGHT JOIN is not supported by sqlite")
RefusedKind sqlite JoinKind.full e = e ≡ message (str "FULL OUTER JOIN is not supported by sqlite")
RefusedKind mysql JoinKind.full e = e ≡ message (str "FULL OUTER JOIN is not supported by mysql")
RefusedKind _ _ e = ⊥

ok-err : {e : Error} → ok tt ≢ err e
ok-err h = cc

err-is : (r : Result Unit) (a e : Error) → r ≡ err a → (r ≡ err e) ↔ (e ≡ a)
err-is r a e found = (λ h. cc, λ h. cc)

check_join_kind-Refused :
    (d : Dialect) (kind : JoinKind) (e : Error)
    → (check_join_kind d kind ≡ err e) ↔ RefusedKind d kind e
unfolding check_join_kind supports_right_join supports_full_join unsupported dialect_name
check_join_kind-Refused postgres JoinKind.inner e = (λ h. absurd (ok-err h), λ h. absurd h)
check_join_kind-Refused postgres JoinKind.left e = (λ h. absurd (ok-err h), λ h. absurd h)
check_join_kind-Refused postgres JoinKind.right e = (λ h. absurd (ok-err h), λ h. absurd h)
check_join_kind-Refused postgres JoinKind.full e = (λ h. absurd (ok-err h), λ h. absurd h)
check_join_kind-Refused sqlite JoinKind.inner e = (λ h. absurd (ok-err h), λ h. absurd h)
check_join_kind-Refused sqlite JoinKind.left e = (λ h. absurd (ok-err h), λ h. absurd h)
check_join_kind-Refused sqlite JoinKind.right e = err-is _ _ e refl
check_join_kind-Refused sqlite JoinKind.full e = err-is _ _ e refl
check_join_kind-Refused mysql JoinKind.inner e = (λ h. absurd (ok-err h), λ h. absurd h)
check_join_kind-Refused mysql JoinKind.left e = (λ h. absurd (ok-err h), λ h. absurd h)
check_join_kind-Refused mysql JoinKind.right e = (λ h. absurd (ok-err h), λ h. absurd h)
check_join_kind-Refused mysql JoinKind.full e = err-is _ _ e refl

module _ {F : Foreign} where
  -- The joins that a dialect does not have, and what is said of them.
  abbrev pub Refused : Dialect → Option (JoinSpec F) → Error → Type 0
  Refused d none e = ⊥
  Refused d (some join) e = RefusedKind d join.kind e

  check_join_support-Refused :
      (d : Dialect) (j : Option (JoinSpec F)) (e : Error)
      → (check_join_support d j ≡ err e) ↔ Refused d j e
  unfolding check_join_support
  check_join_support-Refused d none e = (λ h. absurd (ok-err h), λ h. absurd h)
  check_join_support-Refused d (some join) e = check_join_kind-Refused d join.kind e

  -- Compiling a query fails with an error exactly when the query has a RIGHT or FULL OUTER join
  -- and the dialect is SQLite, or a FULL OUTER join and the dialect is MySQL, and the error is the
  -- message that names this kind of join and this dialect.
  pub to_sql-error :
      (d : Dialect) (m : Model) (q : SelectQuery F) (e : Error)
      → (to_sql d m q ≡ err e) ↔ Refused d q.join e
  unfolding to_sql to_sql_without_cte
  to_sql-error d m q e =
      let both =
        with_ctes-error d q.ctes (check_join_support d q.join) (statement d m q q.join) e in
      let why = check_join_support-Refused d q.join e in
      (λ h. why.0 (both.0 h), λ h. both.1 (why.1 h))
