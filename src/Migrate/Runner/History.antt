-- ===== src/Migrate/Runner/History.antt =====
-- What an attempt to apply migrations does, step by step, as relations that do not speak of the code
-- of crates/migrate/src/runner.rs: which statements are executed, which one is refused, and which
-- migrations are run, passed over or stopped at.
use ruprizzle_orm.Base.{
  ℕ, suc, ◌+◌, ◌≡◌, refl, sym, subst, Bool, true, false, ◌||◌, List, [], ◌∷◌, none, some, is_empty,
  arith, str, ◌⊎◌, inl, inr, Bool-cases, Option-cases,
}
use ruprizzle_orm.Suggest.{Chars}
use ruprizzle_orm.Migrate.Rename.{starts_with}
use ruprizzle_orm.Migrate.Split.{trim, split_statements}
use ruprizzle_orm.Migrate.Runner.{Migration, Database, run_statements, run_up}

module _ (db : Database) where
  abbrev pub trimmed : Chars → Chars
  trimmed = trim db.is_alphabetic db.is_alphanumeric db.is_whitespace

  -- Nothing to execute: blank, or a comment.
  abbrev pub is_idle : Chars → Bool
  is_idle stmt =
      is_empty (trimmed stmt)
      || (starts_with (trimmed stmt) (str "-- ") || starts_with (trimmed stmt) (str "/*"))

  -- Every statement that is not idle is accepted by the database, one after the other.
  pub data Executes : List Chars → db.Tables → db.Tables → Type 0 where
    executed : (t : db.Tables) → Executes [] t t
    idle :
        (stmt : Chars) (rest : List Chars) (t u : db.Tables)
        → is_idle stmt ≡ true
        → Executes rest t u
        → Executes (stmt ∷ rest) t u
    accepted :
        (stmt : Chars) (rest : List Chars) (t u v : db.Tables)
        → is_idle stmt ≡ false
        → db.execute (trimmed stmt) t ≡ some u
        → Executes rest u v
        → Executes (stmt ∷ rest) t v

  -- The database refuses the statement of this number, after it has accepted those before it.
  pub data Refuses : List Chars → db.Tables → ℕ → Type 0 where
    here :
        (stmt : Chars) (rest : List Chars) (t : db.Tables)
        → is_idle stmt ≡ false
        → db.execute (trimmed stmt) t ≡ none
        → Refuses (stmt ∷ rest) t 1
    behind_idle :
        (stmt : Chars) (rest : List Chars) (t : db.Tables) (n : ℕ)
        → is_idle stmt ≡ true
        → Refuses rest t n
        → Refuses (stmt ∷ rest) t (suc n)
    behind :
        (stmt : Chars) (rest : List Chars) (t u : db.Tables) (n : ℕ)
        → is_idle stmt ≡ false
        → db.execute (trimmed stmt) t ≡ some u
        → Refuses rest u n
        → Refuses (stmt ∷ rest) t (suc n)

  -- What the loop over the statements answers, from the number `idx` on.
  abbrev IsRun : List Chars → ℕ → db.Tables → ℕ ⊎ db.Tables → Type 0
  IsRun ss idx t (inl line) = (n : ℕ) × (line ≡ idx + n) × Refuses ss t n
  IsRun ss idx t (inr u) = Executes ss t u

  IsRun-idle :
      (stmt : Chars) (rest : List Chars) (idx : ℕ) (t : db.Tables) (r : ℕ ⊎ db.Tables)
      → is_idle stmt ≡ true
      → IsRun rest (idx + 1) t r
      → IsRun (stmt ∷ rest) idx t r
  IsRun-idle stmt rest idx t (inl line) e (n, at, h) =
      (suc n, omega (arith, at), behind_idle stmt rest t n e h)
  IsRun-idle stmt rest idx t (inr u) e h = idle stmt rest t u e h

  IsRun-accepted :
      (stmt : Chars) (rest : List Chars) (idx : ℕ) (t u : db.Tables) (r : ℕ ⊎ db.Tables)
      → is_idle stmt ≡ false
      → db.execute (trimmed stmt) t ≡ some u
      → IsRun rest (idx + 1) u r
      → IsRun (stmt ∷ rest) idx t r
  IsRun-accepted stmt rest idx t u (inl line) e ok (n, at, h) =
      (suc n, omega (arith, at), behind stmt rest t u n e ok h)
  IsRun-accepted stmt rest idx t u (inr v) e ok h = accepted stmt rest t u v e ok h

  run_statements-IsRun :
      (ss : List Chars) (idx : ℕ) (t : db.Tables) → IsRun ss idx t (run_statements db ss idx t)
  unfolding run_statements
  run_statements-IsRun [] idx t = executed t
  run_statements-IsRun (stmt ∷ rest) idx t = elim (Bool-cases (is_idle stmt)) [
    | inl e ↦
        let is : run_statements db (stmt ∷ rest) idx t ≡ run_statements db rest (idx + 1) t =
          ground arith in
        subst (IsRun (stmt ∷ rest) idx t) (sym is)
          (IsRun-idle stmt rest idx t _ e (run_statements-IsRun rest (idx + 1) t))
    | inr e ↦ elim (Option-cases (db.execute (trimmed stmt) t)) [
      | inl refused ↦
          let is : run_statements db (stmt ∷ rest) idx t ≡ inl (idx + 1) = ground arith in
          subst (IsRun (stmt ∷ rest) idx t) (sym is) (1, refl, here stmt rest t e refused)
      | inr (u, ok) ↦
          let is : run_statements db (stmt ∷ rest) idx t ≡ run_statements db rest (idx + 1) u =
            ground arith in
          subst (IsRun (stmt ∷ rest) idx t) (sym is)
            (IsRun-accepted stmt rest idx t u _ e ok (run_statements-IsRun rest (idx + 1) u))
    ]
  ]

  abbrev pub statements : Migration → List Chars
  statements m = split_statements db.is_alphabetic db.is_alphanumeric db.is_whitespace m.up

  pub run_up-Executes :
      (m : Migration) (t u : db.Tables) → run_up db m t ≡ inr u → Executes (statements m) t u
  unfolding run_up
  run_up-Executes m t u h =
      subst (IsRun (statements m) 0 t) h (run_statements-IsRun (statements m) 0 t)

  pub run_up-Refuses :
      (m : Migration) (t : db.Tables) (line : ℕ)
      → run_up db m t ≡ inl line
      → Refuses (statements m) t line
  unfolding run_up
  run_up-Refuses m t line h =
      let (n, at, r) =
        subst (IsRun (statements m) 0 t) h (run_statements-IsRun (statements m) 0 t) in
      let e : n ≡ line = omega (arith, at) in subst (Refuses (statements m) t) e r
