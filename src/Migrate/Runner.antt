-- ===== src/Migrate/Runner.antt =====
-- The application of migrations in crates/migrate/src/runner.rs, over the migrations that the
-- directory holds. The database's own tables are a parameter, with what one statement makes of them
-- or `none` where the database refuses it; so are the checksum, the tests of characters, and what
-- other sessions commit while a migration waits for its transaction. Reading and writing the
-- tracking table does not fail; dates, durations and the database's messages are left out.
pub mod History
pub mod Passes
pub mod Outcome
pub mod Again
use ruprizzle_orm.Base.{
  ℕ, ◌+◌, Bool, true, false, ◌&&◌, ◌||◌, not, List, [], ◌∷◌, Option, none, some, if◌then◌else◌,
  is_empty, Text, str, dec_text, lookup, insert, ◌⊎◌, inl, inr,
}
use mathlib.Core.Logic.{ite}
use ruprizzle_orm.Suggest.{Chars}
use ruprizzle_orm.Migrate.Rename.{starts_with, contains_str}
use ruprizzle_orm.Migrate.Split.{trim, split_statements}

pub record MigrationMeta : Type 0 where
  pub id : Text
  pub checksum : Text
  pub destructive : Bool
  pub ruprizzle_version : Text

pub record Migration : Type 0 where
  pub id : Text
  pub up : Chars
  pub down : Chars
  pub meta : MigrationMeta

pub data Error : Type 0 where
  checksum_mismatch destructive_blocked missing_up backfill_required : Text → Error
  statement_failed : Text → ℕ → Error

pub data Attempt {ℓ} (A : Type ℓ) : Type ℓ where
  done : A → Attempt A
  failed : Error → Attempt A

-- A row of `_ruprizzle_migrations`.
pub record Row : Type 0 where
  pub checksum : Text
  pub rolled_back : Bool

abbrev pub Tracking : Type 0
Tracking = List (Text × Row)

unfoldable pub is_live : Option Row → Bool
is_live none = false
is_live (some row) = not row.rolled_back

-- What one migration's `up` says of a backfill that nobody has filled in.
unfoldable pub needs_backfill : Chars → Bool
needs_backfill up = contains_str up (str "RUPRIZZLE:BACKFILL") && contains_str up (str "-- UPDATE")

-- Ids are the names of directories, and so distinct.
unfoldable pub find_migration : Text → List Migration → Option Migration
find_migration id [] = none
find_migration id (m ∷ ms) = ite (dec_text m.id id) (some m) (find_migration id ms)

pub record Database : Type 1 where
  pub Tables : Type 0
  pub execute : Chars → Tables → Option Tables
  pub compute_checksum : Chars → Text
  pub is_alphabetic : ℕ → Bool
  pub is_alphanumeric : ℕ → Bool
  pub is_whitespace : ℕ → Bool

module _ (db : Database) where
  pub record World : Type 0 where
    pub tables : db.Tables
    pub tracking : Tracking

  unfoldable pub is_applied : Text → World → Bool
  is_applied id w = is_live (lookup id w.tracking)

  -- The upsert of `tracking_upsert_sql`.
  unfoldable pub track : Text → Text → World → World
  track id checksum w = record w {
    tracking = insert id (record { checksum = checksum; rolled_back = false }) w.tracking;
  }

  unfoldable pub pending : List Migration → World → List Migration
  pending [] w = []
  pending (m ∷ ms) w = let rest = pending ms w in if is_applied m.id w then rest else m ∷ rest

  -- The loop of `verify_checksums`: the first row whose file has changed.
  unfoldable pub mismatch : List Migration → Tracking → Option Text
  mismatch ms [] = none
  mismatch ms ((id, row) ∷ rows) =
      let later = mismatch ms rows in
      elim (find_migration id ms) [
        | none ↦ later
        | some m ↦
            if row.rolled_back
            then later
            else ite (dec_text row.checksum (db.compute_checksum m.up)) later (some id)
      ]

  -- The loop over the statements of one migration: the tables, or the number of the refused one.
  unfoldable pub run_statements : List Chars → ℕ → db.Tables → ℕ ⊎ db.Tables
  run_statements [] idx tables = inr tables
  run_statements (stmt ∷ rest) idx tables =
      let sql = trim db.is_alphabetic db.is_alphanumeric db.is_whitespace stmt in
      let skipped = run_statements rest (idx + 1) tables in
      if is_empty sql
      then skipped
      else if starts_with sql (str "-- ") || starts_with sql (str "/*")
      then skipped
      else elim (db.execute sql tables) [
        | none ↦ inl (idx + 1)
        | some tables' ↦ run_statements rest (idx + 1) tables'
      ]

  unfoldable pub run_up : Migration → db.Tables → ℕ ⊎ db.Tables
  run_up m =
      run_statements (split_statements db.is_alphabetic db.is_alphanumeric db.is_whitespace m.up) 0

  module _ (others : World → World) (accept_data_loss : Bool) where
    -- The transaction of one migration, on the world that it finds under its lock: a failure rolls
    -- back to it.
    unfoldable pub transact : Migration → World → World × Attempt Bool
    transact m w = if is_applied m.id w then (w, done false) else elim (run_up m w.tables) [
      | inl line ↦ (w, failed (statement_failed m.id line))
      | inr tables ↦ (track m.id m.meta.checksum (record w { tables = tables }), done true)
    ]

    unfoldable pub apply_one : Migration → World → World × Attempt Bool
    apply_one m w =
        if needs_backfill m.up
        then (w, failed (backfill_required m.id))
        else if m.meta.destructive && not accept_data_loss
        then (w, failed (destructive_blocked m.id))
        else transact m (others w)

    unfoldable pub noted : Text → Bool → World × Attempt (List Text) → World × Attempt (List Text)
    noted id applied (w, failed e) = (w, failed e)
    noted id applied (w, done ids) = (w, done (if applied then id ∷ ids else ids))

    unfoldable pub apply_each : List Migration → World → World × Attempt (List Text)
    apply_each [] w = (w, done [])
    apply_each (m ∷ ms) w = elim ((apply_one m w).1) [
      | failed e ↦ ((apply_one m w).0, failed e)
      | done applied ↦ noted m.id applied (apply_each ms (apply_one m w).0)
    ]

    unfoldable pub apply_all : List Migration → World → World × Attempt (List Text)
    apply_all ms w = elim (mismatch ms w.tracking) [
      | some id ↦ (w, failed (checksum_mismatch id))
      | none ↦ apply_each (pending ms w) w
    ]

  unfoldable pub resolve : List Migration → Text → World → World × Attempt (Unit {0})
  resolve ms id w = elim (find_migration id ms) [
    | none ↦ (w, failed (missing_up id))
    | some m ↦ (track id (db.compute_checksum m.up) w, done tt)
  ]
