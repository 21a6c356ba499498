-- ===== src/Migrate/Runner/Outcome.antt =====
-- What `apply_all` of crates/migrate/src/runner.rs leaves, in each of its outcomes.
use mathlib.Core.List.{Mem, mem-cons_self, mem-cons_of_mem}
use ruprizzle_orm.Base.{
  ◌≡◌, refl, sym, subst, ◌≢◌, Bool, true, false, List, [], ◌∷◌, none, some, All, arith, Text,
  dec_text, ◌⊎◌, inl, inr, Bool-cases, Option-cases,
}
use ruprizzle_orm.Migrate.Runner.{
  Migration, checksum_mismatch, Attempt, done, failed, Row, Tracking, find_migration, Database,
  World, is_applied, pending, mismatch, apply_each, apply_all,
}
use ruprizzle_orm.Migrate.Runner.Passes.{
  Applies, Stops, IsPass, apply_each-IsPass, Applies-keeps, Applies-All,
}

module _ (db : Database) where
  -- A row of the tracking table that is rolled back, or without a file, or of an unchanged file.
  abbrev pub Agrees : List Migration → Text × Row → Type 0
  Agrees ms (id, row) =
      (row.rolled_back ≡ true)
      ⊎ ((find_migration id ms ≡ none)
          ⊎ ((m : Migration) × (find_migration id ms ≡ some m)
              × (row.checksum ≡ db.compute_checksum m.up)))

  -- A live row of the tracking table with the name of this migration, whose file has changed.
  abbrev pub Edited : List Migration → World db → Text → Type 0
  Edited ms w id =
      (row : Row) × (m : Migration) × Mem (id, row) w.tracking
      × (row.rolled_back ≡ false)
      × (find_migration id ms ≡ some m)
      × (row.checksum ≢ db.compute_checksum m.up)

  mismatch-Edited :
      (ms : List Migration) (w : World db) (rows : Tracking) (id : Text)
      → ((p : Text × Row) → Mem p rows → Mem p w.tracking)
      → mismatch db ms rows ≡ some id
      → Edited ms w id
  unfolding mismatch
  mismatch-Edited ms w [] id sub h = absurd (ground arith)
  mismatch-Edited ms w ((k, row) ∷ rows) id sub h =
      let later = λ (e : mismatch db ms rows ≡ some id).
        mismatch-Edited ms w rows id (λ p i. sub p (mem-cons_of_mem (k, row) i)) e in
      elim (Option-cases (find_migration k ms)) [
        | inl e ↦ later (ground arith)
        | inr (m, e) ↦ elim (Bool-cases row.rolled_back) [
          | inl e' ↦ later (ground arith)
          | inr e' ↦ elim (dec_text row.checksum (db.compute_checksum m.up)) [
            | yes same ↦ later (ground arith)
            | no other ↦
                let same : k ≡ id = ground arith in
                (row, m, rw (← same) (sub (k, row) mem-cons_self), e', rw (← same) e, other)
          ]
        ]
      ]

  mismatch-Agrees :
      (ms : List Migration) (rows : Tracking) → mismatch db ms rows ≡ none → All (Agrees ms) rows
  unfolding mismatch
  mismatch-Agrees ms [] h = tt
  mismatch-Agrees ms ((k, row) ∷ rows) h =
      let later : mismatch db ms rows ≡ none = ground arith in
      (
        elim (Option-cases (find_migration k ms)) [
          | inl e ↦ inr (inl e)
          | inr (m, e) ↦ elim (Bool-cases row.rolled_back) [
            | inl e' ↦ inl e'
            | inr e' ↦ inr (inr (m, e, ground arith))
          ]
        ],
        mismatch-Agrees ms rows later,
      )

  pub pending-All :
      (P : Migration → Type 0) (ms : List Migration) (w : World db)
      → All P ms
      → All P (pending db ms w)
  unfolding pending
  pending-All P [] w h = tt
  pending-All P (m ∷ ms) w h = elim (Bool-cases (is_applied db m.id w)) [
    | inl e ↦
        let is : pending db (m ∷ ms) w ≡ pending db ms w = ground arith in
        subst (All P) (sym is) (pending-All P ms w h.1)
    | inr e ↦
        let is : pending db (m ∷ ms) w ≡ m ∷ pending db ms w = ground arith in
        subst (All P) (sym is) (h.0, pending-All P ms w h.1)
  ]

  -- Where the pending migrations are applied and no other is undone, all are applied.
  none_missing :
      (ms : List Migration) (w left : World db)
      → ((id : Text) → is_applied db id w ≡ true → is_applied db id left ≡ true)
      → All (λ m. is_applied db m.id left ≡ true) (pending db ms w)
      → All (λ m. is_applied db m.id left ≡ true) ms
  unfolding pending
  none_missing [] w left stays h = tt
  none_missing (m ∷ ms) w left stays h = elim (Bool-cases (is_applied db m.id w)) [
    | inl e ↦
        let is : pending db (m ∷ ms) w ≡ pending db ms w = ground arith in
        (
          stays m.id e,
          none_missing ms w left stays (subst (All (λ m. is_applied db m.id left ≡ true)) is h),
        )
    | inr e ↦
        let is : pending db (m ∷ ms) w ≡ m ∷ pending db ms w = ground arith in
        let both = subst (All (λ m. is_applied db m.id left ≡ true)) is h in
        (both.0, none_missing ms w left stays both.1)
  ]

  -- All files agree with the tracking table, the pending migrations have been run or passed over
  -- in turn, and all are applied; or an applied file has changed, and nothing has been done; or
  -- the files agree, and the pending migrations have been dealt with up to one that stopped it.
  abbrev pub IsOutcome :
      (World db → World db)
      → Bool
      → List Migration
      → World db
      → World db × Attempt (List Text)
      → Type 0
  IsOutcome others accept ms w (left, done ids) =
      All (Agrees ms) w.tracking
      × Applies db others accept (pending db ms w) w ids left
      × All (λ m. is_applied db m.id left ≡ true) ms
  IsOutcome others accept ms w (left, failed e) =
      ((id : Text) × (e ≡ checksum_mismatch id) × (left ≡ w) × Edited ms w id)
      ⊎ (All (Agrees ms) w.tracking × Stops db others accept (pending db ms w) w e left)

  module _ (others : World db → World db) (accept : Bool)
      (keeps : (id : Text) (w : World db)
        → is_applied db id w ≡ true
        → is_applied db id (others w) ≡ true) where
    pass-IsOutcome :
        (ms : List Migration) (w : World db) (r : World db × Attempt (List Text))
        → All (Agrees ms) w.tracking
        → IsPass db others accept (pending db ms w) w r
        → IsOutcome others accept ms w r
    pass-IsOutcome ms w (left, failed e) agrees h = inr (agrees, h)
    pass-IsOutcome ms w (left, done ids) agrees h = (
      agrees,
      h,
      none_missing ms w left
          (λ id. Applies-keeps db others accept keeps (pending db ms w) w left ids id h)
          (Applies-All db others accept keeps (pending db ms w) w left ids h),
    )

    -- Where other sessions undo no migration, an attempt to apply all migrations has one of three
    -- outcomes. It succeeds: every live row of the tracking table has the checksum of its file,
    -- where it has one; the pending migrations are dealt with in order, and of each that no other
    -- session has applied, and that has its backfill filled in and is not destructive or accepted
    -- as such, the database has accepted every statement that is not blank or a comment, and its
    -- row is written; those are the ids answered, and every migration is applied. Or a live row
    -- has another checksum than its file: it fails with that id, and nothing is done. Or the files
    -- agree, and it deals with the pending migrations in the same way up to one whose backfill is
    -- not filled in, one that is destructive and not accepted, or one of which the database
    -- refuses a statement, whose number it answers: of that one nothing is left.
    pub apply_all-IsOutcome :
        (ms : List Migration) (w : World db)
        → IsOutcome others accept ms w (apply_all db others accept ms w)
    unfolding apply_all
    apply_all-IsOutcome ms w = elim (Option-cases (mismatch db ms w.tracking)) [
      | inl e ↦
          let is : apply_all db others accept ms w
              ≡ apply_each db others accept (pending db ms w) w =
            ground arith in
          subst (IsOutcome others accept ms w) (sym is) (
            pass-IsOutcome ms w _ (mismatch-Agrees ms w.tracking e)
              (apply_each-IsPass db others accept (pending db ms w) w))
      | inr (id, e) ↦
          let is : apply_all db others accept ms w ≡ (w, failed (checksum_mismatch id)) =
            ground arith in
          subst (IsOutcome others accept ms w) (sym is)
            (inl (id, refl, refl, mismatch-Edited ms w w.tracking id (λ p i. i) e))
    ]
