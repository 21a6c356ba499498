-- ===== src/Migrate/Runner/Again.antt =====
-- A second `apply_all` of crates/migrate/src/runner.rs after a first.
use ruprizzle_orm.Base.{
  ◌≡◌, refl, subst, Bool, true, false, List, [], ◌∷◌, none, some, All, arith, Text, dec_text,
  insert, remove, ◌⊎◌, inl, inr, Bool-cases,
}
use ruprizzle_orm.Migrate.Runner.{
  Migration, Error, Attempt, done, failed, Row, Tracking, find_migration, Database, World,
  is_applied, track, pending, mismatch, run_up, transact, apply_one, noted, apply_each, apply_all,
}
use ruprizzle_orm.Migrate.Runner.Passes.{Sum-cases}
use ruprizzle_orm.Migrate.Runner.Outcome.{pending-All, IsOutcome, apply_all-IsOutcome}

Attempt-cases : (a : Attempt Bool) → ((e : Error) × (a ≡ failed e)) ⊎ ((b : Bool) × (a ≡ done b))
Attempt-cases (failed e) = inl (e, refl)
Attempt-cases (done b) = inr (b, refl)

module _ (db : Database) (all : List Migration) where
  mismatch-rest :
      (rows : Tracking) (k : Text) (row : Row)
      → mismatch db all ((k, row) ∷ rows) ≡ none
      → mismatch db all rows ≡ none
  unfolding mismatch
  mismatch-rest rows k row h = ground arith

  mismatch-more :
      (rows rows' : Tracking) (k : Text) (row : Row)
      → mismatch db all ((k, row) ∷ rows) ≡ none
      → mismatch db all rows' ≡ none
      → mismatch db all ((k, row) ∷ rows') ≡ none
  unfolding mismatch
  mismatch-more rows rows' k row h h' = ground arith

  mismatch-remove :
      (rows : Tracking) (id : Text)
      → mismatch db all rows ≡ none
      → mismatch db all (remove id rows) ≡ none
  unfolding remove
  mismatch-remove [] id h = h
  mismatch-remove ((k, row) ∷ rows) id h =
      let rest = mismatch-remove rows id (mismatch-rest rows k row h) in
      elim (dec_text k id) [
        | yes e ↦
            let is : remove id ((k, row) ∷ rows) ≡ remove id rows = ground arith in rw (is) rest
        | no n ↦
            let is : remove id ((k, row) ∷ rows) ≡ (k, row) ∷ remove id rows = ground arith in
            rw (is) (mismatch-more rows (remove id rows) k row h rest)
      ]

  mismatch-insert :
      (rows : Tracking) (id : Text) (row : Row) (m : Migration)
      → mismatch db all rows ≡ none
      → find_migration id all ≡ some m
      → row.checksum ≡ db.compute_checksum m.up
      → mismatch db all (insert id row rows) ≡ none
  unfolding mismatch insert
  mismatch-insert rows id row m h found same =
      ground (arith, found, same, mismatch-remove rows id h)

  -- No file of an applied migration has changed.
  abbrev Agrees : World db → Type 0
  Agrees w = mismatch db all w.tracking ≡ none

  -- The one migration of its id, as it was generated.
  abbrev pub IsUnedited : Migration → Type 0
  IsUnedited m = (find_migration m.id all ≡ some m) × (m.meta.checksum ≡ db.compute_checksum m.up)

  track-Agrees :
      (m : Migration) (tables : db.Tables) (w : World db)
      → IsUnedited m
      → Agrees w
      → Agrees (track db m.id m.meta.checksum (record w { tables = tables }))
  unfolding track
  track-Agrees m tables w h agrees =
      mismatch-insert w.tracking m.id (record { checksum = m.meta.checksum; rolled_back = false }) m
        agrees h.0 h.1

  pending-none :
      (ms : List Migration) (w : World db)
      → All (λ m. is_applied db m.id w ≡ true) ms
      → pending db ms w ≡ []
  unfolding pending
  pending-none [] w h = refl
  pending-none (m ∷ ms) w h = ground (arith, h.0, pending-none ms w h.1)

  module _ (others : World db → World db) (accept : Bool)
      (agree : (w : World db) → Agrees w → Agrees (others w)) where
    transact-Agrees :
        (m : Migration) (w : World db)
        → IsUnedited m
        → Agrees w
        → Agrees (transact db others accept m w).0
    unfolding transact
    transact-Agrees m w h agrees = elim (Bool-cases (is_applied db m.id w)) [
      | inl e ↦ ground arith
      | inr e ↦ elim (Sum-cases (run_up db m w.tables)) [
        | inl (line, refused) ↦ ground arith
        | inr (tables, ran) ↦ ground (arith, track-Agrees m tables w h agrees)
      ]
    ]

    apply_one-Agrees :
        (m : Migration) (w : World db)
        → IsUnedited m
        → Agrees w
        → Agrees (apply_one db others accept m w).0
    unfolding apply_one
    apply_one-Agrees m w h agrees = ground (arith, transact-Agrees m (others w) h (agree w agrees))

    noted-Agrees :
        (id : Text) (b : Bool) (r : World db × Attempt (List Text))
        → Agrees r.0
        → Agrees (noted db others accept id b r).0
    unfolding noted
    noted-Agrees id b (w, failed e) h = h
    noted-Agrees id b (w, done ids) h = h

    apply_each-Agrees :
        (ms : List Migration) (w : World db)
        → All IsUnedited ms
        → Agrees w
        → Agrees (apply_each db others accept ms w).0
    unfolding apply_each
    apply_each-Agrees [] w h agrees = agrees
    apply_each-Agrees (m ∷ ms) w h agrees =
        let one = apply_one-Agrees m w h.0 agrees in
        elim (Attempt-cases (apply_one db others accept m w).1) [
          | inl (e, eq) ↦ ground arith
          | inr (b, eq) ↦
              let rest = apply_each-Agrees ms (apply_one db others accept m w).0 h.1 one in
              let r = apply_each db others accept ms (apply_one db others accept m w).0 in
              ground (arith, noted-Agrees m.id b r rest)
        ]

    apply_all-Agrees :
        (w : World db) → All IsUnedited all → Agrees w → Agrees (apply_all db others accept all w).0
    unfolding apply_all
    apply_all-Agrees w h agrees =
        ground
          (arith, apply_each-Agrees (pending db all w) w (pending-All db IsUnedited all w h) agrees)

    done-Agrees :
        (w : World db) (ids : List Text)
        → (apply_all db others accept all w).1 ≡ done ids
        → Agrees w
    unfolding apply_all
    done-Agrees w ids h = ground arith

    apply_all-none :
        (w : World db)
        → Agrees w
        → pending db all w ≡ []
        → apply_all db others accept all w ≡ (w, done [])
    unfolding apply_all apply_each
    apply_all-none w agrees none_left = ground arith

    -- After an attempt that succeeds, a second one applies nothing and leaves the database and the
    -- tracking table as they are. The conditions are that every migration of the directory is the
    -- first of its id and has the checksum of its own text in its meta data, and that other
    -- sessions undo no migration and bring in no row whose checksum differs from that of its file.
    pub apply_all-again :
        ((id : Text) (w : World db)
          → is_applied db id w ≡ true
          → is_applied db id (others w) ≡ true)
        → (w : World db) (ids : List Text) → All IsUnedited all
        → (apply_all db others accept all w).1 ≡ done ids
        → (apply_all db others accept all (apply_all db others accept all w).0
            ≡ ((apply_all db others accept all w).0, done []))
    apply_all-again keeps w ids unedited succeeds =
        let left = (apply_all db others accept all w).0 in
        let pair : apply_all db others accept all w ≡ (left, done ids) = ground arith in
        let outcome =
          subst (IsOutcome db others accept all w) pair
            (apply_all-IsOutcome db others accept keeps all w) in
        apply_all-none left (apply_all-Agrees w unedited (done-Agrees w ids succeeds))
          (pending-none all left outcome.2)
