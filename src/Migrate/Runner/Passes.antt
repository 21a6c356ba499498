-- ===== src/Migrate/Runner/Passes.antt =====
-- The loop of `apply_all` (crates/migrate/src/runner.rs) over the pending migrations: what it runs,
-- what it passes over, and where it stops.
use ruprizzle_orm.Base.{
  ℕ, ◌≡◌, refl, ◌∙◌, Bool, true, false, ◌&&◌, not, List, [], ◌∷◌, All, arith, Text, str,
  lookup-insert, ◌⊎◌, inl, inr, Bool-cases,
}
use ruprizzle_orm.Migrate.Rename.{contains_str}
use ruprizzle_orm.Migrate.Runner.{
  Migration, Error, destructive_blocked, backfill_required, statement_failed, Attempt, done, failed,
  is_live, needs_backfill, Database, World, is_applied, track, run_up, transact, apply_one, noted,
  apply_each,
}
use ruprizzle_orm.Migrate.Runner.History.{
  Executes, Refuses, statements, run_up-Executes, run_up-Refuses,
}

pub Sum-cases {ℓ κ} :
    {A : Type ℓ} {B : Type κ} (s : A ⊎ B) → ((a : A) × (s ≡ inl a)) ⊎ ((b : B) × (s ≡ inr b))
Sum-cases (inl a) = inl (a, refl)
Sum-cases (inr b) = inr (b, refl)

-- A migration that may run: its backfill is filled in, and it loses no data or that is accepted.
pub record MayRun (accept : Bool) (m : Migration) : Type 0 where
  pub filled_in :
      (contains_str m.up (str "RUPRIZZLE:BACKFILL") ≡ false)
      ⊎ (contains_str m.up (str "-- UPDATE") ≡ false)
  pub safe : (m.meta.destructive ≡ false) ⊎ (accept ≡ true)

module _ (db : Database) (others : World db → World db) (accept : Bool) where
  -- The world after a migration has run on these tables.
  abbrev pub recorded : Migration → db.Tables → World db → World db
  recorded m tables w = track db m.id m.meta.checksum (record w { tables = tables })

  -- These migrations are dealt with in turn, each in the world that other sessions have left: one
  -- that they have applied is passed over, of another all statements are executed and its row is
  -- written. The list is of those that were run.
  pub data Applies : List Migration → World db → List Text → World db → Type 0 where
    all_done : (w : World db) → Applies [] w [] w
    passed_over :
        (m : Migration) (ms : List Migration) (w left : World db) (ids : List Text)
        → MayRun accept m
        → is_applied db m.id (others w) ≡ true
        → Applies ms (others w) ids left
        → Applies (m ∷ ms) w ids left
    was_run :
        (m : Migration) (ms : List Migration) (w left : World db) (ids : List Text)
        (tables : db.Tables)
        → MayRun accept m
        → is_applied db m.id (others w) ≡ false
        → Executes db (statements db m) (others w).tables tables
        → Applies ms (recorded m tables (others w)) ids left
        → Applies (m ∷ ms) w (m.id ∷ ids) left

  -- The same up to a migration that may not run, or of which the database refuses a statement: of
  -- that one nothing is left.
  pub data Stops : List Migration → World db → Error → World db → Type 0 where
    at_backfill :
        (m : Migration) (ms : List Migration) (w : World db)
        → contains_str m.up (str "RUPRIZZLE:BACKFILL") ≡ true
        → contains_str m.up (str "-- UPDATE") ≡ true
        → Stops (m ∷ ms) w (backfill_required m.id) w
    at_destructive :
        (m : Migration) (ms : List Migration) (w : World db)
        → m.meta.destructive ≡ true
        → accept ≡ false
        → Stops (m ∷ ms) w (destructive_blocked m.id) w
    at_refused :
        (m : Migration) (ms : List Migration) (w : World db) (line : ℕ)
        → MayRun accept m
        → is_applied db m.id (others w) ≡ false
        → Refuses db (statements db m) (others w).tables line
        → Stops (m ∷ ms) w (statement_failed m.id line) (others w)
    behind_passed :
        (m : Migration) (ms : List Migration) (w left : World db) (e : Error)
        → MayRun accept m
        → is_applied db m.id (others w) ≡ true
        → Stops ms (others w) e left
        → Stops (m ∷ ms) w e left
    behind_run :
        (m : Migration) (ms : List Migration) (w left : World db) (e : Error) (tables : db.Tables)
        → MayRun accept m
        → is_applied db m.id (others w) ≡ false
        → Executes db (statements db m) (others w).tables tables
        → Stops ms (recorded m tables (others w)) e left
        → Stops (m ∷ ms) w e left

  abbrev pub IsPass : List Migration → World db → World db × Attempt (List Text) → Type 0
  IsPass ms w (left, done ids) = Applies ms w ids left
  IsPass ms w (left, failed e) = Stops ms w e left

  noted-passed :
      (m : Migration) (ms : List Migration) (w : World db) (r : World db × Attempt (List Text))
      → MayRun accept m
      → is_applied db m.id (others w) ≡ true
      → IsPass ms (others w) r
      → IsPass (m ∷ ms) w (noted db others accept m.id false r)
  unfolding noted
  noted-passed m ms w (left, done ids) may there h = passed_over m ms w left ids may there h
  noted-passed m ms w (left, failed e) may there h = behind_passed m ms w left e may there h

  noted-run :
      (m : Migration) (ms : List Migration) (w : World db) (tables : db.Tables)
      (r : World db × Attempt (List Text))
      → MayRun accept m
      → is_applied db m.id (others w) ≡ false
      → Executes db (statements db m) (others w).tables tables
      → IsPass ms (recorded m tables (others w)) r
      → IsPass (m ∷ ms) w (noted db others accept m.id true r)
  unfolding noted
  noted-run m ms w tables (left, done ids) may absent ran h =
      was_run m ms w left ids tables may absent ran h
  noted-run m ms w tables (left, failed e) may absent ran h =
      behind_run m ms w left e tables may absent ran h

  apply_each-failed :
      (m : Migration) (ms : List Migration) (w left : World db) (e : Error)
      → apply_one db others accept m w ≡ (left, failed e)
      → apply_each db others accept (m ∷ ms) w ≡ (left, failed e)
  unfolding apply_each
  apply_each-failed m ms w left e h = ground arith

  apply_each-done :
      (m : Migration) (ms : List Migration) (w left : World db) (b : Bool)
      → apply_one db others accept m w ≡ (left, done b)
      → apply_each db others accept (m ∷ ms) w
        ≡ noted db others accept m.id b (apply_each db others accept ms left)
  unfolding apply_each
  apply_each-done m ms w left b h = ground arith

  apply_one-may :
      (m : Migration) (w : World db)
      → MayRun accept m
      → apply_one db others accept m w ≡ transact db others accept m (others w)
  unfolding apply_one needs_backfill
  apply_one-may m w may = ground (arith, may.filled_in, may.safe)

  -- The pass over migrations of which the first may run.
  apply_each-may :
      (m : Migration) (ms : List Migration) (w : World db)
      → MayRun accept m
      → ((left : World db) → IsPass ms left (apply_each db others accept ms left))
      → IsPass (m ∷ ms) w (apply_each db others accept (m ∷ ms) w)
  unfolding transact
  apply_each-may m ms w may ih =
      let tried = apply_one-may m w may in
      elim (Bool-cases (is_applied db m.id (others w))) [
        | inl e ↦
            let is : transact db others accept m (others w) ≡ (others w, done false) =
              ground arith in
            rw (apply_each-done m ms w (others w) false (tried ∙ is))
              (noted-passed m ms w _ may e (ih (others w)))
        | inr e ↦ elim (Sum-cases (run_up db m (others w).tables)) [
          | inl (line, refused) ↦
              let is : transact db others accept m (others w)
                  ≡ (others w, failed (statement_failed m.id line)) =
                ground arith in
              rw (apply_each-failed m ms w (others w) _ (tried ∙ is))
                (at_refused m ms w line may e (run_up-Refuses db m (others w).tables line refused))
          | inr (tables, ran) ↦
              let left = recorded m tables (others w) in
              let is : transact db others accept m (others w) ≡ (left, done true) = ground arith in
              rw (apply_each-done m ms w left true (tried ∙ is)) (
                noted-run m ms w tables _ may e (run_up-Executes db m (others w).tables tables ran)
                  (ih left))
        ]
      ]

  pub apply_each-IsPass :
      (ms : List Migration) (w : World db) → IsPass ms w (apply_each db others accept ms w)
  unfolding apply_each apply_one needs_backfill
  apply_each-IsPass [] w = all_done w
  apply_each-IsPass (m ∷ ms) w = elim (Bool-cases (needs_backfill m.up)) [
    | inl e ↦
        let is : apply_one db others accept m w ≡ (w, failed (backfill_required m.id)) =
          ground arith in
        rw (apply_each-failed m ms w w _ is) (at_backfill m ms w (ground arith) (ground arith))
    | inr e ↦ elim (Bool-cases (m.meta.destructive && not accept)) [
      | inl e' ↦
          let is : apply_one db others accept m w ≡ (w, failed (destructive_blocked m.id)) =
            ground arith in
          rw (apply_each-failed m ms w w _ is) (at_destructive m ms w (ground arith) (ground arith))
      | inr e' ↦
          apply_each-may m ms w
            (record {
              filled_in = elim (Bool-cases (contains_str m.up (str "RUPRIZZLE:BACKFILL"))) [
                | inl t ↦ inr (ground arith)
                | inr f ↦ inl f
              ];
              safe = elim (Bool-cases m.meta.destructive) [
                | inl t ↦ inr (ground arith)
                | inr f ↦ inl f
              ];
            })
            (λ left. apply_each-IsPass ms left)
    ]
  ]

  applied-recorded :
      (m : Migration) (tables : db.Tables) (w : World db) (id : Text)
      → is_applied db id w ≡ true
      → is_applied db id (recorded m tables w) ≡ true
  unfolding is_applied track is_live
  applied-recorded m tables w id h = ground (
    arith,
    lookup-insert m.id id (record { checksum = m.meta.checksum; rolled_back = false }) w.tracking,
  )

  applied-recorded_self :
      (m : Migration) (tables : db.Tables) (w : World db)
      → is_applied db m.id (recorded m tables w) ≡ true
  unfolding is_applied track is_live
  applied-recorded_self m tables w = ground (
    arith,
    lookup-insert m.id m.id (record { checksum = m.meta.checksum; rolled_back = false }) w.tracking,
  )

  module _
      (keeps : (id : Text) (w : World db)
        → is_applied db id w ≡ true
        → is_applied db id (others w) ≡ true) where
    pub Applies-keeps :
        (ms : List Migration) (w left : World db) (ids : List Text) (id : Text)
        → Applies ms w ids left
        → is_applied db id w ≡ true
        → is_applied db id left ≡ true
    Applies-keeps [] w left ids id (all_done _) h = h
    Applies-keeps (m ∷ ms) w left ids id (passed_over _ _ _ _ _ may there r) h =
        Applies-keeps ms (others w) left ids id r (keeps id w h)
    Applies-keeps (m ∷ ms) w left ids id (was_run _ _ _ _ ids' tables may absent ran r) h =
        Applies-keeps ms (recorded m tables (others w)) left ids' id r
          (applied-recorded m tables (others w) id (keeps id w h))

    pub Applies-All :
        (ms : List Migration) (w left : World db) (ids : List Text)
        → Applies ms w ids left
        → All (λ m. is_applied db m.id left ≡ true) ms
    Applies-All [] w left ids (all_done _) = tt
    Applies-All (m ∷ ms) w left ids (passed_over _ _ _ _ _ may there r) =
        (Applies-keeps ms (others w) left ids m.id r there, Applies-All ms (others w) left ids r)
    Applies-All (m ∷ ms) w left ids (was_run _ _ _ _ ids' tables may absent ran r) = (
      Applies-keeps ms (recorded m tables (others w)) left ids' m.id r
          (applied-recorded_self m tables (others w)),
      Applies-All ms (recorded m tables (others w)) left ids' r,
    )
