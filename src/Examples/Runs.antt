-- ===== src/Examples/Runs.antt =====
-- The theorems about crates/migrate/src/runner.rs on a small migration, over a database that keeps
-- the list of the statements it has run.
use mathlib.Core.Logic.{ite}
use ruprizzle_orm.Base.{
  ◌≤◌, length, dec_text, lookup, insert, refl, remove, ℕ, ◌≡◌, Bool, true, false, ◌&&◌, ◌||◌, List,
  [], ◌∷◌, ◌++◌, none, some, ltb, ◌==◌, All, arith, str,
}
use ruprizzle_orm.Suggest.{Chars}
use ruprizzle_orm.Migrate.Split.{
  split_loop, split_statements, round, starts, finish, trim, trim_start, trim_end,
}
use ruprizzle_orm.Migrate.Split.Printed.{
  Piece, plain, quoted, dollared, line_comment, block_comment, IsPiece, print_statements, split_all,
  split_statements-print,
}
use ruprizzle_orm.Migrate.Split.Fuel.{Run, split_statements-Run}
use ruprizzle_orm.Migrate.Runner.{
  Migration, Database, World, apply_all, done, apply_each, apply_one, transact, noted, pending,
  mismatch, is_applied, is_live, needs_backfill, run_up, run_statements, track, find_migration,
}
use ruprizzle_orm.Migrate.Runner.Again.{apply_all-again}
use ruprizzle_orm.Migrate.Rename.{contains_str, starts_with}
use ruprizzle_orm.Migrate.Runner.Outcome.{IsOutcome, apply_all-IsOutcome}

abbrev ascii_letter : ℕ → Bool
ascii_letter c = (ltb 64 c && ltb c 91) || (ltb 96 c && ltb c 123)

abbrev ascii_word : ℕ → Bool
ascii_word c = ascii_letter c || (ltb 47 c && ltb c 58)

abbrev ascii_space : ℕ → Bool
ascii_space c = (c == 32) || (ltb 8 c && ltb c 14)

-- `a'x;'`, `$$;$$ b` and `--;` with `/*;*/c`.
abbrev script : List (List Piece)
script =
    (plain 97 ∷ quoted (120 ∷ 59 ∷ []) ∷ [])
    ∷ (dollared (59 ∷ []) ∷ plain 32 ∷ plain 98 ∷ [])
    ∷ (line_comment (59 ∷ []) ∷ block_comment (59 ∷ []) ∷ plain 99 ∷ [])
    ∷ []

script-IsPiece : All (All IsPiece) script
script-IsPiece = (
  (ground arith, (ground arith, tt)),
  (
    (ground arith, (ground arith, (ground arith, tt))),
    ((ground arith, (ground arith, (ground arith, tt))), tt),
  ),
)

split_statements-print_example :
    split_statements ascii_letter ascii_word ascii_space (print_statements script)
    ≡ split_all ascii_letter ascii_word ascii_space script
split_statements-print_example =
    split_statements-print ascii_letter ascii_word ascii_space script script-IsPiece

split_statements-Run_example :
    (n : ℕ) × (n ≤ length (str "a; b"))
    × Run ascii_letter ascii_word ascii_space n
        (str "a; b")
        []
        (split_statements ascii_letter ascii_word ascii_space (str "a; b"))
split_statements-Run_example = split_statements-Run ascii_letter ascii_word ascii_space (str "a; b")

-- Refuses the statement `bad`.
abbrev logged : Database
logged = record {
  Tables = List Chars;
  execute = λ sql log. ite (dec_text sql (str "bad")) none (some (log ++ (sql ∷ [])));
  compute_checksum = λ up. up;
  is_alphabetic = ascii_letter;
  is_alphanumeric = ascii_word;
  is_whitespace = ascii_space;
}

abbrev two_migrations : List Migration
two_migrations =
    record {
      id = str "1";
      up = str "a; b";
      down = [];
      meta = record {
        id = str "1";
        checksum = str "a; b";
        ruprizzle_version = str "0.1.0";
        destructive = false;
      };
    }
    ∷ record {
      id = str "2";
      up = str "c; bad; d";
      down = [];
      meta = record {
        id = str "2";
        checksum = str "c; bad; d";
        ruprizzle_version = str "0.1.0";
        destructive = true;
      };
    }
    ∷ []

abbrev fresh : World logged
fresh = record { tables = []; tracking = [] }

apply_all-IsOutcome_example :
    IsOutcome logged
      (λ w. w)
      true
      two_migrations
      fresh
      (apply_all logged (λ w. w) true two_migrations fresh)
apply_all-IsOutcome_example =
    apply_all-IsOutcome logged (λ w. w) true (λ id w h. h) two_migrations fresh

-- The first of the migrations alone.
abbrev one_migration : List Migration
one_migration =
    record {
      id = str "1";
      up = str "a; b";
      down = [];
      meta = record {
        id = str "1";
        checksum = str "a; b";
        ruprizzle_version = str "0.1.0";
        destructive = false;
      };
    }
    ∷ []

one_migration-run : (apply_all logged (λ w. w) false one_migration fresh).1 ≡ done (str "1" ∷ [])
unfolding apply_all apply_each apply_one transact noted pending mismatch is_applied is_live
    needs_backfill run_up run_statements split_statements split_loop round starts finish trim
    trim_start trim_end contains_str starts_with lookup track insert remove dec_text
one_migration-run = refl

one_migration-found :
    find_migration (str "1") one_migration
    ≡ some (record {
      id = str "1";
      up = str "a; b";
      down = [];
      meta = record {
        id = str "1";
        checksum = str "a; b";
        ruprizzle_version = str "0.1.0";
        destructive = false;
      };
    })
unfolding find_migration
one_migration-found = ground arith

apply_all-again_example :
    apply_all logged
      (λ w. w)
      false
      one_migration
      (apply_all logged (λ w. w) false one_migration fresh).0
    ≡ ((apply_all logged (λ w. w) false one_migration fresh).0, done [])
apply_all-again_example =
    apply_all-again logged one_migration (λ w. w) false (λ w h. h) (λ id w h. h) fresh
      (str "1" ∷ []) ((one_migration-found, refl), tt) one_migration-run
