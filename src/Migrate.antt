-- ===== src/Migrate.antt =====
-- crates/migrate: the changes between two schemas.
pub mod Change
pub mod Rename
pub mod Diff
pub mod Split
pub mod Runner
