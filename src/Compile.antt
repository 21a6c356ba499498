-- ===== src/Compile.antt =====
-- crates/runtime/src/compile.rs: the SQL compiler.
pub mod Value
pub mod Filter
pub mod Markers
pub mod State
pub mod Subquery
pub mod Numbering
pub mod Json
pub mod JsonPredicate
pub mod Array
pub mod Spatial
pub mod Predicate
pub mod Clauses
pub mod Select
pub mod Write
pub mod Compound
pub mod Binds
