-- ===== src/Lib.antt =====
-- ruprizzle: the query compiler of the ORM's runtime and what it stands on, its query cache, and the
-- comparison of schemas that migrations start from.
--
-- The program turns typed filters, orders and queries into SQL text with parameter markers and a
-- list of values. Its parts, and the files that model them:
--
-- - crates/dialect: Dialect is the three dialects with the operations that the compiler calls
--   (`quote_ident`, `placeholder`, `returning_supported`, `upsert_clause`). A `match` on
--   `dialect.name()` is a match on the constructor. Dialect/Quoting is a reader of identifiers.
-- - crates/runtime/src/value.rs, filter.rs, json.rs, order.rs, join.rs, aggregate.rs: Compile/Value and
--   Compile/Filter are the values and the trees. The types of other crates (floats, decimals, dates,
--   JSON documents) are the parameter `Foreign`; of a document the model takes only its kind, the
--   numbers it answers and its keys.
-- - crates/runtime/src/compile.rs: Compile/State is the `Compiler`, whose two buffers are a record and
--   whose methods are functions on it; `a; b` is `a ⨾ b`. Compile/Subquery is `renumbered` and
--   `push_subquery`; Compile/Json, Compile/JsonPredicate, Compile/Array, Compile/Spatial and
--   Compile/Predicate are `push_filter` and the methods below it; Compile/Clauses is the code that the
--   statements repeat; Compile/Select, Compile/Write and Compile/Compound are the public functions.
-- - crates/runtime/src/filter.rs: Filters is the combinators, Filters/Meaning SQL's three-valued logic.
-- - crates/runtime/src/query.rs: Query is `SelectQuery` up to `to_sql`.
-- - crates/runtime/src/cache.rs: Cache is `InMemoryCache`, a record of its two maps, with one function for
--   each method; what the clock answers is an argument, and so is the key that a map lists first. Cache/Index
--   and Cache/Indexed are about the tag index, Cache/Ideal about an ideal cache, Cache/Capacity and
--   Cache/Reads about sizes and reads.
-- - crates/core/src/ir.rs and span.rs: Ir is the schema, Ir/Equality its derived equality, with floats as
--   their bits.
-- - crates/core/src/suggest.rs: Suggest is `distance` and `closest`, for the names that a diagnostic
--   suggests; `char::to_lowercase` is a parameter.
-- - crates/migrate: Migrate/Change is the changes, Migrate/Diff the diff of two schemas, and Migrate/Rename the
--   rename suggestions. The diff is read by the planner of plan.rs, which is not modelled. Migrate/Split is
--   `split_statements` of runner.rs, on a fuel that is the length of the text, and Migrate/Runner its
--   `apply_all`, `verify_checksums` and `resolve`: a step on the tables and the tracking rows for each
--   migration, with the database and the other sessions as parameters. Migrate/Runner/History and
--   Migrate/Runner/Passes say, as relations apart from the code, which statements are executed or
--   refused and which migrations are run, passed over or stopped at.
--
-- The modules named Numbering are about the markers of the statements, Compile/Binds about their
-- values, Compile/Binds/Carried about both at once, Query/Refused about the queries that do not compile,
-- Query/Deleted about soft delete, and Examples applies the theorems to concrete inputs. Distance is
-- edit scripts and the table of their least lengths, which the two edit distances of the program fill.
-- Migrate/Diff/Columns reads the changes of a model as columns gained and lost; its `columns_after` makes them all at once.
--
-- Compile/Markers is the reader of markers that the statements are measured by: on PostgreSQL the
-- numbers of the `$n` from left to right, on SQLite and MySQL the number of `?`. `IsStatement` says of a
-- compiled statement that these are 1, …, n for its n values and that it begins with no digit, so that
-- statements can be joined. The compiler does not look at the names it is given, so that a name with a
-- `$` or `?` in it would be counted as a marker; `IsName` excludes those names, and the
-- theorems take it as a hypothesis on every name, JSON key and raw part.
--
-- A text is the list of its bytes. Loops over bytes run on a fuel that is the length of the text; each
-- round consumes a byte, so it is enough. Numbers are unbounded: the `usize` and `u64` counters
-- of the source are taken below 2^64. `$0` in a subquery behind no value, on which the source's
-- subtraction underflows, is read with a subtraction that stops at 0.
--
-- A map with text keys is an association list. The entries of the cache and the relations of a schema are
-- in a `HashMap`, whose order is a parameter; those of a schema's `IndexMap`s are in order. Each operation of
-- the cache runs alone, with no lock poisoned; `prune_expired`, which reads under one lock and removes under
-- another, is one step. An index out of range in the tables of the edit distances is `none`.
--
-- Not modelled: execution, pools, decoding and the other I/O; the code generator, the parser, the command
-- line and the language server; the recording of statements in `query_manifest`; the planner of
-- migrations, and the rollback and the reset of a database, which this library does not reach yet. A migration is
-- applied in a transaction that rolls back whole, also where a database would commit a DDL statement at once.
pub mod Base
pub mod Dialect
pub mod Compile
pub mod Filters
pub mod Query
pub mod Examples
pub mod Cache
pub mod Distance
pub mod Suggest
pub mod Ir
pub mod Migrate
