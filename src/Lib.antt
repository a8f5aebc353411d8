-- ===== src/Lib.antt =====
-- Gerege Nexus App Store: the registry, publisher and review modules and the import command.
--
-- The App Store is three modules of one Nexus instance over one PostgreSQL schema. A publisher
-- (modules/publisher/publisher.go) registers apps and submits versions; a reviewer
-- (modules/review/review.go) publishes, rejects or yanks them; the registry (modules/registry)
-- serves the signed catalogue to platforms, which present a bearer token, and to the public. All
-- three write through the Store of modules/registry/store.go. A snapshot cache, in two tables, holds
-- signed documents by revision: what changes a catalogue for everybody bumps the revision, what
-- changes it for one platform drops that platform's documents.
--
-- Files:
-- - Prelude, Sorting: shared names, lists as result sets, Boolean tests, ORDER BY.
-- - Text: what the code uses of Go's strings on headers and names.
-- - Tables: the rows and the database. db/migrations/00001_platform_audiences.sql and the statements
--   of store.go give the columns.
-- - Contract: the functions outside this repository, as the fields of a record that definitions take:
--   the core's contract package (manifest validation, versions), semver, JSON, SHA-256, Ed25519,
--   base64, the database's collation and its unique constraints on store_apps.
-- - World: statements, transactions, errors and handlers. A statement is a function of the database;
--   a list of faults says which of the statements to come fail, so each error path is a run.
-- - Registry.Signing, Registry.Build, Registry.Cache: modules/registry/catalog.go (NewSigner, Sign,
--   SignDocument; build and platformAllows; Catalog, loadSnapshot, saveSnapshot, pruneSnapshots).
-- - Registry.Platforms: modules/registry/platforms.go. Registry.Operators:
--   modules/registry/platform_handlers.go.
-- - Registry.Publishers, Registry.Apps, Registry.Versions, Registry.Submissions, Registry.Decisions:
--   modules/registry/store.go, by table. Registry.Public and Registry.Headers:
--   modules/registry/public.go.
-- - Publisher: modules/publisher/publisher.go. Review: modules/review/review.go.
-- - Coherence: the contract of the snapshot cache, as a predicate on the database.
-- - System: the requests of the three modules that may change a table, as steps from tables to tables,
--   and the states they reach. System.Handlers and System.Framed carry a predicate on the tables from
--   the store's operations to the requests; System.Replay and System.History are about the versions and
--   the audit trail.
-- - Audits: what the handlers tell nexus.Audit.
-- - Import: cmd/appstore-import/main.go. Import.Session is the transaction on the target (an aborted
--   one answers no further statement), Import.Accounts is ensureTenant, ensureUser and
--   ensureAdminMembership, Import.Transfer is run and copyRows. A query on the source is its rows and
--   the error that ends them. Import.Steps carries a relation on the tables through every run;
--   Import.Landing is about the rows of the publishers and Import.Brought about the copied ones.
-- - Examples: a store with two apps, on which code and theorems are run.
--
-- Correspondence. An operation has the source's name in snake case (DecideVersion is
-- decide_version), takes the clock, the identifiers that the database makes and the random token as
-- arguments, and runs as World -> Result x World; a handler answers a Reply. INSERT ... ON CONFLICT is
-- an update in place or a new row at the end. Maps keyed by an id are association lists. Times are
-- nanoseconds since Go's zero time and revisions are native numbers without a bound. Recursion is
-- structural everywhere, so no fuel is used.
--
-- Not modelled: of cmd/appstore-import/main.go the flags, the connections, the printed report and the
-- texts that wrap errors; the wiring in main.go and modules/registry/registry.go (identifiers,
-- permissions, menus, mounting), the HTTP server, logging, and concurrent requests: each operation runs
-- alone, as one sequence of statements. The import's constraints between tables are among the
-- statements that may be refused.
pub mod Prelude
pub mod Text
pub mod Tables
pub mod World
pub mod Contract
pub mod Sorting
pub mod Registry
pub mod Review
pub mod Publisher
pub mod Coherence
pub mod System
pub mod Import
pub mod Audits
pub mod Examples
