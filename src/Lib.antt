-- ===== src/Lib.antt =====
-- A model of Blob Yard Core, a self-hosted object and application platform written in Rust, with
-- the theorems that hold of it. The modules follow the crates of the repository.
--
-- Base: what the others share. A `String` or `&str` is the list of its bytes (`Str`), read as
-- UTF-8 where the source asks for characters; a `BTreeMap` or `BTreeSet` is an ascending list;
-- `Result` has the source's error type; a `Vec` used as a stack has its last item at the head.
-- Integers are natural numbers with the source's range tests, saturations and casts written out.
--
-- Manifest.Patterns: the text shapes of crates/blobyard-core/src/application_manifest/patterns.rs.
-- Policy: crates/blobyard-core/src/application_policy.rs, which servers run on every role policy
-- that is pushed. `has_cycle` and `inherited_closure` loop over a work stack; the model gives them
-- one more round than the graph has inheritance edges and the stack has entries, and Policy.Reach
-- has the measure of the work that is left. The panic of a missing map key is a result of its own,
-- `panicked`.
--
-- Contract: the records of crates/blobyard-contract/src. Sqlite: parts of
-- crates/blobyard-repository-sqlite/src. A table is a list of rows, Sqlite.Table has the statements
-- that the source uses with their row counts, and Sqlite.Database the tables with the columns that
-- are read; constraints that a statement may violate are tests of the operation. An operation takes
-- the database and returns the new one, or an error and no database: a transaction that is dropped
-- changes nothing.
--
-- Sqlite.Transfers has one function per operation on uploads (transfers.rs, transfer_*.rs):
-- `reserve`, `renew_upload`, `record_uploaded_bytes`, `complete_upload`, `abort_upload`,
-- `issue_download` and so on, and Sqlite.Transfers.Multipart those on parts. Rows says when the two
-- rows of an upload agree, Paired what an update of both leaves alone, Lifecycle, Arrival, Versions
-- and Attach what each operation does to them, and Steps what any sequence of operations does, and
-- Deleted is about the record of deleted versions. Downloads has the grants of downloads, and
-- Granting is about them.
--
-- Sqlite.Sharing: sharing.rs and sharing_queries.rs over the same tables, with the audit events of
-- lifecycle_audit.rs; Limits and Counting are about their sequences. Sqlite.Retention: the choice
-- of versions of lifecycle_retention_plan.rs; Glob says what a glob means, Matcher is about the
-- memoised matcher, whose calls nest no deeper than the pattern and the text are long together,
-- Newest is about the order of the versions and Plan about the choice.
--
-- Sqlite.Lifecycle: a deletion is planned (`begin_object_deletion`, lifecycle_deletion.rs), its
-- bytes are removed by the caller, and it is finished (`finish_deletion`, with
-- lifecycle_operation.rs); Policies has the retention policies (lifecycle_retention.rs), and Runs
-- the retentions, which plan a deletion by a policy (lifecycle_retention_plan.rs). `deleted` of
-- Sqlite.Database is the join of items and operations that the next version number reads. Purge and
-- Doomed turn the statements of a finish into one removal; Completion and Remaining are about what
-- a finish leaves, Planning, Again and Deleting about what a beginning makes, Deletion, Enforcing,
-- Enforced and Guarded about both, and Numbering and Renumbered about the numbers of later
-- versions. Finishing is about what a finish needs, and Waiting about an operation that waits while
-- others run. Deletion statements follow the foreign keys between the tables of uploads, grants and
-- shares; the links of uploads into inboxes, which a deleted reservation takes along, are in a
-- database of their own (Sqlite.Inboxes) and are left as they are.
--
-- Sqlite.Inboxes: inboxes.rs and inbox_queries.rs, Uploads the uploads into an inbox
-- (inbox_uploads.rs), whose checks (`reservable`, `completable`, `abortable`) and statements
-- (`write_reservation` and so on) are functions of their own, and Rates the windows of
-- inbox_rates.rs. Ledger says what the counters of an inbox are to be, Opening, Settling and
-- Keeping are about the rows, Targets, Reserving, Ending, Owning and Revoking about the operations,
-- Steps about their sequences, to which the arrival of the bytes of an upload belongs;
-- Rates.Windows and Rates.Quota are about the rates. The checks of capacity of the table itself are
-- left to the operations.
--
-- Sqlite.Ci: the checks of a trust for GitHub workflows (ci_validation.rs, and ci.rs of the
-- contract) with the matcher of reference globs; Globs says what a glob means, and Scopes is about
-- the globs of trusts.
--
-- Server.Expiry: crates/blobyard-server/src/expiry.rs, which the routes of shares, inboxes and
-- previews call; Duration says what a duration means. Cli.Parts:
-- crates/blobyard-cli/src/runner/transfers/upload_math.rs and the resume state of resume.rs, whose
-- part sizes are those that the repository expects.
--
-- Not modelled: a disk, a lock or a row conversion that fails, the HTTP layers, the MCP server, the
-- storage adapters and all input and output.
pub mod Base
pub mod Cli
pub mod Manifest
pub mod Policy
pub mod Contract
pub mod Server
pub mod Sqlite
