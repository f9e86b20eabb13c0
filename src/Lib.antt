-- ===== src/Lib.antt =====
-- file-reaper (TrashRadar): a desktop program that finds what can be deleted, moves it into a
-- quarantine on the same volume, restores it, and purges it when it expires.
--
-- The parts, and the files that model them:
-- - Outcome: core/domain/src/error.rs. `Result`, and operations that keep state and may fail.
-- - Platform, PathKey: `cfg!` and core/domain/src/path_key.rs, the keys of paths.
-- - Quarantine: core/domain/src/quarantine.rs, the entries of the manifest and their life cycle.
--   Quarantine/Ports has the two ports of core/app/src/ports.rs, `QuarantineFs` and
--   `QuarantineManifest`, as records of operations. Quarantine/Rows has what can be seen of a manifest
--   (a row for each identifier, and the audit) and Quarantine/Gateway what can be seen of a disk (what
--   each path names, and its bytes), with the laws that the use cases rely on. The laws of the disk
--   say nothing of the paths below those that an operation is given, since a folder moves as a whole.
-- - Quarantine/Reap, Restore, Purge, Recovery: the use cases of core/app/src/quarantine.rs
--   (`TransactionalReaper`, `QuarantineRestorer`, `ManualPurger` with `QuarantineSweeper`, and
--   `QuarantineRecovery`), over any gateway and any manifest. Each keeps the state that an error
--   leaves, so a theorem can speak of what a failure in the middle has done.
--   Quarantine/Destination has `restore_destination`, and Quarantine/Guard `QuarantineGuard` with the
--   normal form of paths.
-- - Category, Aggregate, Aggregator: core/domain/src/category.rs, core/domain/src/aggregate.rs and
--   core/app/src/aggregator.rs, the bytes that can be freed, over all files and by category.
-- - Decisions: core/app/src/decisions.rs, keeping and marking files in the hot index, and
--   Decisions/InMemory the same over the index of Index/Memory.
-- - Duplicates: core/domain/src/duplicates.rs, the groups of the cascade and the file that is kept.
--   Duplicates/Confirmed: core/app/src/duplicates/keep_policy.rs.
--   Gate: core/app/src/duplicates/volume_limit.rs, the limit of reads on one volume. Gate/Callers
--   has the callers as a step relation, whose state has the permits that are alive.
-- - Index: core/infra/index-memory/src/lib.rs. Index/Packing has the packed records, Index/Interner
--   the pools of strings, and Index/Memory the index that puts both together. What the index holds
--   is described as a list of records, and what a pool holds as a list of strings.
-- - Usn: core/infra/scan-usn/src/record.rs, the parser of the journal of changes. Usn/Layout has the
--   layout of the records apart from the parser.
-- - Delta: core/app/src/usn_apply.rs and core/app/src/usn_fallback.rs. Delta/Plan makes the
--   mutations of the index from the changes that Usn reads, Delta/Sync applies them over any index
--   and any store (Delta/Ports) and then moves the cursor of the journal.
-- - Tests: a disk and a manifest in memory that keep the laws, and examples.
--
-- Conventions. A text is the list of its code points. Sizes are `u64`: `saturating_add` and
-- `saturating_mul` stop at 2 ^ 64 - 1, and a plain sum is taken modulo 2 ^ 64. A `HashMap` whose
-- order the code does not rely on is a list in the order of insertion. The closures that resolve
-- the path of a surrogate are functions from an entry to a `Result`. In Index the strings are lists
-- of their bytes, as the offsets of the code count them; identifiers and offsets are taken modulo
-- 2 ^ 32. A `HashMap` that is asked for one key only is a function or a list of pairs.
--
-- Fuel. `restore_attempts` has the number of attempts that are left as fuel. `restore_one` gives it
-- `restore_suffix_max_attempts` (100), and the counter of the code stops at the same bound. The
-- digits of a number have 10 or 20 as fuel, which a `u32` and a `u64` do not exceed. The loop that
-- removes doubled separators has the length of the text as fuel: each round shortens the text. The
-- loop of the journal parser has the number of bytes as fuel, and fewer turns are enough. The
-- loop of `acquire` may wait for ever; it is run on the turns that its caller gets.
--
-- Not modelled: the texts of errors, the other adapters under core/infra (their laws are
-- hypotheses), `search` of the index, the default `for_each_mut` that the index overrides, the
-- scanners, the detectors, the previews, the shell and the user interface. `std::path`, the decoding
-- of UTF-16 and the probing of files are parameters.
pub mod Prelude
pub mod Outcome
pub mod Platform
pub mod PathKey
pub mod Quarantine
pub mod Category
pub mod Aggregate
pub mod Aggregator
pub mod Decisions
pub mod Duplicates
pub mod Gate
pub mod Index
pub mod Usn
pub mod Delta
pub mod Tests
