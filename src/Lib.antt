-- ===== src/Lib.antt =====
-- Blackshard is an anti-virus service for Windows with a minifilter driver. This library models the
-- parts of it that decide: what is malicious, what may be reused, and what state protection is in.
--
-- Paths are those of the repository. Each module is named after the part that it models:
--
--   Prelude       shared names: Boolean tests, lists over native numbers, finite maps, integers.
--   Readiness     src/readiness.rs: `ProtectionComponents::mandatory_failures`, `derive_readiness`,
--                 and `ReadinessMonitor` (`new`, `update_state`, `report_components`, `transition`).
--                 Derive is about what a report must say for the state Ready, Monitor about all
--                 sequences of calls, Timeline what the history looks like.
--   VerdictCache  src/verdict_cache.rs: `CachedVerdict::is_cacheable`, `VerdictCache::{new, get,
--                 insert}`. `entries` is an association list, `recency` a list in the order of its
--                 keys. Lru is the abstract cache, one list of uses; Links and Refine tie the tables
--                 to it; Runs goes over all sequences of calls, Hits says what a hit is worth.
--   Behavior      src/behavior.rs: `is_protected_document` and `RansomwareMonitor::observe_at` with
--                 `evict_stale`. Monitor has the operations, Files and Table the invariants of one
--                 process and of the table, Decisions what an alert and a block mean, Isolation what
--                 an observation leaves of the other processes.
--   Vba           src/vba.rs: `decompress`, with one function per loop. Steps and Limits are about
--                 what the loops do to the output and the position, Copies about copy tokens, Stored
--                 about containers that are not compressed.
--   ScanManager   src/scan_manager.rs: the operations on `ScanProgress`, of `ScanJob::cancel`, of
--                 `run_scan`, `enqueue_file` and `scan_worker`; with the fields of the records of
--                 src/detection.rs, src/quarantine.rs and src/config.rs that they read. System has the
--                 threads as steps on what they share, the panics of workers included; Balance and Counts are about the counters,
--                 Threads and Finish about the end of a scan.
--   Shards        src/shards.rs: `load`, `lookup`, `learn`, `forget` on the store. Bounds is about what
--                 the store can hold, Lookup about what is found.
--   Shortcut      src/lnk.rs: `is_shortcut`, `Cursor`, `local_base_path`, `parse`, and `build` of its
--                 tests. RoundTrip is about what is read of a shortcut that `build` made.
--   Similarity    src/similarity.rs: `SimilarityEngine::{new, scan}`, `compute_sketch`, `mix64` and
--                 `sketch_similarity_basis_points`. Scores is about the score, Sets and Sketches
--                 about which hashes a sketch keeps, Matches about the result of a scan.
--   Logical       src/clamdb/logical.rs: `Expr` with `subsignatures`, `holds`, `required_bytes`;
--                 Logical.Parser has `Expr::parse` and the methods of `Parser`. Strength is about the
--                 bytes that a signature requires; Ascending, Parsed, Numbers, Accepts say what the
--                 parser returns; Fuel that its loop ends; Print, Atoms, Sequences, RoundTrip that it
--                 reads back what is printed.
--
--   Pattern       src/clamdb/pattern.rs: `Target::applies_to`, `PeLayout::resolve` and the types.
--                 Offsets has `parse_offset`, Hex `parse_hex`, Anchor `best_anchor`, Lines
--                 `parse_line` and `build_signature`, Pieces `parse_target_block` and `parse_piece`,
--                 Layout `PeLayout::read`, Set `PatternSet::{ingest, ingest_logical}`, Users the
--                 counting sort of `build`, Verify `verify`, Scan and Judge `scan_counting`. Matches
--                 says what an occurrence is; Right, Left, Found and Budget are about `verify`, Window
--                 about the anchor, Usable, Shared, Described and Sets about what lines leave in a set, Entries,
--                 Starts and Sorted about the counting sort, Lowest, Tidy, Clean, Backed and Sound
--                 about a scan. The automaton over the anchors is the parameter `Automaton`.
--   Cvd           src/clamdb/cvd.rs: `CvdHeader::parse`, `verify_signature`. Tar has `unpack_tar` with
--                 `skip`, `tar_string`, `tar_octal`; Paths `safe_entry_name`, Reader `read_full`, Extract
--                 `read_header` and `extract`. A reader is an argument, and so is the decompressor.
--                 Plain is about the names of the files, Streams about the calls of the reader, Enough
--                 about the end of the loops, Powers about `modpow`, Digits about the numbers that
--                 texts spell, Signed about what a good signature is.
--   Rollback      src/rollback.rs: the index of `RollbackVault` with `preserve` (claim, then settle or
--                 abandon), `restore` and `purge_expired`. System has the threads as steps, Sums and
--                 Balance say what the total of the bytes is.
--   History       src/history.rs: `EventHistory` with `append`, `rotate_if_needed`, `recent` and
--                 `clear`. Newest is about what is read of a log that was written.
--
-- How the code is rendered. Integers are natural numbers; where an operation of the source saturates
-- or is bounded, the bound is written out. The clock is an argument. A mutex or a read-write lock is
-- left out where every method holds it from its first to its last access of the state. A loop that
-- follows its input is a recursion on it; the loop of the expression parser has fuel, one more than
-- the bytes left (see Logical.Parser.Fuel), and so have those of `decompress`, one more than the bytes
-- of the input (see Vba.Limits). The loop of
-- `parse_hex` and the one of `best_anchor` over a part have as fuel the bytes of the text or of the part,
-- of which each round takes one at least. The loop over the entries of an archive
-- has more than its bytes, each loop over a body the bytes that it still wants (see Cvd.Tar.Enough).
-- The merge of two sketches has the sum of their lengths as fuel, the
-- walk over shingles the length of the file. The recursion of the expression parser on the depth
-- counts down from the source's limit. Threads are steps on the state that they share. Counters that a
-- run cannot bring near their width (the cache's 64-bit tick, the counts of a scan, the total of the
-- vault) are not reduced. Where a subtraction of the source may go below zero, both builds are
-- modelled, the one whose overflow checks panic and the one that wraps round (see Rollback). A thread
-- may panic between two of its steps; what was changed before stays.
--
-- Not modelled: the Windows interface of the program (service, driver port, registry, signatures of
-- files, COM), its user interface, its downloads and its file I/O, since these are calls of other
-- systems; the C driver in src/driver and the scripts, which are not Rust. Of the logic, the engine,
-- the index of signatures, the quarantine
-- and the pipe's messages have no module here.
pub mod Prelude
pub mod Readiness
pub mod VerdictCache
pub mod Logical
pub mod Behavior
pub mod Vba
pub mod Similarity
pub mod Rollback
pub mod History
pub mod ScanManager
pub mod Shards
pub mod Shortcut
pub mod Pattern
pub mod Cvd
