-- ===== src/Lib.antt =====
-- rSearch: a log search engine. This library models the parts of its Rust crates that carry the
-- durability and read paths, with the theorems that make them correct.
--
-- Parts and files.
--   Base: names shared by all parts: lists, byte fields, ordered maps, signed numbers, comparisons.
--   Wal: the write-ahead log of crates/rsearch-ingest/src/wal.rs. Wal/Frame.antt has the record
--     format and its parser (`SegmentCursor::advance`, `record`, `WalReplay`); Wal/Log.antt has the
--     state (`WalInner`, `Wal`, the segment files with their synced lengths) and the operations
--     `open`, `append_batch`, `rotate`, `confirm`, `collect_confirmed`. `append_batch` is three
--     steps, as its locks cut it: write_phase, finish, commit.
--   Split: reads of a file inside a split object, crates/rsearch-index/src/storage_directory.rs.
--     Split/Directory.antt has `fetch` (runs, read-ahead, chunks, pieces), Split/Directory/Read.antt
--     has `read` over a block cache that is an interface. Split/Bundle.antt has the split object of
--     crates/rsearch-index/src/split_file.rs (`write_bundle`, `parse_footer_tail`) and the footer's
--     reading of crates/rsearch-index/src/reader.rs (`open_footer`).
--   Search: field sorts of crates/rsearch-search/src/sort.rs, and the time bounds and ranges of
--     query_dsl.rs beside it. Search/Sort.antt has the order of hits (`cmp_hits`), Search/Column.antt the keys of a
--     segment (`SegKey`, `SegAccessor`), Search/Collector.antt the collector (`for_segment`,
--     `collect`, `harvest`, `merge_fruits`), over the bounded heap of Search/TopK.antt;
--     Search/Clauses.antt has the parsing of a request's sort (`SortField::parse`, here parse_field,
--     and `SortSpec::parse`, here parse_spec), Search/Resolve.antt `resolve_sort`,
--     Search/Paging.antt has the reported sort values and the cursor (`FieldCursor::parse`, here
--     parse_cursor), Search/Query.antt `scan_time_bounds`, Search/Query/Range.antt `translate_range`.
--   Exclusions: the tombstones of crates/rsearch-index/src/exclusions.rs: `ExclusionSet` with
--     `extended` and `contains` (here is_excluded), `apply_tombstones`, and in Exclusions/Walk.antt
--     the `SortedDocSet`.
--   Cache: the bookkeeping of the disk tier of crates/rsearch-index/src/cache.rs: `touch`, `forget`,
--     and what `insert` does under the lock, with its loop of evictions.
--   Storage: the replicated store of crates/rsearch-storage/src/replicated.rs, at one key: put,
--     put_file, fan_out with its quorum and its rollback, get, size, delete.
--   Control: the choice of a merge group in crates/rsearch-server/src/control.rs.
--
-- Interaction. The ingest pipeline appends to the log before it acknowledges and confirms when a
-- split is published; a split is put into the object store, which replicates it; searches read the
-- split through the directory's blocks; the control plane merges small splits. A search prunes the
-- splits by the time bounds of its query, leaves out the excluded documents of each, collects a page
-- per segment and merges the pages; the last hit's sort values are the cursor of the next page.
--
-- Conventions. Numbers are ℕ; a w-bit field keeps its wrap-around (`% 2 ^ w`), and i64's
-- saturation and the wrap of its sums in a release build are written out. u64 offsets and counters of the log and the directory are taken not to
-- overflow. An i64 sequence number is ℤ. A `BTreeMap` is an association list in ascending order.
-- Not under this repository, and so parameters: crc32 and the lossy UTF-8 decoding of the log
-- (`External`), the object store's ranged read (`Store`), the answers of the local root, the
-- placement tracker and the peers (`Env`), the JSON of a split's metadata, the columns, dictionaries
-- and postings of the index, f64's conversions and texts (an f64 is the i64 that `total_cmp` compares
-- in its place). The grammar of dates and the unit of an epoch, which are code of the repository that
-- is not modelled, are parameters as well. What other threads do enters as steps between the phases
-- of a call: a second appender of the log, other readers of a block.
--
-- Fuel. `replay_loop` and `count_loop` take the length of the file and one more, which is enough:
-- each record takes at least ten bytes. `evict_loop` takes one more than the number of ticks,
-- `pieces` the length of its bytes, `cut_run` the number of blocks of its run. `read_loop` counts
-- passes: a pass that waits for other readers has no bound in the code either. The walk over excluded
-- documents takes fuel for those ahead of it and one more.
--
-- Not modelled: the HTTP and SQL layers, the tantivy index and query building but for the ranges of times, the opening of a
-- segment's columns, the parsers of the ingest formats, mapping and
-- documents, file-system errors of the log's writes and of the bundle's.
pub mod Base
pub mod Cache
pub mod Control
pub mod Exclusions
pub mod Search
pub mod Split
pub mod Storage
pub mod Wal
