-- ===== src/Wal.antt =====
-- The write-ahead log of crates/rsearch-ingest/src/wal.rs: the record format and its cursor (Frame),
-- and the segments with their bookkeeping (Log).
pub mod Frame
pub mod Log
mod Tests
