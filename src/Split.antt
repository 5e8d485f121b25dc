-- ===== src/Split.antt =====
-- Bundled splits: reads of a file inside a split object.
pub mod Directory
pub mod Bundle
mod Tests
