-- ===== src/Storage.antt =====
-- Object storage.
pub mod Replicated
mod Tests
