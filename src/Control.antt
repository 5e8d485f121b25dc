-- ===== src/Control.antt =====
-- The control plane's decisions.
pub mod Merge
mod Tests
