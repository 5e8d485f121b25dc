-- ===== src/Search.antt =====
-- Searches: the order of hits, the page of a search, and the time bounds of a query.
mod Tests
pub mod Query
pub mod Paging
pub mod Sort
pub mod TopK
pub mod Column
pub mod Clauses
pub mod Resolve
pub mod Collector
