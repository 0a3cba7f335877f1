-- ===== src/Indexing.antt =====
-- indexing.py: one run of the indexer over a repository.
pub mod Exec
pub mod Paths
pub mod Services
pub mod Indexer
pub mod Ensures
pub mod Frame
pub mod Sync
pub mod Quiet
pub mod Counting
pub mod Counts
