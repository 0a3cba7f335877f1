-- ===== src/Tests.antt =====
-- Concrete runs of the operations, at which the theorems apply.
pub mod Coordination
pub mod Operations
pub mod Chunking
pub mod Storage
pub mod Indexing
pub mod Legacy
pub mod Discovery
pub mod Watching
pub mod Reports
pub mod Api
pub mod Working
