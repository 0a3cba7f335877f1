-- ===== src/Discovery.antt =====
-- repositories.py: which directories are accepted as repositories and which files are indexed.
pub mod Filters
pub mod Files
pub mod Accepted
pub mod Validated
