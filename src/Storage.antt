-- ===== src/Storage.antt =====
-- db.py: the SQLite index, its repositories, files, chunks and pending deletions.
pub mod Files
pub mod Repositories
pub mod Lookup
pub mod Chunks
