-- ===== src/Chunking.antt =====
-- chunking.py: a file of a repository is cut into chunks, at its symbols or in line windows.
pub mod Texts
pub mod Language
pub mod Tree
pub mod Windows
pub mod Chunker
pub mod Walk
pub mod Cover
pub mod Sizes
pub mod Whole
