-- ===== src/Working.antt =====
-- worker.py: what a worker does with a job that it has claimed.
pub mod Execute
pub mod Releases
