-- ===== src/Watching.antt =====
-- watcher.py: the process that looks at the enabled repositories and submits their jobs.
pub mod Fingerprint
pub mod Watcher
pub mod Looks
pub mod Refines
pub mod Agrees
