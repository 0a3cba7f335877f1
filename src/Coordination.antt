-- ===== src/Coordination.antt =====
-- src/repomesh/coordination: the tables, and what each method of the repositories does to them.
pub mod Schema
pub mod Jobs
pub mod Workers
pub mod Claims
pub mod Leases
pub mod Watches
pub mod Invariant
pub mod Evolution
pub mod Claimed
pub mod Idempotency
pub mod World
pub mod Sessions
pub mod Endings
pub mod Successors
pub mod Debounce
pub mod Reports
pub mod Pages
pub mod Legacy
