-- ===== src/Views.antt =====
-- lib.rs: the entry points that only read, and the audit of the protocol statistics.
pub mod Stats
pub mod Pages
pub mod Deadline
