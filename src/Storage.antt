-- ===== src/Storage.antt =====
-- storage.rs: the storage operations, one child module for each kind of entry.
pub mod Archive
pub mod Stats
pub mod Wills
pub mod Indexes
pub mod Votes
pub mod History
