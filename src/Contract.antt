-- ===== src/Contract.antt =====
-- The entry points of lib.rs.
pub mod Fresh
pub mod Hashed
pub mod Clone
pub mod Batch
pub mod Split
pub mod Archive
pub mod Merge
pub mod Renounce
pub mod Renormalize
pub mod Consent
pub mod Settings
pub mod Transition
pub mod Guardian
pub mod Cancel
pub mod Release
pub mod Trigger
pub mod Checkin
pub mod Create
