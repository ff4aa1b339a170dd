-- ===== src/Distribute.antt =====
-- `distribute` of lib.rs: the plan of a release, its effects on storage, and the payouts.
pub mod Plan
pub mod Payout
