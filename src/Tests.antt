-- ===== src/Tests.antt =====
-- Runs at concrete inputs, and an instance of each theorem that has hypotheses.
mod Sample
mod Lifecycle
mod Payouts
mod Records
mod Changes
mod Claims
mod Creations
