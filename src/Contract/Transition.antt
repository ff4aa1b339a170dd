-- ===== src/Contract/Transition.antt =====
-- The state machine of a will, and the theorem of each entry point that moves a will through it.
pub mod Rules
pub mod Frame
pub mod Lifecycle
pub mod Guardian
pub mod Settings
pub mod Updates
pub mod Consent
pub mod Calls
pub mod Traces
