-- ===== src/Pairing.antt =====
-- The pairing feature of packages/torchat-runtime/src/features/pairing.
pub mod Rules
pub mod Process
pub mod Settle
pub mod Lifecycle
pub mod Merge
pub mod Decisions
