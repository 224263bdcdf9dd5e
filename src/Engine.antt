-- ===== src/Engine.antt =====
-- The client engine (packages/torchat-client-engine): one actor that owns the database and runs each
-- command of the runtime in a transaction.
pub mod Errors
pub mod State
pub mod Transaction
pub mod Responses
pub mod Pipeline
pub mod Kept
pub mod Replay
pub mod Atomicity
pub mod Problems
