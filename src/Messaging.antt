-- ===== src/Messaging.antt =====
-- Message delivery: packages/torchat-runtime/src/message_rules.rs and the message commands of
-- features/messaging/mod.rs.
pub mod Rules
pub mod Outcome
pub mod Sending
pub mod Recipient
pub mod Progress
