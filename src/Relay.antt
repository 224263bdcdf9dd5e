-- ===== src/Relay.antt =====
-- The rendezvous relay: services/torchat-relay/src/main.rs over the frames of
-- packages/torchat-relay-protocol/src/lib.rs.
pub mod Frames
pub mod State
pub mod Code
pub mod CodeLaws
pub mod Slots
pub mod Bridges
pub mod Actor
pub mod Accounts
pub mod Invariant
pub mod Handlers
pub mod Safety
pub mod Drawing
pub mod History
pub mod Meeting
pub mod Expiry
pub mod Authority
