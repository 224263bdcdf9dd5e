-- ===== src/Peer.antt =====
-- packages/torchat-peer and common/torchat-core: the command queues of a peer worker and the signed
-- endpoints that peers exchange.
pub mod Endpoint
pub mod Signing
pub mod Queue
pub mod QueueOrder
pub mod Validation
pub mod Acceptance
pub mod Succession
pub mod Transcripts
pub mod Created
