-- ===== src/Tests.antt =====
-- The tests: each theorem applied to concrete data, and runs of the code.
mod Relay
mod Pairing
mod Delivery
mod Messages
mod Client
mod Disk
mod Engine
mod Peer
mod Scheduler
