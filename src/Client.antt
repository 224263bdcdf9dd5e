-- ===== src/Client.antt =====
-- `ClientRuntime` of packages/torchat-runtime: the session, and the commands over the storage.
pub mod Events
pub mod Session
pub mod Storage
pub mod Action
pub mod Pairings
pub mod Requests
pub mod Profile
pub mod ContactRules
pub mod Contacts
pub mod Messages
pub mod Incoming
pub mod Stages
pub mod Staging
pub mod Calls
pub mod Changes
pub mod Receiving
pub mod Memory
pub mod Inversion
pub mod Recipient
