-- ===== src/Lib.antt =====
-- A verification library for tOrca, a private messenger whose peers talk over Tor. The parts:
--
-- * The relay (services/torchat-relay/src/main.rs, packages/torchat-relay-protocol) lets two
--   strangers meet. One client opens a pairing slot and is given an eight-digit code, the other
--   resolves the code and begins a pairing, and the relay bridges the two until they finish. One
--   actor owns all of its state. Relay/Frames has the protocol, Relay/State the maps, the metrics
--   and the constants (`RelayState`), Relay/Code the codes, Relay/Slots and Relay/Bridges the arms
--   of `process_frame`, Relay/Actor the commands, the expiry and the loop (`run_actor`).
--   Relay/Accounts, Invariant, Handlers, Safety and History prove the bookkeeping, Relay/Authority
--   who may end a pairing, Relay/Meeting and Relay/CodeLaws that a shown code leads to its slot,
--   Relay/Expiry what an expiry leaves, Relay/Drawing that the loop of code draws ends.
-- * The domain (packages/torchat-domain) is the client's vocabulary: Domain, with its words in
--   Domain/Words. Models has the records of packages/torchat-runtime/src/models.rs.
-- * Pairing (packages/torchat-runtime/src/features/pairing) decides what becomes of an invitation:
--   Pairing/Rules is rules.rs, Pairing/Process and Pairing/Settle are process.rs. Pairing/Lifecycle
--   proves the state machine, Pairing/Merge the merge of a local and a remote item,
--   Pairing/Decisions the accept, the expiry and the shown list.
-- * Durable operations (operations.rs and features/operations of the runtime) make a workflow
--   survive a restart: Operations, with the storage trait in Operations/Storage, the commands in
--   Operations/Pairing and Operations/Delivery, proofs in Operations/Lifecycle. They are tried again
--   by Retry (retry.rs, proofs in Retry/Bounds) and report a Changes (changes.rs, Changes/Laws).
-- * Messaging (message_rules.rs, features/messaging): Messaging/Rules, Messaging/Outcome and
--   Messaging/Sending, proofs in Messaging/Progress and Messaging/Recipient.
-- * The client runtime (packages/torchat-runtime/src: runtime.rs and runtime/, session.rs,
--   storage.rs) is `ClientRuntime`, the commands of the client over its storage. Client/Events has
--   what it tells, Client/Session its session and the buffer of events, Client/Storage the storage
--   trait, and Client/Action its state and its methods as actions. The commands are in
--   Client/Profile, Pairings, Requests, Contacts (with its checks in ContactRules), Messages and
--   Incoming, the changes that an event means in Client/Changes, the storage of the tests in
--   Client/Memory. Client/Calls puts all commands into one type, and Client/Staging with its
--   children and Client/Stages proves that each of them only stages events while a transaction is
--   open. Client/Inversion has the steps of an action that succeeds, Client/Recipient proves whom a
--   message is sent to, Client/Receiving what a message that arrives twice does.
-- * The engine (packages/torchat-client-engine) runs a command of the runtime in a transaction of
--   the database: Engine/State is what it works on, Engine/Transaction is
--   actor/state/runtime_transaction.rs, Engine/Pipeline is actor/command_pipeline/processor.rs with
--   processing.rs, Engine/Errors and Engine/Responses are the errors and the answers.
--   Engine/Atomicity proves that a transaction is all or nothing, Engine/Kept and Engine/Replay what
--   becomes of a command whose id is known, Engine/Problems what an error path loses.
-- * Scheduler (packages/torchat-client-engine/src/scheduler/plan.rs) has the engine's deadlines,
--   its proof in Scheduler/Due; Scheduler/Retries (actor/state/retry_scheduler.rs) when the engine
--   wakes for a pending cancellation.
-- * The peer transport (packages/torchat-peer) queues what goes to a peer: Peer/Queue is queue.rs
--   and types.rs, proofs in Peer/QueueOrder. Peer/Endpoint has the endpoints that peers exchange
--   (common/torchat-core/src/peer_protocol.rs), Peer/Signing the bytes that are signed for them,
--   Peer/Validation when one is accepted, Peer/Transcripts the bytes of a handshake and of a
--   message, Peer/Created what an identity makes. Peer/Acceptance says in fields what an accepted
--   endpoint is, Peer/Succession proves what the updates of a contact lead to.
-- * AntiRollback (packages/torchat-crypto/src/anti_rollback.rs, proofs in AntiRollback/Order)
--   refuses an older MLS snapshot.
--
-- Base has what they share. A `String` is the list of its code points (`Text`), a UUID or a digest
-- a number, a `HashMap` a list of entries in which a key is found once, a `BTreeSet` an increasing
-- list. Numbers are the native ones; an `i64` is an integer whose saturating operations are
-- written out, and a counter that saturates says so. A fallible function returns a result, a
-- method that writes a store returns the store too (Base/Method), as it is when the error is
-- raised. A panic of the relay is `none`, and so is a loop of code draws whose draws are all
-- taken.
--
-- Outside are parameters: SHA-256 (`hash`), base64 and Ed25519 (`Primitives`, whose laws are
-- `Signs`), the clock, the random codes and tokens (`Draws`), UUID parsing, the hasher of the
-- jitter, the storage traits and the secure store. A lemma that needs a store to keep what is put
-- into it says so by `KeepsOperations`, `KeepsCheckpoints`, `KeepsMessages` or `KeepsAnswers`.
-- `Host` has what surrounds the engine's transactions. No fuel is used: each recursion is on the
-- list of commands, events or entries. The loop that draws a code runs over the draws that are
-- given, and `HasFreeCode` says that one of them is free; it is, where more codes of distinct
-- digests are drawn than there are slots. The order of a hash map's values is a part of `Draws`
-- too, and `IsOrder` says that it is an order of those values.
--
-- Not modelled: sockets, Tor, timers and task scheduling, SQL (with the pruning of kept answers by
-- age and number, which ends their replay), serialization, OpenMLS, the FFI and the user
-- interfaces; of the engine, the actor's loop, the commands that wait for the relay, the peer and
-- relay events; of the runtime, the feature facades and the queries that only forward. The frames
-- that the relay offers to a channel are logged, whether or not the channel takes them. Tests has
-- each theorem at work on concrete data.
pub mod Base
pub mod Domain
pub mod Models
pub mod Pairing
pub mod Relay
pub mod Peer
pub mod Retry
pub mod Changes
pub mod Operations
pub mod Messaging
pub mod AntiRollback
pub mod Client
pub mod Engine
pub mod Scheduler
pub mod Tests
