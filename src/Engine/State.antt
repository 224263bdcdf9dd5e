-- ===== src/Engine/State.antt =====
-- The state and the surroundings of the transactions of the engine
-- (packages/torchat-client-engine/src/actor/state.rs, event.rs, packages/torchat-storage).
use t_orca.Base.{ℕ, Option, List, Text, RuntimeResult, Result}
use t_orca.Base.Int.{ℤ}
use t_orca.Base.Method.{Method}
use t_orca.AntiRollback.{MlsEpochAnchor}
use t_orca.Client.Session.{RuntimeSession}
use t_orca.Engine.Errors.{EngineError, EngineResult, FaultPoint}

-- `value` is the text of the JSON.
pub data ResponsePayload : Type 0 where
  empty : ResponsePayload
  json : (value : Text) → ResponsePayload

pub record IdempotencyCommitContext : Type 0 where
  pub command_id : Text
  pub command_descriptor : Text

pub record MlsCheckpointRecord : Type 0 where
  pub conversation_id : Text
  pub snapshot : List ℕ
  pub state_version : ℕ
  pub snapshot_hash : Option (List ℕ)

-- What the engine asks of the database besides the runtime's own storage: the methods of the open
-- transaction, and those of the database itself.
pub record EngineStorage (S : Type 0) : Type 0 where
  pub transaction : S → EngineResult Unit
  pub projection_head : S → RuntimeResult (Text × ℕ)
  pub bump_projection_revision : List Text → Method S (Text × ℕ)
  pub save_processed_command : Text → Text → Text → ℕ → Method S Unit
  pub commit : S → RuntimeResult Unit
  pub load_processed_command : S → Text → EngineResult (Option (Text × Text × ℕ))
  pub database_head : S → EngineResult (Text × ℕ)
  pub save_processed : Text → Text → Text → ℕ → S → EngineResult Unit × S
  pub conversation_mls_checkpoint : S → Text → EngineResult (Option MlsCheckpointRecord)

-- The state of the actor that a transaction uses.
pub record Engine (S A : Type 0) : Type 0 where
  pub database : S
  pub session : RuntimeSession
  pub clock : ℕ → ℤ
  pub readings : ℕ
  pub mls_anchor : Option A
  pub engine_session_id : Text

-- The engine's surroundings: the database, the host's secure store, `DirectConversation::restore`
-- followed by `epoch`, `serde_json::to_string` of an answer, and the fault injector.
pub record Host (S A : Type 0) : Type 0 where
  pub storage : EngineStorage S
  pub anchor : MlsEpochAnchor EngineError A
  pub restore_epoch : List ℕ → Result Text ℕ
  pub to_json : ResponsePayload → EngineResult Text
  pub faults : FaultPoint → EngineResult Unit
