-- ===== src/Engine/Errors.antt =====
-- packages/torchat-storage/src/error.rs, the fault points of packages/torchat-client-engine, and the
-- error mapping of actor/state.rs. Only the tests make a fault point fail.
use t_orca.Base.{Text, codes, RuntimeError, RuntimeResult, Result, ok, err}

pub data EngineError : Type 0 where
  closed invalid_config invalid_command unsupported : Text → EngineError
  serialization storage transport : Text → EngineError

abbrev pub EngineResult : Type 0 → Type 0
EngineResult A = Result EngineError A

pub data FaultPoint : Type 0 where
  before_local_commit after_local_commit_before_dispatch : FaultPoint
  after_persisted_before_delivered after_mls_snapshot_before_outbox : FaultPoint
  after_outbox_before_mls_anchor after_mls_anchor_before_sql_commit : FaultPoint
  after_sql_commit_before_anchor_finalize after_peer_persisted : FaultPoint
  after_peer_persisted_ack after_peer_delivered_ack : FaultPoint
  before_relationship_removal_ack after_database_rekey_before_vault_promote : FaultPoint

-- `RuntimeError::to_string`.
unfoldable pub technical_message : RuntimeError → Text
technical_message (RuntimeError.invalid_command message) = message
technical_message (RuntimeError.invalid_params message) = message
technical_message (RuntimeError.not_found message) = message
technical_message (RuntimeError.conflict message) = message
technical_message (RuntimeError.timeout message) = message
technical_message (RuntimeError.transport message) = message
technical_message (RuntimeError.storage message) = message
technical_message (RuntimeError.crypto message) = message
technical_message (RuntimeError.unavailable message) = message

unfoldable pub runtime_error : RuntimeError → EngineError
unfolding technical_message
runtime_error (RuntimeError.storage message) = EngineError.storage message
runtime_error other = EngineError.invalid_command (technical_message other)

-- `result.map_err(runtime_error)`.
unfoldable pub from_runtime : {A : Type 0} → RuntimeResult A → EngineResult A
unfolding runtime_error
from_runtime (ok a) = ok a
from_runtime (err e) = err (runtime_error e)

unfoldable pub error_code : EngineError → Text
error_code (EngineError.closed message) = codes "closed"
error_code (EngineError.invalid_config message) = codes "invalid_config"
error_code (EngineError.invalid_command message) = codes "invalid_command"
error_code (EngineError.unsupported message) = codes "unsupported"
error_code (EngineError.serialization message) = codes "serialization"
error_code (EngineError.storage message) = codes "storage"
error_code (EngineError.transport message) = codes "transport"
