-- ===== src/Operations.antt =====
-- packages/torchat-runtime/src/operations.rs and features/operations/mod.rs: the record of a
-- workflow that survives a restart, and the commands that move it.
pub mod Storage
pub mod Pairing
pub mod Delivery
pub mod Lifecycle
use t_orca.Base.{ℕ, ◌≡◌, Bool, true, false, ◌==◌, Option, none, some, Text, arith}
use t_orca.Base.Int.{ℤ, saturating_suc_u32}

pub data OperationType : Type 0 where
  pairing pairing_cancellation message_delivery : OperationType
  relationship_removal endpoint_rotation profile_reset : OperationType

pub data OperationState : Type 0 where
  pending running waiting_for_retry completed cancelled failed_permanent : OperationState

-- `RuntimeErrorCode` of error.rs.
pub data RuntimeErrorCode : Type 0 where
  invalid_input not_found conflict temporarily_unavailable : RuntimeErrorCode
  transport_unavailable storage_failed crypto_failed unsupported internal : RuntimeErrorCode

unfoldable pub is_terminal : OperationState → Bool
is_terminal OperationState.completed = true
is_terminal OperationState.cancelled = true
is_terminal OperationState.failed_permanent = true
is_terminal _ = false

pub record DurableOperation : Type 0 where
  pub operation_id : Text
  pub operation_type : OperationType
  pub entity_id : Text
  pub state : OperationState
  pub started_at : ℤ
  pub updated_at : ℤ
  pub attempt_count : ℕ
  pub retry_at : Option ℤ
  pub error_code : Option RuntimeErrorCode
  pub command_descriptor : Option Text

-- `DurableOperation::pending`.
unfoldable pub pending_operation : Text → OperationType → Text → ℤ → DurableOperation
pending_operation operation_id operation_type entity_id now_ms = record {
  operation_id = operation_id;
  operation_type = operation_type;
  entity_id = entity_id;
  state = OperationState.pending;
  started_at = now_ms;
  updated_at = now_ms;
  attempt_count = 0;
  retry_at = none;
  error_code = none;
  command_descriptor = none;
}

unfoldable pub with_command_descriptor : Text → DurableOperation → DurableOperation
with_command_descriptor descriptor o = record o { command_descriptor = some descriptor }

unfoldable pub begin_attempt : ℤ → DurableOperation → DurableOperation
begin_attempt now_ms o = record o {
  state = OperationState.running;
  updated_at = now_ms;
  attempt_count = saturating_suc_u32 o.attempt_count;
  retry_at = none;
  error_code = none;
}

unfoldable pub schedule_retry : ℤ → RuntimeErrorCode → ℤ → DurableOperation → DurableOperation
schedule_retry retry_at error_code now_ms o = record o {
  state = OperationState.waiting_for_retry;
  updated_at = now_ms;
  retry_at = some retry_at;
  error_code = some error_code;
}

unfoldable pub complete : ℤ → DurableOperation → DurableOperation
complete now_ms o = record o {
  state = OperationState.completed;
  updated_at = now_ms;
  retry_at = none;
  error_code = none;
}

unfoldable pub fail_permanently : RuntimeErrorCode → ℤ → DurableOperation → DurableOperation
fail_permanently error_code now_ms o = record o {
  state = OperationState.failed_permanent;
  updated_at = now_ms;
  retry_at = none;
  error_code = some error_code;
}

-- The derived `PartialEq` of the type and of the state.
abbrev type_index : OperationType → ℕ
type_index OperationType.pairing = 0
type_index OperationType.pairing_cancellation = 1
type_index OperationType.message_delivery = 2
type_index OperationType.relationship_removal = 3
type_index OperationType.endpoint_rotation = 4
type_index OperationType.profile_reset = 5

abbrev state_index : OperationState → ℕ
state_index OperationState.pending = 0
state_index OperationState.running = 1
state_index OperationState.waiting_for_retry = 2
state_index OperationState.completed = 3
state_index OperationState.cancelled = 4
state_index OperationState.failed_permanent = 5

unfoldable pub type_eq : OperationType → OperationType → Bool
type_eq s t = type_index s == type_index t

unfoldable pub state_eq : OperationState → OperationState → Bool
state_eq s t = state_index s == state_index t

pub state_eq→eq : (s t : OperationState) → state_eq s t ≡ true → s ≡ t
unfolding state_eq
state_eq→eq s t h = ground arith
