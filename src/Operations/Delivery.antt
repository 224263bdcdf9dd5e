-- ===== src/Operations/Delivery.antt =====
-- The message delivery commands of packages/torchat-runtime/src/features/operations/mod.rs.
use t_orca.Base.{
  Bool, ◌||◌, Option, none, some, is_empty, is_some, or_option, if◌then◌else◌, unwrap_or, Text,
  trim, codes, RuntimeResult, ok, err, reject_if, invalid_params, conflict,
}
use t_orca.Base.Int.{ℤ}
use t_orca.Base.Method.{Method, return, ◌>>=◌, ◌>>◌, lift, reading}
use t_orca.Changes.{FeatureResult, unchanged}
use t_orca.Operations.{
  DurableOperation, OperationType, OperationState, RuntimeErrorCode, state_eq, pending_operation,
  with_command_descriptor, begin_attempt, schedule_retry, complete, fail_permanently,
}
use t_orca.Operations.Storage.{
  OperationStorage, parse_operation_id, ensure_message_entity, active_message_delivery,
  persist_changed,
}
use t_orca.Operations.Pairing.{bind_descriptor}

-- An operation that was found by the message and not by its id takes a descriptor only where it has
-- none, and is not checked against it.
unfoldable pub bind_delivery : Bool → Text → DurableOperation → RuntimeResult DurableOperation
unfolding bind_descriptor
bind_delivery bound_to_requested_id descriptor o =
    if bound_to_requested_id then bind_descriptor descriptor o else elim o.command_descriptor [
      | none ↦ ok (record o { command_descriptor = some descriptor })
      | some existing ↦ ok o
    ]

module _ {S : Type 0} (storage : OperationStorage S) where
  -- The rest of `begin_message_delivery`, from the check of the state.
  unfoldable pub start_delivery : DurableOperation → ℤ → Method S (FeatureResult DurableOperation)
  unfolding unchanged state_eq begin_attempt persist_changed
  start_delivery o now_ms =
      if state_eq o.state OperationState.completed
      then return (unchanged o)
      else if state_eq o.state OperationState.cancelled
          || state_eq o.state OperationState.failed_permanent
      then lift (err (conflict (codes "message delivery operation is already terminal")))
      else persist_changed storage
          (begin_attempt now_ms (record o { operation_type = OperationType.message_delivery }))

  unfoldable pub begin_message_delivery :
      Text → Text → Text → ℤ → Method S (FeatureResult DurableOperation)
  unfolding parse_operation_id active_message_delivery pending_operation with_command_descriptor
      ensure_message_entity bind_delivery start_delivery
  begin_message_delivery requested_operation_id message_id descriptor now_ms = do
    lift (
        reject_if (is_empty (trim descriptor))
          (invalid_params (codes "durable message command descriptor must not be empty")))
    requested_id ← lift (parse_operation_id requested_operation_id)
    requested ← reading (λ s. storage.operation_by_id s requested_id)
    active ← reading (λ s. active_message_delivery storage s message_id)
    let o = unwrap_or (or_option requested active) (
        with_command_descriptor descriptor
          (pending_operation requested_id OperationType.message_delivery message_id now_ms))
    lift (ensure_message_entity o message_id)
    bound ← lift (bind_delivery (is_some requested) descriptor o)
    start_delivery bound now_ms

  -- What the three commands that follow share: the active delivery of the message is changed and
  -- stored, and nothing is done where there is none.
  unfoldable pub change_active :
      (DurableOperation → DurableOperation)
      → Text
      → Method S (FeatureResult (Option DurableOperation))
  unfolding active_message_delivery unchanged persist_changed
  change_active change message_id = do
    active ← reading (λ s. active_message_delivery storage s message_id)
    elim active [
      | none ↦ return (unchanged none)
      | some o ↦ do
        changed ← persist_changed storage (change o)
        return (record {
          value = some changed.value;
          changes = changed.changes;
          effects = changed.effects;
        })
    ]

  unfoldable pub complete_message_delivery :
      Text → ℤ → Method S (FeatureResult (Option DurableOperation))
  unfolding change_active complete
  complete_message_delivery message_id now_ms = change_active (complete now_ms) message_id

  unfoldable pub retry_message_delivery :
      Text → ℤ → RuntimeErrorCode → ℤ → Method S (FeatureResult (Option DurableOperation))
  unfolding change_active schedule_retry
  retry_message_delivery message_id retry_at error_code now_ms =
      change_active (schedule_retry retry_at error_code now_ms) message_id

  unfoldable pub fail_message_delivery :
      Text → RuntimeErrorCode → ℤ → Method S (FeatureResult (Option DurableOperation))
  unfolding change_active fail_permanently
  fail_message_delivery message_id error_code now_ms =
      change_active (fail_permanently error_code now_ms) message_id
