-- ===== src/Operations/Pairing.antt =====
-- The pairing commands of packages/torchat-runtime/src/features/operations/mod.rs. `policy` is the
-- feature's `RetryPolicy` and `retry_jitter_seed` the hash of retry.rs.
use t_orca.Base.{
  ℕ, ◌||◌, Option, none, some, is_empty, if◌then◌else◌, unwrap_or, Text, text_eq, trim, codes,
  RuntimeResult, ok, err, ok_or, reject_if, invalid_params, conflict, not_found,
}
use t_orca.Base.Int.{ℤ}
use t_orca.Base.Method.{Method, return, ◌>>=◌, ◌>>◌, lift, reading}
use t_orca.Changes.{FeatureResult, unchanged}
use t_orca.Retry.{RetryClass, default_policy, decide}
use t_orca.Operations.{
  DurableOperation, OperationType, OperationState, RuntimeErrorCode, is_terminal, state_eq,
  pending_operation, with_command_descriptor, begin_attempt, schedule_retry, complete,
  fail_permanently,
}
use t_orca.Operations.Storage.{
  OperationStorage, parse_operation_id, ensure_pairing_entity, persist_changed,
}

-- The check of the descriptor that the operation is bound to, which an operation without one takes.
unfoldable pub bind_descriptor : Text → DurableOperation → RuntimeResult DurableOperation
bind_descriptor descriptor o = elim o.command_descriptor [
  | none ↦ ok (record o { command_descriptor = some descriptor })
  | some existing ↦
      if text_eq existing descriptor
      then ok o
      else err (conflict (codes "operation id is already bound to a different command payload"))
]

-- The stored operation, or a new one.
unfoldable pub pairing_or_new : Text → Text → Text → ℤ → Option DurableOperation → DurableOperation
unfolding pending_operation with_command_descriptor
pairing_or_new operation_id pairing_id descriptor now_ms stored = unwrap_or stored (
    with_command_descriptor descriptor
      (pending_operation operation_id OperationType.pairing_cancellation pairing_id now_ms))

module _ {S : Type 0} (storage : OperationStorage S) where
  -- The rest of `begin_pairing`, from the check of the state.
  unfoldable pub start_pairing : DurableOperation → ℤ → Method S (FeatureResult DurableOperation)
  unfolding unchanged state_eq begin_attempt persist_changed
  start_pairing o now_ms =
      if state_eq o.state OperationState.completed
      then return (unchanged o)
      else if state_eq o.state OperationState.cancelled
          || state_eq o.state OperationState.failed_permanent
      then lift (err (conflict (codes "pairing operation is already terminal")))
      else persist_changed storage (begin_attempt now_ms o)

  -- The rest of `begin_pairing`, once the operation is there.
  unfoldable pub begin_found :
      DurableOperation → Text → Text → ℤ → Method S (FeatureResult DurableOperation)
  unfolding ensure_pairing_entity bind_descriptor start_pairing
  begin_found o pairing_id descriptor now_ms = do
    lift (ensure_pairing_entity o pairing_id)
    bound ← lift (bind_descriptor descriptor o)
    start_pairing (record bound { operation_type = OperationType.pairing_cancellation }) now_ms

  unfoldable pub begin_pairing : Text → Text → Text → ℤ → Method S (FeatureResult DurableOperation)
  unfolding parse_operation_id pairing_or_new begin_found
  begin_pairing operation_id pairing_id descriptor now_ms = do
    lift (
        reject_if (is_empty (trim descriptor))
          (invalid_params (codes "durable pairing command descriptor must not be empty")))
    operation_id ← lift (parse_operation_id operation_id)
    stored ← reading (λ s. storage.operation_by_id s operation_id)
    begin_found (pairing_or_new operation_id pairing_id descriptor now_ms stored) pairing_id
        descriptor now_ms

  -- The stored operation of a pairing, which the other three commands require.
  unfoldable pub stored_pairing : Text → Text → Method S DurableOperation
  unfolding parse_operation_id ensure_pairing_entity
  stored_pairing operation_id pairing_id = do
    operation_id ← lift (parse_operation_id operation_id)
    stored ← reading (λ s. storage.operation_by_id s operation_id)
    o ← lift (ok_or stored (not_found (codes "pairing operation does not exist")))
    lift (ensure_pairing_entity o pairing_id)
    return o

  unfoldable pub complete_pairing : Text → Text → ℤ → Method S (FeatureResult DurableOperation)
  unfolding stored_pairing state_eq unchanged complete persist_changed
  complete_pairing operation_id pairing_id now_ms = do
    o ← stored_pairing operation_id pairing_id
    if state_eq o.state OperationState.completed
        then return (unchanged o)
        else persist_changed storage (complete now_ms o)

  unfoldable pub retry_pairing :
      (Text → ℕ → ℕ)
      → Text
      → Text
      → RuntimeErrorCode
      → ℤ
      → Method S (FeatureResult DurableOperation)
  unfolding stored_pairing is_terminal unchanged decide fail_permanently schedule_retry
      persist_changed
  retry_pairing retry_jitter_seed operation_id pairing_id error_code now_ms = do
    o ← stored_pairing operation_id pairing_id
    let decision =
        decide default_policy RetryClass.network_backoff now_ms o.attempt_count
          (retry_jitter_seed pairing_id o.attempt_count)
    if is_terminal o.state
        then return (unchanged o)
        else persist_changed storage (
            if decision.terminal
            then fail_permanently error_code now_ms o
            else schedule_retry (unwrap_or decision.retry_at now_ms) error_code now_ms o)

  unfoldable pub fail_pairing :
      Text → Text → RuntimeErrorCode → ℤ → Method S (FeatureResult DurableOperation)
  unfolding stored_pairing is_terminal unchanged fail_permanently persist_changed
  fail_pairing operation_id pairing_id error_code now_ms = do
    o ← stored_pairing operation_id pairing_id
    if is_terminal o.state
        then return (unchanged o)
        else persist_changed storage (fail_permanently error_code now_ms o)
