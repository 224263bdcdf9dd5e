-- ===== src/Tests/Scheduler.antt =====
-- Runs of the wakeups of the engine.
use t_orca.Base.{
  ◌≡◌, refl, not, true, none, some, List, [], ◌∷◌, codes, is_empty, is_some, is_some_and, leb,
  arith,
}
use t_orca.Base.Int.{pos}
use t_orca.Operations.{OperationType, OperationState, RuntimeErrorCode, DurableOperation}
use t_orca.Scheduler.{EngineSchedulerPlan, next_deadline, due_kinds}
use t_orca.Scheduler.Due.{due_kinds-next_deadline}
use t_orca.Scheduler.Retries.{
  Connectivity, durable_operation_deadline, is_ready, due_operation,
  next_durable_operation_wakeup_at, wakeup_finds,
}

abbrev connected : Connectivity
connected = record { network_online = true; has_proxy = true; can_start_effect = true }

abbrev a_cancellation : DurableOperation
a_cancellation = record {
  operation_id = codes "operation-1";
  operation_type = OperationType.pairing_cancellation;
  entity_id = codes "pairing-1";
  state = OperationState.waiting_for_retry;
  started_at = pos 9000;
  updated_at = pos 10000;
  attempt_count = 2;
  retry_at = some (pos 12500);
  error_code = some RuntimeErrorCode.transport_unavailable;
  command_descriptor = some (codes "hash");
}

abbrev a_delivery : DurableOperation
a_delivery = record a_cancellation {
  operation_id = codes "operation-2";
  operation_type = OperationType.message_delivery;
  state = OperationState.pending;
}

abbrev some_operations : List DurableOperation
some_operations = a_delivery ∷ a_cancellation ∷ []

wakes : next_durable_operation_wakeup_at connected some_operations (pos 10000) 70 ≡ some 2570
unfolding next_durable_operation_wakeup_at
wakes = refl

wakeup_finds_example : is_some (due_operation connected some_operations (pos 12501)) ≡ true
unfolding durable_operation_deadline is_ready
wakeup_finds_example =
    wakeup_finds connected some_operations 10000 (pos 12501) 70 2570 refl
      (omega arith, (omega arith, tt)) wakes (omega arith)

abbrev a_plan : EngineSchedulerPlan
a_plan = record {
  generation = 3;
  relay_poll_at = some 60;
  peer_probe_at = none;
  retry_at = some 35;
}

due_kinds-next_deadline_example :
    not (is_empty (due_kinds a_plan 40))
    ≡ is_some_and (λ deadline. leb deadline 40) (next_deadline a_plan)
due_kinds-next_deadline_example = due_kinds-next_deadline a_plan 40
