-- ===== src/Tests/Delivery.antt =====
-- Runs of the peer queues, the durable operations, the retries, the messages and the checkpoints.
use t_orca.Base.{
  Text, utf8, map, ℕ, ◌+◌, ◌*◌, ◌≡◌, ◌≤◌, refl, ap, sym, ◌∙◌, true, false, Option, none, some, List,
  [], ◌∷◌, ◌++◌, retain, find, codes, text_eq, trim, ok, All, arith, if◌then◌else◌, text_eq_refl,
  text_eq→eq,
}
use t_orca.Base.Int.{pos}
use t_orca.Domain.{MessageState, MessageTransportOutcome, message_is_terminal}
use t_orca.Models.{ChatMessage}
use t_orca.Peer.Signing.{IsFramed, signing_bytes, signing_bytes-inj}
use t_orca.Peer.Endpoint.{PeerEndpointBundle}
use t_orca.Peer.Queue.{
  PeerDeliveryTag, PeerOutboundCommand, CommandQueues, no_commands, pop_next, drain_failed, to_list,
}
use t_orca.Peer.QueueOrder.{
  contents, IsHead, pop_next-IsHead, enqueue_all, is_new, is_queued, firsts, enqueue_all-durable,
  Accepts, drain_failed_lem,
}
use t_orca.Retry.{RetryClass, default_policy, decide}
use t_orca.Retry.Bounds.{backoff, decide_lem}
use t_orca.Changes.{changed}
use t_orca.Operations.{DurableOperation, OperationType, OperationState}
use t_orca.Operations.Storage.{OperationStorage, KeepsOperations, operation_changes}
use t_orca.Operations.Pairing.{begin_pairing}
use t_orca.Operations.Lifecycle.{HasBegun, begin_pairing-HasBegun}
use t_orca.Messaging.Outcome.{MessageStorage, apply_outcome}
use t_orca.Messaging.Progress.{prepare, outcome, run, run-final, apply_outcome-final}
use t_orca.AntiRollback.{AnchoredMlsCheckpoint, MlsEpochAnchor, validate_snapshot_checkpoint}
use t_orca.AntiRollback.Order.{KeepsCheckpoints, IsFull, IsAscending, restore_all-IsAscending}

abbrev an_endpoint : PeerEndpointBundle
an_endpoint = record {
  protocol_version = 1;
  installation_id = codes "peer";
  onion_address = codes "a.onion";
  virtual_port = 443;
  identity_public_key = codes "key";
  capabilities = [];
  sequence = 1;
  issued_at = pos 1;
  expires_at = none;
  signature = codes "signature";
}

abbrev command_of : PeerDeliveryTag → PeerOutboundCommand
command_of delivery = record {
  endpoint = an_endpoint;
  capability_id = [];
  capability_secret = [];
  peer_public_key = codes "key";
  local_endpoint = an_endpoint;
  endpoint_updates = [];
  message_id = 1;
  conversation_id = codes "conversation";
  sequence = 1;
  created_at = pos 1;
  ciphertext = 1 ∷ [];
  delivery = delivery;
  socks5_url = [];
}

abbrev a_message_command : PeerOutboundCommand
a_message_command = command_of (PeerDeliveryTag.message (codes "m"))

abbrev some_commands : List PeerOutboundCommand
some_commands =
    command_of (PeerDeliveryTag.receipt (codes "r"))
    ∷ a_message_command
    ∷ command_of PeerDeliveryTag.probe
    ∷ a_message_command
    ∷ []

abbrev full_queues : CommandQueues
full_queues = record no_commands {
  durable = a_message_command ∷ [];
  endpoint_update = some (command_of PeerDeliveryTag.endpoint_update);
  ephemeral = some (command_of PeerDeliveryTag.ephemeral);
  dedupe = codes "message:m" ∷ [];
}

pop_next-IsHead_example : IsHead (contents full_queues) (pop_next true full_queues)
pop_next-IsHead_example = pop_next-IsHead full_queues

enqueue_all-durable_example :
    (enqueue_all some_commands full_queues).durable
    ≡ full_queues.durable
      ++ retain (is_new full_queues.dedupe) (firsts (retain is_queued some_commands))
enqueue_all-durable_example = enqueue_all-durable some_commands full_queues

drain_failed_lem_example :
    let (commands, after) = drain_failed full_queues in
    (commands ≡ full_queues.durable ++ to_list full_queues.endpoint_update)
    × (contents after ≡ [])
    × All (Accepts after) commands
drain_failed_lem_example = drain_failed_lem full_queues

decide_lem_example :
    (n : ℕ) × (decide default_policy RetryClass.tor_backoff (pos 7000) 3 12
      ≡ record { retry_at = some (pos (7000 + n)); terminal = false })
    × (4 * backoff 5000 3 ≤ 5 * n)
    × (5 * n ≤ 6 * backoff 5000 3)
decide_lem_example = decide_lem RetryClass.tor_backoff 5000 7000 3 12 refl (omega arith)

run-final_example :
    run (prepare ∷ outcome MessageTransportOutcome.retryable_failure ∷ []) MessageState.delivered
    ≡ MessageState.delivered
unfolding message_is_terminal
run-final_example =
    run-final (prepare ∷ outcome MessageTransportOutcome.retryable_failure ∷ [])
      MessageState.delivered refl

abbrev a_message : ChatMessage
a_message = record {
  id = codes "m";
  conversation_id = codes "c";
  outgoing = true;
  body = codes "hello";
  reply_to = none;
  state = MessageState.read;
  created_at = pos 1;
  attempt_count = 1;
  last_attempt_at = none;
  next_attempt_at = pos 0;
  ack_deadline = none;
  last_transport_error = none;
}

-- A store of one message.
abbrev one_message : MessageStorage ChatMessage
one_message = record {
  message_by_id = λ s id. if text_eq s.id id then ok (some s) else ok none;
  put_message = λ m s. (ok tt, m);
  delete_message = λ id s. (ok tt, s);
}

apply_outcome-final_example :
    (apply_outcome one_message
      (codes "m")
      MessageTransportOutcome.permanent_failure
      none
      (some (codes "late"))
      a_message).1
    ≡ a_message
unfolding text_eq message_is_terminal
apply_outcome-final_example =
    apply_outcome-final one_message (codes "m") MessageTransportOutcome.permanent_failure none
      (some (codes "late")) a_message a_message refl refl

-- A store of operations: the last one put comes first.
abbrev operations : OperationStorage (List DurableOperation)
operations = record {
  operation_by_id = λ s id. ok (find (λ o. text_eq id o.operation_id) s);
  put_operation = λ o s. (ok tt, o ∷ s);
  pending_operations = λ s. ok s;
}

find_head :
    (o : DurableOperation) (s : List DurableOperation)
    → find (λ p. text_eq o.operation_id p.operation_id) (o ∷ s) ≡ some o
find_head o s = rw (text_eq_refl o.operation_id) refl

find_id :
    (id : Text) (s : List DurableOperation) (o : DurableOperation)
    → find (λ p. text_eq id p.operation_id) s ≡ some o
    → o.operation_id ≡ id
find_id id [] o e = cc
find_id id (p ∷ s) o e = ground (arith, text_eq→eq id p.operation_id, find_id id s o)

operations-keep : KeepsOperations operations
operations-keep = record {
  put_hit = λ o s t e.
      ap ok
        (ap (λ x. find (λ p. text_eq o.operation_id p.operation_id) x.1) (sym e) ∙ find_head o s);
  found_id = λ s id o e. find_id id s o (ground arith);
}

-- An operation of the pairing that waits for its next attempt, not yet bound to a command.
abbrev a_waiting_operation : DurableOperation
a_waiting_operation = record {
  operation_id = codes "op";
  operation_type = OperationType.pairing;
  entity_id = codes "p";
  state = OperationState.waiting_for_retry;
  started_at = pos 2;
  updated_at = pos 3;
  attempt_count = 4;
  retry_at = some (pos 9);
  error_code = none;
  command_descriptor = none;
}

abbrev a_begun_operation : DurableOperation
a_begun_operation = record a_waiting_operation {
  operation_type = OperationType.pairing_cancellation;
  state = OperationState.running;
  updated_at = pos 5;
  attempt_count = 5;
  retry_at = none;
  command_descriptor = some (codes "cancel");
}

begin_pairing-HasBegun_example :
    HasBegun operations
      (codes "op")
      (codes "p")
      (codes "cancel")
      (pos 5)
      a_begun_operation
      (a_waiting_operation ∷ [])
      (a_begun_operation ∷ a_waiting_operation ∷ [])
unfolding begin_pairing trim text_eq
begin_pairing-HasBegun_example =
    begin_pairing-HasBegun operations operations-keep (codes "op") (codes "p") (codes "cancel")
      (pos 5) (a_waiting_operation ∷ []) (a_begun_operation ∷ a_waiting_operation ∷ [])
      (changed a_begun_operation (operation_changes (codes "op"))) refl

-- A secure store of one conversation.
abbrev one_anchor : MlsEpochAnchor Unit (Option AnchoredMlsCheckpoint)
one_anchor = record {
  highest_epoch = λ s id. ok none;
  record_epoch = λ id n s. (ok tt, s);
  highest_checkpoint = λ s id. ok s;
  record_checkpoint = λ id c s. (ok tt, some c);
}

one_anchor-keeps : KeepsCheckpoints one_anchor
one_anchor-keeps = record { record_hit = λ id c s t e. ap ok (ap (λ x. x.1) (sym e)) }

abbrev checkpoint_of : ℕ → AnchoredMlsCheckpoint
checkpoint_of n = record { state_version = n; epoch = 1; snapshot_hash = n ∷ [] }

restore_all-IsAscending_example : IsAscending (checkpoint_of 3 ∷ checkpoint_of 4 ∷ [])
unfolding validate_snapshot_checkpoint
restore_all-IsAscending_example =
    restore_all-IsAscending one_anchor one_anchor-keeps (codes "c")
      (checkpoint_of 3 ∷ checkpoint_of 4 ∷ []) none (some (checkpoint_of 4)) (full 3, (full 4, tt))
      refl
  where
    full : (n : ℕ) → IsFull (checkpoint_of n)
    full n e = cc

abbrev another_endpoint : PeerEndpointBundle
another_endpoint = record an_endpoint { signature = codes "forged" }

an_endpoint-IsFramed : (s : Text) → IsFramed (record an_endpoint { signature = s })
unfolding utf8
an_endpoint-IsFramed s = record {
  version = omega arith;
  id = omega arith;
  onion = omega arith;
  port = omega arith;
  key = omega arith;
  number = omega arith;
  capabilities = tt;
  sequence = omega arith;
  issued = (omega arith, omega arith);
  expires = tt;
}

signing_bytes-inj_example :
    (an_endpoint.protocol_version ≡ another_endpoint.protocol_version)
    × (utf8 an_endpoint.installation_id ≡ utf8 another_endpoint.installation_id)
    × (utf8 an_endpoint.onion_address ≡ utf8 another_endpoint.onion_address)
    × (an_endpoint.virtual_port ≡ another_endpoint.virtual_port)
    × (utf8 an_endpoint.identity_public_key ≡ utf8 another_endpoint.identity_public_key)
    × (map utf8 an_endpoint.capabilities ≡ map utf8 another_endpoint.capabilities)
    × (an_endpoint.sequence ≡ another_endpoint.sequence)
    × (an_endpoint.issued_at ≡ another_endpoint.issued_at)
    × (an_endpoint.expires_at ≡ another_endpoint.expires_at)
unfolding signing_bytes
signing_bytes-inj_example =
    signing_bytes-inj an_endpoint another_endpoint (an_endpoint-IsFramed (codes "signature"))
      (an_endpoint-IsFramed (codes "forged")) refl
