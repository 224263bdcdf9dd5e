-- ===== src/Messaging/Outcome.antt =====
-- `MessagingFeature` of packages/torchat-runtime/src/features/messaging/mod.rs: the commands on one
-- stored message. `parse_uuid` is `Uuid::parse_str` of the uuid crate.
use t_orca.Base.{
  ℕ, not, Option, none, some, is_empty, if◌then◌else◌, unwrap_or, Text, trim, codes, RuntimeResult,
  ok, err, ok_or, invalid_params, conflict, not_found,
}
use t_orca.Base.Int.{ℤ, pos}
use t_orca.Base.Method.{Method, return, ◌>>=◌, ◌>>◌, lift, reading}
use t_orca.Domain.{MessageState, MessageTransportOutcome, message_state_eq}
use t_orca.Models.{ChatMessage, MessageSendEffect}
use t_orca.Changes.{
  ChangeSet, FeatureResult, no_changes, with_message, with_conversation, unchanged, changed,
}
use t_orca.Messaging.Rules.{message_state_after_transport_outcome}

-- The writes of `MessageStorage`, and the lookup of `PointLookupStorage`.
pub record MessageStorage (S : Type 0) : Type 0 where
  pub message_by_id : S → Text → RuntimeResult (Option ChatMessage)
  pub put_message : ChatMessage → Method S Unit
  pub delete_message : Text → Method S Unit

pub record MessageDeleteResult : Type 0 where
  pub message_id : ℕ
  pub conversation_id : Text

unfoldable pub normalize_message_text : Text → RuntimeResult Text
normalize_message_text text =
    if is_empty (trim text)
    then err (invalid_params (codes "message text must not be empty"))
    else ok (trim text)

unfoldable pub parse_message_id : (Text → Option ℕ) → Text → RuntimeResult ℕ
parse_message_id parse_uuid message_id =
    ok_or (parse_uuid message_id) (invalid_params (codes "message id is not a valid UUID"))

unfoldable pub message_effect : ChatMessage → Text → MessageSendEffect
message_effect message recipient_installation_id = record {
  message_id = message.id;
  conversation_id = message.conversation_id;
  recipient_installation_id = recipient_installation_id;
  body = message.body;
  reply_to = message.reply_to;
}

unfoldable pub message_changes : Text → Text → ChangeSet
unfolding no_changes with_message with_conversation
message_changes id conversation_id = with_conversation conversation_id (with_message id no_changes)

-- The fields that `apply_outcome` sets for the state that the message has entered.
unfoldable pub enter_state :
    MessageState → (retry_at : Option ℤ) → (error_detail : Option Text) → ChatMessage → ChatMessage
enter_state MessageState.queued retry_at error_detail m = record m {
  state = MessageState.queued;
  next_attempt_at = unwrap_or retry_at m.next_attempt_at;
  ack_deadline = none;
  last_transport_error = error_detail;
}
enter_state MessageState.failed retry_at error_detail m = record m {
  state = MessageState.failed;
  next_attempt_at = pos 0;
  ack_deadline = none;
  last_transport_error = error_detail;
}
enter_state MessageState.sending retry_at error_detail m = record m { state = MessageState.sending }
enter_state s retry_at error_detail m = record m {
  state = s;
  next_attempt_at = pos 0;
  ack_deadline = none;
  last_transport_error = none;
}

module _ {S : Type 0} (storage : MessageStorage S) where
  unfoldable pub save : ChatMessage → Method S (FeatureResult ChatMessage)
  unfolding message_changes changed
  save message = do
    storage.put_message message
    return (changed message (message_changes message.id message.conversation_id))

  unfoldable pub delete_with_context :
      (Text → Option ℕ) → Text → Method S (FeatureResult MessageDeleteResult)
  unfolding parse_message_id message_changes changed
  delete_with_context parse_uuid message_id = do
    stored ← reading (λ s. storage.message_by_id s message_id)
    message ← lift (ok_or stored (not_found (codes "message does not exist")))
    parsed_message_id ← lift (parse_message_id parse_uuid message.id)
    storage.delete_message message_id
    return (
        changed
          (record { message_id = parsed_message_id; conversation_id = message.conversation_id })
          (message_changes message_id message.conversation_id))

  -- The rest of `apply_outcome`, once the message is there.
  unfoldable pub apply_to :
      MessageTransportOutcome
      → (retry_at : Option ℤ) → (error_detail : Option Text) → ChatMessage
      → Method S (FeatureResult ChatMessage)
  unfolding message_state_after_transport_outcome message_state_eq enter_state message_changes
      changed unchanged
  apply_to outcome retry_at error_detail message =
      if not message.outgoing
      then lift (err (conflict (codes "incoming message state is owned by receive_message")))
      else elim (message_state_after_transport_outcome message.state outcome) [
        | none ↦
            lift
              (err (conflict (codes "transport outcome is invalid for the current message state")))
        | some next_state ↦
            if message_state_eq next_state message.state then return (unchanged message) else do
              let entered = enter_state next_state retry_at error_detail message
              storage.put_message entered
              return (changed entered (message_changes entered.id entered.conversation_id))
      ]

  unfoldable pub apply_outcome :
      Text
      → MessageTransportOutcome
      → (retry_at : Option ℤ) → (error_detail : Option Text) → Method S (FeatureResult ChatMessage)
  unfolding apply_to
  apply_outcome message_id outcome retry_at error_detail = do
    stored ← reading (λ s. storage.message_by_id s message_id)
    message ← lift (ok_or stored (not_found (codes "message does not exist")))
    apply_to outcome retry_at error_detail message
