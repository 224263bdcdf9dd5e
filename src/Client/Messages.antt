-- ===== src/Client/Messages.antt =====
-- The commands of `ClientRuntime` (packages/torchat-runtime/src/runtime.rs) that send a message, on the
-- rules of message_rules.rs and runtime/message_delivery.rs. `Uuid::now_v7` gives the new id, and
-- `uuid_text` is its `to_string`; `parse_uuid` is `Uuid::parse_str`.
use t_orca.Base.{
  ℕ, Bool, true, false, not, ◌||◌, Option, none, some, List, ◌++◌, map, retain, if◌then◌else◌,
  is_empty, Text, text_eq, trim, codes, RuntimeResult, ok, err, ok_or, not_found, conflict,
  invalid_params, RuntimeError,
}
use t_orca.Base.Int.{ℤ, pos, ltb_ℤ}
use t_orca.Domain.{MessageState, message_state_eq, can_send}
use t_orca.Models.{
  ContactRecord, ConversationSummary, ChatMessage, MessageReply, MessageSendEffect,
  ReceiptSendEffect, RuntimeSendEffect,
}
use t_orca.Messaging.Rules.{message_state_on_send_prepare}
use t_orca.Messaging.Outcome.{normalize_message_text, message_effect}
use t_orca.Messaging.Sending.{is_verified, runtime_conversation_summary_on_outgoing}
use t_orca.Pairing.Process.{pending_send_effects}
use t_orca.Client.Events.{RuntimeEvent}
use t_orca.Client.Storage.{RuntimeStorage}
use t_orca.Client.Action.{
  Action, pure, fail, lift, query, store, publish, now_ms, now_secs, collect, required, ◌>>=◌, ◌>>◌,
}
use t_orca.Client.ContactRules.{is_contact}
use t_orca.Client.Contacts.{publish_changed}

unfoldable pub parse_uuid_text : (Text → Option ℕ) → Text → RuntimeResult ℕ
parse_uuid_text parse_uuid value =
    ok_or (parse_uuid value) (invalid_params (codes "invalid messageId"))

-- `RuntimeSendEffect::from` of a message.
unfoldable pub message_send_effect : MessageSendEffect → RuntimeSendEffect
message_send_effect effect = record { message = some effect; receipt = none; pairing = none }

-- `validate_receipt_effect` of runtime/message_delivery.rs.
unfoldable pub validate_receipt_effect : ReceiptSendEffect → RuntimeResult ReceiptSendEffect
validate_receipt_effect effect =
    if is_empty (trim effect.envelope_id)
      || is_empty (trim effect.message_id)
      || is_empty (trim effect.conversation_id)
      || is_empty (trim effect.recipient_installation_id)
    then err (RuntimeError.storage (codes "durable receipt contains an empty identity"))
    else if ltb_ℤ effect.received_at (pos 0)
    then err (RuntimeError.storage (codes "durable receipt timestamp must not be negative"))
    else ok effect

-- The message that `queue_outgoing_message` stores.
unfoldable pub outgoing_message : Text → Text → Text → Option MessageReply → ℤ → ChatMessage
outgoing_message id conversation_id text reply_to created_at = record {
  id = id;
  conversation_id = conversation_id;
  outgoing = true;
  body = text;
  reply_to = reply_to;
  state = MessageState.queued;
  created_at = created_at;
  attempt_count = 0;
  last_attempt_at = none;
  next_attempt_at = pos 0;
  ack_deadline = none;
  last_transport_error = none;
}

-- `matches!(state, Failed | Queued)`.
unfoldable pub may_retry : MessageState → Bool
may_retry MessageState.failed = true
may_retry MessageState.queued = true
may_retry _ = false

unfoldable pub is_conversation : Text → ConversationSummary → Bool
is_conversation conversation_id conversation = text_eq conversation.id conversation_id

-- The sendable contact of a conversation: the tests that queueing and sending share.
unfoldable pub check_recipient : ContactRecord → RuntimeResult ContactRecord
unfolding is_verified
check_recipient contact =
    if not (is_verified contact.verification)
    then err (conflict (codes "contact must be verified before sending"))
    else if contact.blocked
    then err (conflict (codes "contact is blocked"))
    else ok contact

module _ {S : Type 0} (storage : RuntimeStorage S) where
  unfoldable pub stored_message : Text → Action S ChatMessage
  stored_message message_id = do
    message ← query (λ s. storage.message_by_id s message_id)
    lift (ok_or message (not_found (codes "message does not exist")))

  unfoldable pub stored_conversation : Text → Action S ConversationSummary
  unfolding is_conversation
  stored_conversation conversation_id =
      required storage.conversations (is_conversation conversation_id)
        (not_found (codes "conversation does not exist"))

  unfoldable pub recipient_contact : Text → Action S ContactRecord
  unfolding is_contact
  recipient_contact installation_id =
      required storage.contacts (is_contact installation_id)
        (not_found (codes "recipient contact does not exist"))

  -- The contact to which a conversation may send.
  unfoldable pub sendable_contact : ConversationSummary → Action S ContactRecord
  unfolding recipient_contact check_recipient can_send
  sendable_contact conversation = do
    if not (can_send conversation.status)
        then fail (conflict (codes "conversation is not ready to send"))
        else pure tt
    contact ← recipient_contact conversation.contact_installation_id
    lift (check_recipient contact)

  unfoldable pub publish_state : ℕ → Text → MessageState → Action S Unit
  publish_state message_id conversation_id state =
      publish
        (RuntimeEvent.message_state_changed (some message_id) (some conversation_id) (some state))

  unfoldable pub queue_outgoing_message :
      (ℕ → Text) → ℕ → Text → Text → Option MessageReply → Action S ChatMessage
  unfolding normalize_message_text stored_conversation sendable_contact outgoing_message
      runtime_conversation_summary_on_outgoing publish_state publish_changed
  queue_outgoing_message uuid_text new_id conversation_id text reply_to = do
    body ← lift (normalize_message_text text)
    existing ← stored_conversation conversation_id
    contact ← sendable_contact existing
    created_at ← now_ms
    let message = outgoing_message (uuid_text new_id) conversation_id body reply_to created_at
    store (storage.put_message message)
    store (
        storage.put_conversation (
          runtime_conversation_summary_on_outgoing (some existing.unread_count) existing.id
            contact.installation_id body created_at))
    publish_state new_id message.conversation_id message.state
    publish_changed storage (codes "conversations")
    pure message

  -- The message enters the state of a send attempt; it is stored and told where that changes it.
  unfoldable pub enter_send_attempt : (Text → Option ℕ) → ChatMessage → Action S Unit
  unfolding message_state_on_send_prepare message_state_eq parse_uuid_text publish_state
  enter_send_attempt parse_uuid message = do
    next ← lift (
        ok_or (message_state_on_send_prepare message.state)
          (conflict (codes "message is not eligible for a send attempt")))
    if message_state_eq next message.state then pure tt else (do
      store (storage.put_message (record message { state = next }))
      id ← lift (parse_uuid_text parse_uuid message.id)
      publish_state id message.conversation_id next)

  unfoldable pub prepare_message_send : (Text → Option ℕ) → Text → Action S MessageSendEffect
  unfolding stored_message stored_conversation sendable_contact enter_send_attempt message_effect
  prepare_message_send parse_uuid message_id = do
    message ← stored_message message_id
    if not message.outgoing
        then fail (conflict (codes "incoming message cannot be sent"))
        else pure tt
    conversation ← stored_conversation message.conversation_id
    contact ← sendable_contact conversation
    enter_send_attempt parse_uuid message
    pure (message_effect message contact.installation_id)

  -- The message that a reply refers to.
  unfoldable pub reply_snapshot : Text → Option Text → Action S (Option MessageReply)
  reply_snapshot conversation_id none = pure none
  reply_snapshot conversation_id (some message_id) = do
    stored ← query (λ s. storage.message_by_id s message_id)
    message ← lift (ok_or stored (not_found (codes "reply message does not exist")))
    if not (text_eq message.conversation_id conversation_id)
        then fail (conflict (codes "reply message belongs to another conversation"))
        else pure tt
    pure (
        some (record { message_id = message.id; body = message.body; outgoing = message.outgoing }))

  unfoldable pub send_message_reply :
      (ℕ → Text) → (Text → Option ℕ) → ℕ → Text → Text → Option Text → Action S MessageSendEffect
  unfolding reply_snapshot queue_outgoing_message prepare_message_send
  send_message_reply uuid_text parse_uuid new_id conversation_id text reply_to_message_id = do
    reply_to ← reply_snapshot conversation_id reply_to_message_id
    message ← queue_outgoing_message uuid_text new_id conversation_id text reply_to
    prepare_message_send parse_uuid message.id

  unfoldable pub send_message :
      (ℕ → Text) → (Text → Option ℕ) → ℕ → Text → Text → Action S MessageSendEffect
  unfolding send_message_reply
  send_message uuid_text parse_uuid new_id conversation_id text =
      send_message_reply uuid_text parse_uuid new_id conversation_id text none

  unfoldable pub retry_message : (Text → Option ℕ) → Text → Action S MessageSendEffect
  unfolding stored_message may_retry stored_conversation recipient_contact parse_uuid_text
      publish_state prepare_message_send
  retry_message parse_uuid message_id = do
    message ← stored_message message_id
    if not message.outgoing
        then fail (conflict (codes "incoming message cannot be retried"))
        else pure tt
    if not (may_retry message.state)
        then fail (conflict (codes "message is not eligible for manual retry"))
        else pure tt
    conversation ← stored_conversation message.conversation_id
    contact ← recipient_contact conversation.contact_installation_id
    if contact.blocked then fail (conflict (codes "contact is blocked")) else pure tt
    now ← now_ms
    store (
        storage.put_message (record message {
          state = MessageState.queued;
          next_attempt_at = now;
          ack_deadline = none;
          last_transport_error = none;
        }))
    id ← lift (parse_uuid_text parse_uuid message.id)
    publish_state id message.conversation_id MessageState.queued
    prepare_message_send parse_uuid message_id

  unfoldable pub prepare_pending_message_sends :
      (Text → Option ℕ) → Action S (List MessageSendEffect)
  unfolding prepare_message_send
  prepare_pending_message_sends parse_uuid = do
    pending ← query storage.pending_messages
    collect (prepare_message_send parse_uuid)
        (map (λ (m : ChatMessage). m.id) (retain (λ (m : ChatMessage). m.outgoing) pending))

  unfoldable pub prepare_pending_send_effects :
      (Text → Option ℕ) → Action S (List RuntimeSendEffect)
  unfolding prepare_pending_message_sends message_send_effect pending_send_effects
  prepare_pending_send_effects parse_uuid = do
    messages ← prepare_pending_message_sends parse_uuid
    inbox ← query storage.pairing_inbox
    now ← now_secs
    pairings ← lift (pending_send_effects inbox now)
    pure (map message_send_effect messages ++ pairings)

  unfoldable pub prepare_pending_receipt_effects : Action S (List ReceiptSendEffect)
  unfolding validate_receipt_effect
  prepare_pending_receipt_effects = do
    receipts ← query storage.pending_receipts
    collect (λ receipt. lift (validate_receipt_effect receipt)) receipts

  unfoldable pub expedite_retry_after_ready : Action S Unit
  expedite_retry_after_ready = store storage.expedite_retry_after_ready
