-- ===== src/Messaging/Sending.antt =====
-- The sending commands of `MessagingFeature` in packages/torchat-runtime/src/features/messaging/mod.rs,
-- with the summary of an outgoing message from logic.rs. `Uuid::now_v7` gives the new id, and
-- `uuid_text` is its `to_string`.
use t_orca.Base.{
  ℕ, Bool, true, false, not, ◌&&◌, Option, none, some, List, [], ◌∷◌, if◌then◌else◌, unwrap_or,
  Text, text_eq, codes, RuntimeResult, ok, err, ok_or, reject_if, conflict, not_found,
}
use t_orca.Base.Int.{ℤ}
use t_orca.Base.Method.{Method, return, ◌>>=◌, ◌>>◌, lift, reading}
use t_orca.Domain.{MessageState, ConversationState, VerificationState, message_state_eq, can_send}
use t_orca.Models.{ChatMessage, MessageReply, MessageSendEffect, ConversationSummary, ContactRecord}
use t_orca.Changes.{FeatureResult, changed}
use t_orca.Messaging.Rules.{message_state_on_send_prepare}
use t_orca.Messaging.Outcome.{
  MessageStorage, normalize_message_text, parse_message_id, message_effect, message_changes,
}

-- The part of `ConversationStorage`, `ContactStorage` and `MessageStorage` that sending uses.
pub record ConversationStorage (S : Type 0) : Type 0 where
  pub conversation_by_id : S → Text → RuntimeResult (Option ConversationSummary)
  pub put_conversation : ConversationSummary → Method S Unit
  pub contact_by_installation_id : S → Text → RuntimeResult (Option ContactRecord)
  pub pending_messages : S → RuntimeResult (List ChatMessage)

pub record MessageRetryResult : Type 0 where
  pub effect : MessageSendEffect
  pub message_id : ℕ
  pub transitions : List MessageState

pub record MessageQueueResult : Type 0 where
  pub effect : MessageSendEffect
  pub message_id : ℕ
  pub created_at : ℤ
  pub transitions : List MessageState

unfoldable pub runtime_conversation_summary_on_outgoing :
    Option ℕ → Text → Text → Text → ℤ → ConversationSummary
runtime_conversation_summary_on_outgoing unread id contact preview last_message_at = record {
  id = id;
  contact_installation_id = contact;
  status = ConversationState.active;
  last_message_preview = preview;
  last_message_at = last_message_at;
  unread_count = unwrap_or unread 0;
}

unfoldable pub is_verified : VerificationState → Bool
is_verified VerificationState.verified = true
is_verified VerificationState.unverified = false

-- The message with which `queue` starts.
unfoldable pub new_message : Text → Text → Text → Option MessageReply → ℤ → ChatMessage
new_message id conversation_id text reply_to now_ms = record {
  id = id;
  conversation_id = conversation_id;
  outgoing = true;
  body = text;
  reply_to = reply_to;
  state = MessageState.queued;
  created_at = now_ms;
  attempt_count = 0;
  last_attempt_at = none;
  next_attempt_at = now_ms;
  ack_deadline = none;
  last_transport_error = none;
}

module _ {S : Type 0} (storage : MessageStorage S) (lookups : ConversationStorage S) where
  unfoldable pub delivery_contact : S → ConversationSummary → RuntimeResult ContactRecord
  unfolding can_send is_verified
  delivery_contact s conversation =
      if not (can_send conversation.status)
      then err (conflict (codes "conversation is not ready to send"))
      else elim (lookups.contact_by_installation_id s conversation.contact_installation_id) [
        | err e ↦ err e
        | ok none ↦ err (not_found (codes "recipient contact does not exist"))
        | ok (some contact) ↦
            if not (is_verified contact.verification)
            then err (conflict (codes "contact must be verified before sending"))
            else if contact.blocked
            then err (conflict (codes "contact is blocked"))
            else ok contact
      ]

  -- The conversation of a message, and the contact that it may be delivered to.
  unfoldable pub delivery_target : Text → Method S (ConversationSummary × ContactRecord)
  unfolding delivery_contact
  delivery_target conversation_id = do
    stored ← reading (λ s. lookups.conversation_by_id s conversation_id)
    conversation ← lift (ok_or stored (not_found (codes "conversation does not exist")))
    contact ← reading (λ s. delivery_contact s conversation)
    return (conversation, contact)

  -- The message enters the state of a send attempt, and is stored where that changes it.
  unfoldable pub enter_sending : ChatMessage → Bool → Method S (ChatMessage × List MessageState)
  unfolding message_state_on_send_prepare message_state_eq
  enter_sending message manual_retry = do
    next_state ← lift (
        ok_or (message_state_on_send_prepare message.state)
          (conflict (codes "message is not eligible for a send attempt")))
    if not (message_state_eq next_state message.state)
        then (do
          storage.put_message (record message { state = next_state })
          return (record message { state = next_state }, next_state ∷ []))
        else if manual_retry && not (message_state_eq message.state MessageState.sending)
        then lift (err (conflict (codes "message retry did not enter sending state")))
        else return (message, [])

  unfoldable pub prepare_existing :
      (Text → Option ℕ) → ChatMessage → Bool → Method S (FeatureResult MessageRetryResult)
  unfolding parse_message_id delivery_target enter_sending message_effect message_changes changed
  prepare_existing parse_uuid message manual_retry = do
    parsed_message_id ← lift (parse_message_id parse_uuid message.id)
    target ← delivery_target message.conversation_id
    entered ← enter_sending message manual_retry
    return (
        changed
          (record {
            effect = message_effect entered.0 target.1.installation_id;
            message_id = parsed_message_id;
            transitions = entered.1;
          })
          (message_changes entered.0.id entered.0.conversation_id))

  -- `matches!(state, Failed | Queued)`.
  unfoldable pub can_retry : MessageState → Bool
  can_retry MessageState.failed = true
  can_retry MessageState.queued = true
  can_retry _ = false

  unfoldable pub retry : (Text → Option ℕ) → Text → ℤ → Method S (FeatureResult MessageRetryResult)
  unfolding can_retry prepare_existing
  retry parse_uuid message_id now_ms = do
    stored ← reading (λ s. storage.message_by_id s message_id)
    message ← lift (ok_or stored (not_found (codes "message does not exist")))
    lift (reject_if (not message.outgoing) (conflict (codes "incoming message cannot be retried")))
    lift (
        reject_if (not (can_retry message.state))
          (conflict (codes "message is not eligible for manual retry")))
    let queued = record message {
      state = MessageState.queued;
      next_attempt_at = now_ms;
      ack_deadline = none;
      last_transport_error = none;
    }
    storage.put_message queued
    r ← prepare_existing parse_uuid queued true
    return (record r {
      value = record r.value { transitions = MessageState.queued ∷ r.value.transitions };
    })

  -- The message that is replied to, which is of the same conversation.
  unfoldable pub reply_of : Text → Option Text → Method S (Option MessageReply)
  reply_of conversation_id none = return none
  reply_of conversation_id (some reply_id) = do
    stored ← reading (λ s. storage.message_by_id s reply_id)
    message ← lift (ok_or stored (not_found (codes "reply message does not exist")))
    lift (
        reject_if (not (text_eq message.conversation_id conversation_id))
          (conflict (codes "reply message belongs to another conversation")))
    return (
        some (record { message_id = message.id; body = message.body; outgoing = message.outgoing }))

  -- The writes of `queue`, once the target is known.
  unfoldable pub queue_for :
      (ℕ → Text)
      → (new_id : ℕ) → Text
      → Text
      → Option MessageReply
      → ℤ
      → ConversationSummary × ContactRecord
      → Method S (FeatureResult MessageQueueResult)
  unfolding new_message enter_sending message_effect message_changes changed
      runtime_conversation_summary_on_outgoing
  queue_for uuid_text new_id conversation_id text reply_to now_ms target = do
    let message = new_message (uuid_text new_id) conversation_id text reply_to now_ms
    storage.put_message message
    lookups.put_conversation (
        runtime_conversation_summary_on_outgoing (some target.0.unread_count) target.0.id
          target.1.installation_id text now_ms)
    entered ← enter_sending message false
    return (
        changed
          (record {
            effect = message_effect entered.0 target.1.installation_id;
            message_id = new_id;
            created_at = now_ms;
            transitions = MessageState.queued ∷ entered.1;
          })
          (message_changes entered.0.id entered.0.conversation_id))

  unfoldable pub queue :
      (ℕ → Text)
      → (new_id : ℕ) → Text
      → Text
      → Option Text
      → ℤ
      → Method S (FeatureResult MessageQueueResult)
  unfolding normalize_message_text reply_of delivery_target queue_for
  queue uuid_text new_id conversation_id text reply_to_message_id now_ms = do
    text ← lift (normalize_message_text text)
    reply_to ← reply_of conversation_id reply_to_message_id
    target ← delivery_target conversation_id
    queue_for uuid_text new_id conversation_id text reply_to now_ms target
