-- ===== src/Client/Incoming.antt =====
-- The commands of `ClientRuntime` (packages/torchat-runtime/src/runtime.rs) on what the peer sends: a
-- message, a read receipt, the outcome of a transport; and on the conversation that is looked at.
-- The summary of an incoming message is that of logic.rs, whose `u32` count has no guard: its overflow
-- (a panic, or 0 in a release build) is written as a wrap.
use t_orca.Base.{
  ℕ, ◌+◌, ◌%◌, ◌^◌, ◌==◌, Bool, true, false, not, ◌||◌, Option, none, some, ◌++◌, find,
  if◌then◌else◌, is_empty, unwrap_or, Text, text_eq, trim, codes, RuntimeResult, ok, err, ok_or,
  conflict, invalid_params,
}
use t_orca.Base.Int.{ℤ, pos}
use t_orca.Domain.{MessageState, ConversationState, MessageTransportOutcome, message_state_eq}
use t_orca.Models.{ConversationSummary, ChatMessage, MessageReply}
use t_orca.Messaging.Rules.{message_state_after_transport_outcome}
use t_orca.Client.Events.{RuntimeEvent}
use t_orca.Client.Session.{
  conversation_is_attended, set_conversation_focus, select_conversation,
  clear_selected_conversation, set_app_foreground,
}
use t_orca.Client.Storage.{RuntimeStorage}
use t_orca.Client.Action.{
  Action, pure, fail, lift, query, store, session_of, on_session, publish, now_ms, choose, ◌>>=◌,
  ◌>>◌,
}
use t_orca.Client.Contacts.{publish_changed}
use t_orca.Client.Messages.{is_conversation, stored_message, publish_state}

unfoldable pub runtime_conversation_unread_after_incoming : Option ℕ → Bool → ℕ
runtime_conversation_unread_after_incoming current selected =
    if selected then 0 else (unwrap_or current 0 + 1) % 2 ^ 32

unfoldable pub runtime_conversation_summary_on_incoming :
    Option ℕ → Text → Text → Text → ℤ → Bool → ConversationSummary
unfolding runtime_conversation_unread_after_incoming
runtime_conversation_summary_on_incoming current id contact preview last_message_at selected =
    record {
      id = id;
      contact_installation_id = contact;
      status = ConversationState.active;
      last_message_preview = preview;
      last_message_at = last_message_at;
      unread_count = runtime_conversation_unread_after_incoming current selected;
    }

-- The summary of the conversation, whether it is known or not.
unfoldable pub incoming_summary :
    Option ConversationSummary → Text → Text → ℤ → Bool → ConversationSummary
unfolding runtime_conversation_summary_on_incoming
incoming_summary none conversation_id body now selected =
    runtime_conversation_summary_on_incoming none conversation_id conversation_id body now selected
incoming_summary (some c) conversation_id body now selected =
    runtime_conversation_summary_on_incoming (some c.unread_count) c.id c.contact_installation_id
      body now selected

unfoldable pub incoming_message : Text → Text → Text → Option MessageReply → ℤ → ChatMessage
incoming_message id conversation_id body reply_to created_at = record {
  id = id;
  conversation_id = conversation_id;
  outgoing = false;
  body = body;
  reply_to = reply_to;
  state = MessageState.delivered;
  created_at = created_at;
  attempt_count = 0;
  last_attempt_at = none;
  next_attempt_at = pos 0;
  ack_deadline = none;
  last_transport_error = none;
}

-- The answer where a message with the id is stored already.
unfoldable pub known_incoming : ChatMessage → Text → Text → RuntimeResult ChatMessage
known_incoming existing conversation_id body =
    if existing.outgoing
    then err (conflict (codes "incoming message id collides with outgoing message"))
    else if not (text_eq existing.conversation_id conversation_id)
        || not (text_eq existing.body body)
    then err (conflict (codes "incoming message id has different content"))
    else ok existing

-- `matches!(state, Sent | Delivered)`.
unfoldable pub may_be_read : MessageState → Bool
may_be_read MessageState.sent = true
may_be_read MessageState.delivered = true
may_be_read _ = false

module _ {S : Type 0} (storage : RuntimeStorage S) where
  -- A message that is new: it is stored with its conversation, and told.
  unfoldable pub accept_incoming :
      (ℕ → Text) → ℕ → Text → Text → Option MessageReply → Action S ChatMessage
  unfolding is_conversation conversation_is_attended incoming_summary incoming_message publish_state
      publish_changed
  accept_incoming uuid_text message_id conversation_id body reply_to = do
    conversations ← query storage.conversations
    selected ← session_of (conversation_is_attended conversation_id)
    created_at ← now_ms
    let message = incoming_message (uuid_text message_id) conversation_id body reply_to created_at
    let conversation =
        incoming_summary (find (is_conversation conversation_id) conversations) conversation_id body
          created_at selected
    store (storage.put_message message)
    store (storage.put_conversation conversation)
    publish (RuntimeEvent.message_received (some message_id) (some conversation_id) (some body))
    publish_state storage message_id conversation_id message.state
    publish (
        RuntimeEvent.conversation_read_changed (some conversation_id)
          (some conversation.unread_count))
    publish_changed storage (codes "conversations")
    pure message

  -- `message_id` is the id of the message, or the one that `Uuid::new_v4` gives.
  unfoldable pub receive_message_reply :
      (ℕ → Text) → Text → Text → ℕ → Option MessageReply → Action S ChatMessage
  receive_message_reply uuid_text conversation_id text message_id reply_to = do
    let body = trim text
    if is_empty body
        then fail (invalid_params (codes "message body must not be empty"))
        else pure tt
    stored ← query (λ s. storage.message_by_id s (uuid_text message_id))
    choose stored (accept_incoming uuid_text message_id conversation_id body reply_to)
        (λ existing. lift (known_incoming existing conversation_id body))

  unfoldable pub receive_message : (ℕ → Text) → Text → Text → ℕ → Action S ChatMessage
  unfolding receive_message_reply
  receive_message uuid_text conversation_id body message_id =
      receive_message_reply uuid_text conversation_id body message_id none

  unfoldable pub apply_message_read : (ℕ → Text) → ℕ → Action S ChatMessage
  unfolding stored_message message_state_eq may_be_read publish_state
  apply_message_read uuid_text message_id = do
    message ← stored_message storage (uuid_text message_id)
    if not message.outgoing
        then fail (conflict (codes "incoming message cannot receive a read receipt"))
        else pure tt
    if message_state_eq message.state MessageState.read then pure message else (do
      if not (may_be_read message.state)
          then fail (conflict (codes "message is not eligible for a read receipt"))
          else pure tt
      let read = record message { state = MessageState.read }
      store (storage.put_message read)
      publish_state storage message_id read.conversation_id MessageState.read
      pure read)

  unfoldable pub apply_message_transport_outcome :
      (ℕ → Text) → ℕ → MessageTransportOutcome → Action S ChatMessage
  unfolding stored_message message_state_eq message_state_after_transport_outcome publish_state
  apply_message_transport_outcome uuid_text message_id outcome = do
    message ← stored_message storage (uuid_text message_id)
    if not message.outgoing
        then fail (conflict (codes "incoming message state is owned by receive_message"))
        else pure tt
    next ← lift (
        ok_or (message_state_after_transport_outcome message.state outcome)
          (conflict (codes "transport outcome is invalid for the current message state")))
    if message_state_eq next message.state then pure message else (do
      let changed = record message { state = next }
      store (storage.put_message changed)
      publish_state storage message_id changed.conversation_id next
      pure changed)

  unfoldable pub delete_message_local : Text → Action S Unit
  unfolding stored_message publish_changed
  delete_message_local message_id = do
    message ← stored_message storage message_id
    store (storage.delete_message message_id)
    publish_changed storage (codes "messages:" ++ message.conversation_id)

  unfoldable pub focus_conversation : Text → Bool → Action S Unit
  unfolding set_conversation_focus conversation_is_attended is_conversation
  focus_conversation conversation_id focused = do
    on_session (set_conversation_focus conversation_id focused)
    attended ← session_of (conversation_is_attended conversation_id)
    if not focused || not attended then pure tt else (do
      conversations ← query storage.conversations
      let unread = elim (find (is_conversation conversation_id) conversations) as (λ c. ℕ) [
        | none ↦ 0
        | some conversation ↦ conversation.unread_count
      ]
      if unread == 0 then pure tt else (do
        store (storage.mark_conversation_read conversation_id)
        publish (RuntimeEvent.conversation_read_changed (some conversation_id) (some 0))))

  unfoldable pub open_conversation : Text → Action S Unit
  unfolding select_conversation
  open_conversation conversation_id = on_session (select_conversation conversation_id)

  unfoldable pub close_conversation : Action S Unit
  unfolding clear_selected_conversation
  close_conversation = on_session clear_selected_conversation

  unfoldable pub foreground : Bool → Action S Unit
  unfolding set_app_foreground
  foreground visible = on_session (set_app_foreground visible)
