-- ===== src/Client/Staging/Incoming.antt =====
-- The commands of Client/Incoming are staged: what they tell is kept back by an open transaction.
use t_orca.Base.{ℕ, Text, Option, Bool}
use t_orca.Domain.{MessageTransportOutcome}
use t_orca.Models.{MessageReply}
use t_orca.Client.Storage.{RuntimeStorage}
use t_orca.Client.Staging.{Staged, staged_rules}
use t_orca.Client.Incoming.{
  accept_incoming, receive_message_reply, apply_message_read, apply_message_transport_outcome,
  delete_message_local, focus_conversation, open_conversation, close_conversation, foreground,
}

module _ {S : Type 0} (storage : RuntimeStorage S) where
  pub receive_message_reply-Staged :
      (uuid_text : ℕ → Text) (conversation_id : Text) (text : Text) (message_id : ℕ)
      (reply_to : Option MessageReply)
      → Staged (receive_message_reply storage uuid_text conversation_id text message_id reply_to)
  unfolding receive_message_reply accept_incoming
  receive_message_reply-Staged uuid_text conversation_id text message_id reply_to =
      search staged_rules depth 40

  pub apply_message_read-Staged :
      (uuid_text : ℕ → Text) (message_id : ℕ)
      → Staged (apply_message_read storage uuid_text message_id)
  unfolding apply_message_read
  apply_message_read-Staged uuid_text message_id = search staged_rules depth 40

  pub apply_message_transport_outcome-Staged :
      (uuid_text : ℕ → Text) (message_id : ℕ) (outcome : MessageTransportOutcome)
      → Staged (apply_message_transport_outcome storage uuid_text message_id outcome)
  unfolding apply_message_transport_outcome
  apply_message_transport_outcome-Staged uuid_text message_id outcome = search staged_rules depth 40

  pub delete_message_local-Staged :
      (message_id : Text) → Staged (delete_message_local storage message_id)
  unfolding delete_message_local
  delete_message_local-Staged message_id = search staged_rules depth 40

  pub focus_conversation-Staged :
      (conversation_id : Text) (focused : Bool)
      → Staged (focus_conversation storage conversation_id focused)
  unfolding focus_conversation
  focus_conversation-Staged conversation_id focused = search staged_rules depth 40

  pub open_conversation-Staged :
      (conversation_id : Text) → Staged (open_conversation storage conversation_id)
  unfolding open_conversation
  open_conversation-Staged conversation_id = search staged_rules depth 40

  pub close_conversation-Staged : Staged (close_conversation storage)
  unfolding close_conversation
  close_conversation-Staged = search staged_rules depth 40

  pub foreground-Staged : (visible : Bool) → Staged (foreground storage visible)
  unfolding foreground
  foreground-Staged visible = search staged_rules depth 40
