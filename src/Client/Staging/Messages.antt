-- ===== src/Client/Staging/Messages.antt =====
-- The commands of Client/Messages are staged: what they tell is kept back by an open transaction.
use t_orca.Base.{ℕ, Text, Option, none, some}
use t_orca.Client.Storage.{RuntimeStorage}
use t_orca.Client.Staging.{Staged, staged_rules}
use t_orca.Client.Messages.{
  send_message_reply, retry_message, prepare_pending_send_effects, prepare_pending_receipt_effects,
  expedite_retry_after_ready, reply_snapshot,
}

module _ {S : Type 0} (storage : RuntimeStorage S) where
  reply_snapshot-Staged :
      (conversation_id : Text) (reply : Option Text)
      → Staged (reply_snapshot storage conversation_id reply)
  unfolding reply_snapshot
  reply_snapshot-Staged conversation_id none = search staged_rules
  reply_snapshot-Staged conversation_id (some id) = search staged_rules depth 40

  pub send_message_reply-Staged :
      (uuid_text : ℕ → Text) (parse_uuid : Text → Option ℕ) (new_id : ℕ) (conversation_id : Text)
      (text : Text) (reply_to_message_id : Option Text)
      → Staged (
          send_message_reply storage uuid_text parse_uuid new_id conversation_id text
            reply_to_message_id)
  unfolding send_message_reply
  send_message_reply-Staged uuid_text parse_uuid new_id conversation_id text reply_to_message_id =
      search (staged_rules, reply_snapshot-Staged) depth 40

  pub retry_message-Staged :
      (parse_uuid : Text → Option ℕ) (message_id : Text)
      → Staged (retry_message storage parse_uuid message_id)
  unfolding retry_message
  retry_message-Staged parse_uuid message_id = search staged_rules depth 40

  pub prepare_pending_send_effects-Staged :
      (parse_uuid : Text → Option ℕ) → Staged (prepare_pending_send_effects storage parse_uuid)
  unfolding prepare_pending_send_effects
  prepare_pending_send_effects-Staged parse_uuid = search staged_rules depth 40

  pub prepare_pending_receipt_effects-Staged : Staged (prepare_pending_receipt_effects storage)
  unfolding prepare_pending_receipt_effects
  prepare_pending_receipt_effects-Staged = search staged_rules depth 40

  pub expedite_retry_after_ready-Staged : Staged (expedite_retry_after_ready storage)
  unfolding expedite_retry_after_ready
  expedite_retry_after_ready-Staged = search staged_rules depth 40
