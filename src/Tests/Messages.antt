-- ===== src/Tests/Messages.antt =====
-- Runs of the sending of messages.
use t_orca.Base.{◌≡◌, refl, none, some, List, [], ◌∷◌, codes, ok, trim, false}
use t_orca.Base.Int.{pos}
use t_orca.Domain.{
  MessageState, ConversationState, VerificationState, PeerEndpointStatus, PeerConnectionStatus,
  ContactTransportPolicy,
}
use t_orca.Models.{ChatMessage, ConversationSummary, ContactRecord}
use t_orca.Messaging.Outcome.{MessageStorage, message_changes, message_effect}
use t_orca.Messaging.Sending.{ConversationStorage, new_message, queue}
use t_orca.Messaging.Recipient.{IsAllowed, queue-IsAllowed}
use t_orca.Changes.{Section, changed, merge}
use t_orca.Changes.Laws.{IsUnionAt, merge_lem}
use t_orca.Operations.Storage.{operation_changes}

abbrev a_contact : ContactRecord
a_contact = record {
  installation_id = codes "peer";
  nickname = codes "Peer";
  public_key = codes "key";
  fingerprint = codes "print";
  local_alias = none;
  muted = false;
  blocked = false;
  verification = VerificationState.verified;
  peer_endpoint_status = PeerEndpointStatus.verified;
  peer_connection_status = PeerConnectionStatus.offline;
  transport_policy = ContactTransportPolicy.peer_only;
  last_peer_connected_at = none;
  last_seen_at = none;
  dev = none;
}

abbrev a_conversation : ConversationSummary
a_conversation = record {
  id = codes "c";
  contact_installation_id = codes "peer";
  status = ConversationState.active;
  last_message_preview = [];
  last_message_at = pos 0;
  unread_count = 0;
}

-- A store of the messages that were put, the last one first.
abbrev outbox : MessageStorage (List ChatMessage)
outbox = record {
  message_by_id = λ s id. ok none;
  put_message = λ m s. (ok tt, m ∷ s);
  delete_message = λ id s. (ok tt, s);
}

abbrev one_conversation : ConversationStorage (List ChatMessage)
one_conversation = record {
  conversation_by_id = λ s id. ok (some a_conversation);
  put_conversation = λ c s. (ok tt, s);
  contact_by_installation_id = λ s id. ok (some a_contact);
  pending_messages = λ s. ok s;
}

abbrev sent_message : ChatMessage
sent_message = record (new_message (codes "m") (codes "c") (codes "hello") none (pos 5)) {
  state = MessageState.sending;
}

queue-IsAllowed_example :
    IsAllowed outbox one_conversation [] (codes "c") (codes "peer")
    × (MessageState.queued ∷ MessageState.sending ∷ []
        ≡ MessageState.queued ∷ MessageState.sending ∷ [])
    × (codes "hello" ≡ trim (codes " hello "))
unfolding queue trim new_message message_effect
queue-IsAllowed_example =
    queue-IsAllowed outbox one_conversation (λ n. codes "m") 7 (codes "c") (codes " hello ") none
      (pos 5) []
      (sent_message ∷ new_message (codes "m") (codes "c") (codes "hello") none (pos 5) ∷ [])
      (changed
        (record {
          effect = message_effect sent_message (codes "peer");
          message_id = 7;
          created_at = pos 5;
          transitions = MessageState.queued ∷ MessageState.sending ∷ [];
        })
        (message_changes (codes "m") (codes "c")))
      refl

merge_lem_example :
    IsUnionAt Section.operations
      (codes "op")
      (message_changes (codes "m") (codes "c"))
      (operation_changes (codes "op"))
      (merge (message_changes (codes "m") (codes "c")) (operation_changes (codes "op")))
merge_lem_example =
    merge_lem (message_changes (codes "m") (codes "c")) (operation_changes (codes "op"))
      Section.operations (codes "op")
