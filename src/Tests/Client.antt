-- ===== src/Tests/Client.antt =====
-- Runs of the commands of the client runtime over the storage of its tests.
use t_orca.Base.{
  ℕ, ◌≡◌, refl, none, some, ◌+◌, ◌-◌, trim, text_eq, [], ◌∷◌, Option, Text, codes, ok, true, false,
}
use t_orca.Base.Int.{pos}
use t_orca.Domain.{
  MessageState, ConversationState, VerificationState, PeerEndpointStatus, PeerConnectionStatus,
  ContactTransportPolicy,
}
use t_orca.Models.{ChatMessage, ConversationSummary, ContactRecord}
use t_orca.Messaging.Outcome.{message_effect}
use t_orca.Client.Session.{new_session}
use t_orca.Client.Action.{
  Client, pure, lift, query, store, publish, session_of, now_ms, choose, required, ◌>>=◌,
}
use t_orca.Client.Memory.{
  MemoryStorage, message_by_id, put_message, put_conversation, memory_storage,
  memory_storage-KeepsMessages,
}
use t_orca.Client.Messages.{prepare_message_send}
use t_orca.Client.Incoming.{
  accept_incoming, known_incoming, incoming_message, receive_message_reply,
}
use t_orca.Client.Receiving.{receive_again}
use t_orca.Client.Recipient.{MaySend, prepare_message_send-MaySend}

abbrev pub a_contact : ContactRecord
a_contact = record {
  installation_id = codes "peer-1";
  nickname = codes "Peer";
  public_key = codes "pk";
  fingerprint = codes "fp";
  local_alias = none;
  muted = false;
  blocked = false;
  verification = VerificationState.verified;
  peer_endpoint_status = PeerEndpointStatus.verified;
  peer_connection_status = PeerConnectionStatus.offline;
  transport_policy = ContactTransportPolicy.peer_only;
  last_peer_connected_at = none;
  last_seen_at = none;
  dev = none;
}

abbrev pub a_conversation : ConversationSummary
a_conversation = record {
  id = codes "peer-1";
  contact_installation_id = codes "peer-1";
  status = ConversationState.active;
  last_message_preview = [];
  last_message_at = pos 0;
  unread_count = 0;
}

abbrev pub a_message : ChatMessage
a_message = record {
  id = codes "7";
  conversation_id = codes "peer-1";
  outgoing = true;
  body = codes "hi";
  reply_to = none;
  state = MessageState.queued;
  created_at = pos 42;
  attempt_count = 0;
  last_attempt_at = none;
  next_attempt_at = pos 42;
  ack_deadline = none;
  last_transport_error = none;
}

abbrev pub a_store : MemoryStorage
a_store = record {
  identity = none;
  profile = none;
  pairing_code = none;
  inbox = [];
  outbox = [];
  contacts = a_contact ∷ [];
  conversations = a_conversation ∷ [];
  messages = a_message ∷ [];
}

abbrev pub a_client : Client MemoryStorage
a_client = record { storage = a_store; session = new_session; clock = λ n. pos 42; readings = 0 }

-- Ids are their digits, here of one place.
abbrev pub digit : ℕ → Text
digit n = (48 + n) ∷ []

abbrev pub a_uuid : Text → Option ℕ
a_uuid [] = none
a_uuid (c ∷ cs) = some (c - 48)

prepare_message_send-MaySend_example :
    MaySend memory_storage a_store (codes "7") (message_effect a_message (codes "peer-1"))
unfolding prepare_message_send message_by_id put_message message_effect ◌>>=◌ query lift text_eq
    pure required store publish
prepare_message_send-MaySend_example =
    prepare_message_send-MaySend memory_storage a_uuid (codes "7") a_client
      (prepare_message_send memory_storage a_uuid (codes "7") a_client).1
      (message_effect a_message (codes "peer-1")) refl

abbrev received : ChatMessage
received = incoming_message (codes "3") (codes "peer-1") (codes "yo") none (pos 42)

receive_again_example :
    let c' =
      (receive_message_reply memory_storage digit
        (codes "peer-1")
        (codes " yo")
        3
        none
        a_client).1 in
    receive_message_reply memory_storage digit (codes "peer-1") (codes "yo ") 3 none c'
    ≡ (ok received, c')
unfolding receive_message_reply message_by_id put_message put_conversation incoming_message ◌>>=◌
    trim pure query choose text_eq now_ms session_of store publish lift known_incoming
    accept_incoming
receive_again_example =
    receive_again memory_storage memory_storage-KeepsMessages digit (codes "peer-1") (codes " yo")
      (codes "yo ") 3 none none a_client
      (receive_message_reply memory_storage digit (codes "peer-1") (codes " yo") 3 none a_client).1
      received refl refl
