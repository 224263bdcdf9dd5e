-- ===== src/Models.antt =====
-- packages/torchat-runtime/src/models.rs: the records that the features read and write. A `String`
-- is a `Text`, an `i64` is a ℤ.
use t_orca.Base.{ℕ, Bool, true, false, Option, List, Text, ℕ_discrete}
use t_orca.Base.Int.{ℤ}
use t_orca.Domain.{
  InviteState, PairingAvailableAction, PairingSendKind, PairingRelationshipState, VerificationState,
  PeerEndpointStatus, PeerConnectionStatus, ContactTransportPolicy, ConversationState, MessageState,
}

pub record ContactRecord : Type 0 where
  pub installation_id : Text
  pub nickname : Text
  pub public_key : Text
  pub fingerprint : Text
  pub local_alias : Option Text
  pub muted : Bool
  pub blocked : Bool
  pub verification : VerificationState
  pub peer_endpoint_status : PeerEndpointStatus
  pub peer_connection_status : PeerConnectionStatus
  pub transport_policy : ContactTransportPolicy
  pub last_peer_connected_at : Option ℤ
  pub last_seen_at : Option ℤ
  pub dev : Option Text

pub record ConversationSummary : Type 0 where
  pub id : Text
  pub contact_installation_id : Text
  pub status : ConversationState
  pub last_message_preview : Text
  pub last_message_at : ℤ
  pub unread_count : ℕ

pub record MessageReply : Type 0 where
  pub message_id : Text
  pub body : Text
  pub outgoing : Bool

pub record ChatMessage : Type 0 where
  pub id : Text
  pub conversation_id : Text
  pub outgoing : Bool
  pub body : Text
  pub reply_to : Option MessageReply
  pub state : MessageState
  pub created_at : ℤ
  pub attempt_count : ℕ
  pub last_attempt_at : Option ℤ
  pub next_attempt_at : ℤ
  pub ack_deadline : Option ℤ
  pub last_transport_error : Option Text

pub record MessageSendEffect : Type 0 where
  pub message_id : Text
  pub conversation_id : Text
  pub recipient_installation_id : Text
  pub body : Text
  pub reply_to : Option MessageReply

pub record ReceiptSendEffect : Type 0 where
  pub envelope_id : Text
  pub message_id : Text
  pub conversation_id : Text
  pub recipient_installation_id : Text
  pub received_at : ℤ

pub record PairingItem : Type 0 where
  pub pairing_id : Text
  pub pair_key : Option Text
  pub sender : Option ContactRecord
  pub capability : Option Text
  pub expires_at : ℤ
  pub state : InviteState
  pub received : Bool
  pub available_actions : List PairingAvailableAction
  pub offer_invite_id : Option Text
  pub offer_payload : Option Text

pub record PairingPreparation : Type 0 where
  pub pairing_id : Text
  pub recipient_installation_id : Text
  pub capability : Text

pub record PairingSendEffect : Type 0 where
  pub pairing_id : Text
  pub recipient_installation_id : Text
  pub kind : PairingSendKind
  pub payload : Option Text

pub record PairingCancelEffect : Type 0 where
  pub pairing_id : Text

pub record RuntimeSendEffect : Type 0 where
  pub message : Option MessageSendEffect
  pub receipt : Option ReceiptSendEffect
  pub pairing : Option PairingSendEffect

-- The derived `PartialEq` of `PairingItem`.
unfoldable pub PairingItem-discrete : Discrete PairingItem
PairingItem-discrete = hlevel ℕ_discrete

unfoldable pub relationship_state : PairingItem → PairingRelationshipState
relationship_state item = by_state item.state item.received
  where
    by_state : InviteState → Bool → PairingRelationshipState
    by_state InviteState.pending true = PairingRelationshipState.awaiting_local_approval
    by_state InviteState.pending false = PairingRelationshipState.awaiting_remote_approval
    by_state InviteState.accepted r = PairingRelationshipState.finalizing
    by_state InviteState.completed r = PairingRelationshipState.active
    by_state s r = PairingRelationshipState.terminal
