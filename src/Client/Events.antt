-- ===== src/Client/Events.antt =====
-- packages/torchat-runtime/src/contract.rs and the records of models.rs that only the runtime uses:
-- what the client runtime tells its user interface. An `i32` or `i64` is a ℤ, a UUID a number.
use t_orca.Base.{ℕ, Bool, Option, List, Text, ℕ_discrete}
use t_orca.Base.Int.{ℤ}
use t_orca.Domain.{InviteState, MessageState, PeerEndpointStatus, PeerConnectionStatus}
use t_orca.Models.{PairingItem, ConversationSummary}

pub data RuntimeStatusPhase : Type 0 where
  starting bootstrapping connecting degraded : RuntimeStatusPhase
  connected reconnecting offline error : RuntimeStatusPhase

pub data TransportComponent : Type 0 where
  engine peer : TransportComponent

pub data TransportProbeState : Type 0 where
  idle starting ready degraded error offline : TransportProbeState

pub data CapabilityStatus : Type 0 where
  missing pending active rotating revoked expired : CapabilityStatus

pub record RuntimeIdentity : Type 0 where
  pub installation_id : Text
  pub public_key : Text
  pub fingerprint : Text

pub record RuntimeProfile : Type 0 where
  pub installation_id : Text
  pub nickname : Text
  pub public_key : Text
  pub fingerprint : Text

-- `RuntimeProfile::from_identity`.
unfoldable pub from_identity : RuntimeIdentity → Text → RuntimeProfile
from_identity identity nickname = record {
  installation_id = identity.installation_id;
  nickname = nickname;
  public_key = identity.public_key;
  fingerprint = identity.fingerprint;
}

pub record InviteCode : Type 0 where
  pub code : Text
  pub expires_at : ℤ

-- `acknowledgements` lists the pairing ids of the `PairingAcknowledgeEffect`s.
pub record PairingSyncResult : Type 0 where
  pub items : List PairingItem
  pub acknowledgements : List Text

pub record WelcomeAcceptedResult : Type 0 where
  pub conversation : ConversationSummary

pub record RuntimeTorStatus : Type 0 where
  pub phase : RuntimeStatusPhase
  pub label : Text
  pub detail : Text
  pub progress : Option ℤ
  pub latency_ms : Option ℕ
  pub retry_attempt : ℕ

-- The derived `PartialEq` of `RuntimeTorStatus`.
unfoldable pub RuntimeTorStatus-discrete : Discrete RuntimeTorStatus
RuntimeTorStatus-discrete = hlevel ℕ_discrete

pub data RuntimeEvent : Type 0 where
  runtime_ready : (protocol : ℕ) → RuntimeEvent
  tor_status : RuntimeTorStatus → RuntimeEvent
  transport_status_changed :
      TransportComponent
      → TransportProbeState
      → (detail : Text) → (progress : Option ℤ) → (latency_ms : Option ℕ) → (retry_attempt : ℕ)
      → (retry_in_ms : Option ℕ) → (generation : ℕ) → (endpoint : Option Text) → (updated_at : ℤ)
      → RuntimeEvent
  profile_ready : RuntimeProfile → RuntimeEvent
  invite_received : (pairing_id nickname : Option Text) → RuntimeEvent
  invite_state_changed : (pairing_id : Option Text) → Option InviteState → RuntimeEvent
  message_received :
      (message_id : Option ℕ)
      → (conversation_id : Option Text) → (text : Option Text) → RuntimeEvent
  message_state_changed :
      (message_id : Option ℕ) → (conversation_id : Option Text) → Option MessageState → RuntimeEvent
  conversation_read_changed :
      (conversation_id : Option Text) → (unread_count : Option ℕ) → RuntimeEvent
  typing_changed : (conversation_id : Text) → (typing : Bool) → (expires_at : ℤ) → RuntimeEvent
  conversation_focus_changed :
      (conversation_id : Text) → (focused : Bool) → (expires_at : ℤ) → RuntimeEvent
  presence_changed :
      (contact_id : Text) → (online idle : Bool) → (observed_at expires_at : ℤ) → RuntimeEvent
  peer_endpoint_changed : (contact_id : Text) → PeerEndpointStatus → RuntimeEvent
  peer_connection_changed :
      (contact_id : Text) → PeerConnectionStatus → (retry_in_ms : Option ℕ) → RuntimeEvent
  contact_capability_changed :
      (contact_id capability_id : Text) → (sequence : ℕ) → CapabilityStatus → RuntimeEvent
  changed : (kind : Option Text) → RuntimeEvent
  runtime_error : (message : Text) → RuntimeEvent
  runtime_log : (message : Text) → RuntimeEvent
  projection_changed :
      (store_id engine_session_id : Text)
      → (revision : ℕ) → (application : Bool) → (conversation_ids : List Text) → RuntimeEvent
