-- ===== src/Domain.antt =====
-- packages/torchat-domain/src/lib.rs: the vocabulary of the client, as data types with the enums'
-- own constructors, and the pure predicates on them.
pub mod Words
use t_orca.Base.{
  ℕ, Bool, true, false, not, ◌&&◌, ◌||◌, ◌≡◌, refl, List, [], ◌∷◌, ◌==◌, if◌then◌else◌, arith,
}

pub data PairingAction : Type 0 where
  accept reject complete expire archive cancel : PairingAction

pub data InviteState : Type 0 where
  pending accepted rejected completed expired archived cancelled : InviteState

pub data PairingAvailableAction : Type 0 where
  accept reject archive cancel : PairingAvailableAction

pub data PairingRelationshipState : Type 0 where
  candidate awaiting_local_approval awaiting_remote_approval : PairingRelationshipState
  finalizing active terminal : PairingRelationshipState

pub data PairingSendKind : Type 0 where
  offer rejection : PairingSendKind

pub data PairingPeerOutcome : Type 0 where
  offer_received rejection_received welcome_prepared : PairingPeerOutcome

pub data VerificationState : Type 0 where
  verified unverified : VerificationState

pub data PeerEndpointStatus : Type 0 where
  missing pending_exchange verified invalid : PeerEndpointStatus

pub data PeerConnectionStatus : Type 0 where
  offline connecting authenticating connected backoff : PeerConnectionStatus

pub data ContactTransportPolicy : Type 0 where
  peer_only : ContactTransportPolicy

pub data ConversationState : Type 0 where
  pending verifying active offline failed : ConversationState

pub data MessageState : Type 0 where
  queued sending sent delivered read failed : MessageState

pub data MessageTransportOutcome : Type 0 where
  delivered peer_persisted peer_delivered peer_unavailable : MessageTransportOutcome
  peer_authentication_failed peer_rejected retryable_failure : MessageTransportOutcome
  permanent_failure : MessageTransportOutcome

-- The derived `PartialEq` compares the discriminants.
abbrev invite_index : InviteState → ℕ
invite_index InviteState.pending = 0
invite_index InviteState.accepted = 1
invite_index InviteState.rejected = 2
invite_index InviteState.completed = 3
invite_index InviteState.expired = 4
invite_index InviteState.archived = 5
invite_index InviteState.cancelled = 6

unfoldable pub invite_eq : InviteState → InviteState → Bool
invite_eq s t = invite_index s == invite_index t

abbrev message_index : MessageState → ℕ
message_index MessageState.queued = 0
message_index MessageState.sending = 1
message_index MessageState.sent = 2
message_index MessageState.delivered = 3
message_index MessageState.read = 4
message_index MessageState.failed = 5

unfoldable pub message_state_eq : MessageState → MessageState → Bool
message_state_eq s t = message_index s == message_index t

pub invite_eq→eq : (s t : InviteState) → invite_eq s t ≡ true → s ≡ t
unfolding invite_eq
invite_eq→eq s t h = ground arith

pub message_state_eq→eq : (s t : MessageState) → message_state_eq s t ≡ true → s ≡ t
unfolding message_state_eq
message_state_eq→eq s t h = ground arith

unfoldable pub is_pending : InviteState → Bool
is_pending InviteState.pending = true
is_pending _ = false

unfoldable pub is_accepted : InviteState → Bool
is_accepted InviteState.accepted = true
is_accepted _ = false

unfoldable pub is_outstanding : InviteState → Bool
unfolding is_pending is_accepted
is_outstanding s = is_pending s || is_accepted s

unfoldable pub can_archive : InviteState → Bool
can_archive InviteState.accepted = true
can_archive InviteState.rejected = true
can_archive InviteState.completed = true
can_archive InviteState.expired = true
can_archive InviteState.cancelled = true
can_archive _ = false

unfoldable pub is_terminal : InviteState → Bool
unfolding is_outstanding
is_terminal s = not (is_outstanding s)

unfoldable pub can_send : ConversationState → Bool
can_send ConversationState.active = true
can_send ConversationState.offline = true
can_send _ = false

unfoldable pub is_delivered : MessageState → Bool
is_delivered MessageState.delivered = true
is_delivered MessageState.read = true
is_delivered _ = false

unfoldable pub message_is_terminal : MessageState → Bool
message_is_terminal MessageState.delivered = true
message_is_terminal MessageState.read = true
message_is_terminal MessageState.failed = true
message_is_terminal _ = false

unfoldable pub pairing_available_actions : InviteState → Bool → List PairingAvailableAction
unfolding invite_eq is_outstanding can_archive
pairing_available_actions state received =
    if invite_eq state InviteState.archived
    then []
    else if received && invite_eq state InviteState.pending
    then PairingAvailableAction.accept ∷ PairingAvailableAction.reject ∷ []
    else if not received && is_outstanding state
    then PairingAvailableAction.cancel ∷ []
    else if can_archive state
    then PairingAvailableAction.archive ∷ []
    else []
