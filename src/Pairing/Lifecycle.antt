-- ===== src/Pairing/Lifecycle.antt =====
-- What the state machine of an invitation promises (rules.rs and process.rs): the two copies of
-- its table agree, each step goes forward, and the offered actions are allowed.
use t_orca.Base.{ℕ, ◌≤◌, ◌<◌, ◌≡◌, ◌≢◌, ◌↔◌, Bool, none, some, All, arith, ok}
use t_orca.Domain.{
  InviteState, PairingAction, PairingAvailableAction, PairingPeerOutcome, pairing_available_actions,
}
use t_orca.Pairing.Rules.{transition, pairing_target_state}
use t_orca.Pairing.Process.{transition_invite_state}
use t_orca.Pairing.Settle.{next_state_for_peer_outcome}

-- How far an invitation has come.
abbrev pub phase : InviteState → ℕ
phase InviteState.pending = 0
phase InviteState.accepted = 1
phase InviteState.archived = 3
phase _ = 2

-- The tables of rules.rs and process.rs are one: a step is refused by both, or made by both to
-- the same state, which is the action's target.
pub transition_tables_agree :
    (s t : InviteState) (a : PairingAction)
    → ((transition_invite_state s a ≡ ok t) ↔ (transition s a ≡ some t))
      × (transition s a ≡ some t → t ≡ pairing_target_state a)
unfolding transition_invite_state transition pairing_target_state
transition_tables_agree s t a = grind arith

-- Every step of the table takes the invitation to a later phase.
phase-transition :
    (s t : InviteState) (a : PairingAction) → transition s a ≡ some t → phase s < phase t
unfolding transition
phase-transition s t a h = ground arith

-- The action behind an action that the interface offers.
abbrev pub action_of : PairingAvailableAction → PairingAction
action_of PairingAvailableAction.accept = PairingAction.accept
action_of PairingAvailableAction.reject = PairingAction.reject
action_of PairingAvailableAction.archive = PairingAction.archive
action_of PairingAvailableAction.cancel = PairingAction.cancel

-- Each action that the interface offers for an invitation is one that the table allows.
pub pairing_available_actions-allowed :
    (s : InviteState) (received : Bool)
    → All (λ a. transition s (action_of a) ≢ none) (pairing_available_actions s received)
unfolding pairing_available_actions transition
pairing_available_actions-allowed s received = ground arith

-- An outcome that the peer reports never takes an invitation back to an earlier phase.
phase-next_state_for_peer_outcome :
    (s t : InviteState) (o : PairingPeerOutcome)
    → next_state_for_peer_outcome s o ≡ ok t
    → (phase s ≤ phase t) × (t ≢ InviteState.pending)
unfolding next_state_for_peer_outcome
phase-next_state_for_peer_outcome s t o h = ground arith
