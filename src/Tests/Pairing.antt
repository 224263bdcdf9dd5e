-- ===== src/Tests/Pairing.antt =====
-- Runs of the pairing rules, the vocabulary and the change sets.
use t_orca.Base.{
  ◌∷◌, count, is_empty, unwrap_or, not, ◌&&◌, ◌≡◌, ◌≢◌, ◌≤◌, ◌↔◌, refl, ◌⊎◌, true, false, none,
  some, [], codes, ok, max, All, trim,
}
use t_orca.Base.Int.{pos, max_ℤ}
use t_orca.Domain.{
  PairingAvailableAction, PairingSendKind, VerificationState, PeerEndpointStatus,
  PeerConnectionStatus, ContactTransportPolicy, invite_eq, InviteState, PairingAction,
  pairing_available_actions,
}
use t_orca.Pairing.Decisions.{
  AreExpired, IsSorted, commit_accept_idem, expire_items_lem, visible_items_lem,
}
use t_orca.Models.{ContactRecord, PairingItem}
use t_orca.Pairing.Rules.{
  normalize_pairing_item, transition, pairing_target_state, merge_invite_state, merge_pairing_item,
}
use t_orca.Pairing.Process.{commit_accept, send_effect, transition_invite_state}
use t_orca.Pairing.Settle.{expire_items, visible_items}
use t_orca.Pairing.Lifecycle.{action_of, transition_tables_agree, pairing_available_actions-allowed}
use t_orca.Pairing.Merge.{
  progress, merge_invite_state_lem, merge_pairing_item_idem, merge_pairing_item_keeps,
}

abbrev an_item : PairingItem
an_item = record {
  pairing_id = codes "p";
  pair_key = some (codes "k");
  sender = none;
  capability = none;
  expires_at = pos 10;
  state = InviteState.pending;
  received = true;
  available_actions = [];
  offer_invite_id = none;
  offer_payload = some (codes "offer");
}

-- The same request as the peer sees it.
abbrev a_remote_item : PairingItem
a_remote_item = record an_item {
  pair_key = some (codes "other");
  capability = some (codes "c");
  expires_at = pos 30;
  state = InviteState.completed;
  received = false;
}

merge_pairing_item_idem_example :
    let merged = (merge_pairing_item (some an_item) a_remote_item).item in
    let again = merge_pairing_item (some merged) a_remote_item in
    (again.item ≡ merged) × (again.inserted ≡ false) × (again.changed ≡ false)
merge_pairing_item_idem_example = merge_pairing_item_idem (some an_item) a_remote_item

merge_pairing_item_keeps_example :
    let item = (merge_pairing_item (some an_item) a_remote_item).item in
    (item.pairing_id ≡ an_item.pairing_id)
    × (an_item.pair_key ≢ none → item.pair_key ≡ an_item.pair_key)
    × (an_item.sender ≢ none → item.sender ≡ an_item.sender)
    × (is_empty (unwrap_or an_item.capability []) ≡ false → item.capability ≡ an_item.capability)
    × (an_item.offer_invite_id ≢ none → item.offer_invite_id ≡ an_item.offer_invite_id)
    × (an_item.offer_payload ≢ none → item.offer_payload ≡ an_item.offer_payload)
    × (an_item.received ≡ true → item.received ≡ true)
    × (item.expires_at ≡ max_ℤ an_item.expires_at a_remote_item.expires_at)
    × (item.available_actions ≡ pairing_available_actions item.state item.received)
merge_pairing_item_keeps_example = merge_pairing_item_keeps an_item a_remote_item

merge_invite_state_lem_example :
    (progress (merge_invite_state InviteState.pending InviteState.accepted)
      ≡ max (progress InviteState.pending) (progress InviteState.accepted))
    × (progress InviteState.accepted ≤ progress InviteState.pending
        → merge_invite_state InviteState.pending InviteState.accepted ≡ InviteState.pending)
    × ((merge_invite_state InviteState.pending InviteState.accepted ≡ InviteState.pending)
        ⊎ (merge_invite_state InviteState.pending InviteState.accepted ≡ InviteState.accepted))
merge_invite_state_lem_example = merge_invite_state_lem InviteState.pending InviteState.accepted

transition_tables_agree_example :
    ((transition_invite_state InviteState.pending PairingAction.accept ≡ ok InviteState.accepted)
      ↔ (transition InviteState.pending PairingAction.accept ≡ some InviteState.accepted))
    × (transition InviteState.pending PairingAction.accept ≡ some InviteState.accepted
        → InviteState.accepted ≡ pairing_target_state PairingAction.accept)
transition_tables_agree_example =
    transition_tables_agree InviteState.pending InviteState.accepted PairingAction.accept

pairing_available_actions-allowed_example :
    All
      (λ a. transition InviteState.pending (action_of a) ≢ none)
      (pairing_available_actions InviteState.pending true)
pairing_available_actions-allowed_example =
    pairing_available_actions-allowed InviteState.pending true

abbrev a_sender : ContactRecord
a_sender = record {
  installation_id = codes "peer";
  nickname = codes "Peer";
  public_key = codes "key";
  fingerprint = codes "print";
  local_alias = none;
  muted = false;
  blocked = false;
  verification = VerificationState.verified;
  peer_endpoint_status = PeerEndpointStatus.verified;
  peer_connection_status = PeerConnectionStatus.offline;
  transport_policy = ContactTransportPolicy.peer_only;
  last_peer_connected_at = none;
  last_seen_at = none;
  dev = none;
}

abbrev an_incoming_item : PairingItem
an_incoming_item = record an_item { sender = some a_sender; offer_payload = none }

abbrev an_accepted_item : PairingItem
an_accepted_item = record an_incoming_item {
  state = InviteState.accepted;
  available_actions = PairingAvailableAction.archive ∷ [];
  offer_invite_id = some (codes "i");
  offer_payload = some (codes "o");
}

commit_accept_idem_example :
    commit_accept an_accepted_item (codes "i") (codes "o") (pos 99)
    ≡ ok (
      an_accepted_item,
      send_effect (codes "p") (codes "peer") PairingSendKind.offer (some (codes "o")),
    )
unfolding commit_accept trim normalize_pairing_item pairing_available_actions
commit_accept_idem_example =
    commit_accept_idem an_incoming_item an_accepted_item (codes "i") (codes "o") (pos 5) (pos 99)
      (send_effect (codes "p") (codes "peer") PairingSendKind.offer (some (codes "o"))) refl

expire_items_lem_example :
    AreExpired
      (pos 20)
      (an_item ∷ a_remote_item ∷ [])
      (expire_items (an_item ∷ a_remote_item ∷ []) (pos 20))
expire_items_lem_example = expire_items_lem (an_item ∷ a_remote_item ∷ []) (pos 20)

visible_items_lem_example :
    IsSorted (visible_items (an_item ∷ a_remote_item ∷ []))
    × (count (λ i. i.received) (visible_items (an_item ∷ a_remote_item ∷ []))
        ≡ count
            (λ i. not (invite_eq i.state InviteState.archived) && i.received)
            (an_item ∷ a_remote_item ∷ []))
visible_items_lem_example = visible_items_lem (an_item ∷ a_remote_item ∷ []) (λ i. i.received)
