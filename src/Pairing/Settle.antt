-- ===== src/Pairing/Settle.antt =====
-- The second half of packages/torchat-runtime/src/features/pairing/process.rs: how a request is
-- rejected, cancelled, completed, expired and reconciled with the contacts.
use t_orca.Base.{
  Bool, true, false, not, ◌&&◌, ◌||◌, Option, none, some, List, [], ◌∷◌, ◌==◌, any, retain, count,
  filter_map, is_some_and, length, if◌then◌else◌, Text, text_eq, text_lt, codes, ok, err,
  RuntimeResult, ok_or, reject_if, ◌>>=◌, ◌>>◌, conflict,
}
use t_orca.Base.Int.{ℤ, ltb_ℤ, leb_ℤ}
use t_orca.Domain.{InviteState, PairingAction, PairingPeerOutcome, invite_eq, is_outstanding}
use t_orca.Models.{ContactRecord, PairingItem, PairingCancelEffect}
use t_orca.Pairing.Rules.{normalize_pairing_item}
use t_orca.Pairing.Process.{transition_invite_state}

unfoldable pub prepare_reject : PairingItem → ℤ → RuntimeResult (PairingItem × Text)
unfolding invite_eq transition_invite_state normalize_pairing_item
prepare_reject item now_secs = do
  sender ← ok_or item.sender (conflict (codes "pairing sender does not exist"))
  if invite_eq item.state InviteState.rejected then ok (item, sender.installation_id) else (do
    reject_if (ltb_ℤ item.expires_at now_secs) (conflict (codes "pairing request is expired"))
    next ← transition_invite_state item.state PairingAction.reject
    ok (normalize_pairing_item (record item { state = next }), sender.installation_id))

unfoldable pub prepare_cancel : PairingItem → RuntimeResult PairingCancelEffect
unfolding is_outstanding
prepare_cancel item = do
  reject_if (not (is_outstanding item.state))
      (conflict (codes "pairing request cannot be cancelled from its current state"))
  ok (record { pairing_id = item.pairing_id })

unfoldable pub commit_cancel : PairingItem → RuntimeResult PairingItem
unfolding invite_eq is_outstanding normalize_pairing_item
commit_cancel item = if invite_eq item.state InviteState.cancelled then ok item else do
  reject_if (not (is_outstanding item.state))
      (conflict (codes "pairing request cannot be cancelled from its current state"))
  ok (normalize_pairing_item (record item { state = InviteState.cancelled }))

unfoldable pub confirm_cancel : PairingItem → RuntimeResult (Option PairingItem)
unfolding commit_cancel
confirm_cancel item =
    if invite_eq item.state InviteState.cancelled
    then ok none
    else do cancelled ← commit_cancel item; ok (some cancelled)

unfoldable pub next_state_for_peer_outcome :
    InviteState → PairingPeerOutcome → RuntimeResult InviteState
next_state_for_peer_outcome InviteState.pending PairingPeerOutcome.offer_received =
    ok InviteState.accepted
next_state_for_peer_outcome InviteState.accepted PairingPeerOutcome.offer_received =
    ok InviteState.accepted
next_state_for_peer_outcome InviteState.completed PairingPeerOutcome.offer_received =
    ok InviteState.completed
next_state_for_peer_outcome InviteState.pending PairingPeerOutcome.rejection_received =
    ok InviteState.rejected
next_state_for_peer_outcome InviteState.accepted PairingPeerOutcome.rejection_received =
    ok InviteState.rejected
next_state_for_peer_outcome InviteState.rejected PairingPeerOutcome.rejection_received =
    ok InviteState.rejected
next_state_for_peer_outcome InviteState.completed PairingPeerOutcome.rejection_received =
    ok InviteState.completed
next_state_for_peer_outcome InviteState.accepted PairingPeerOutcome.welcome_prepared =
    ok InviteState.completed
next_state_for_peer_outcome InviteState.completed PairingPeerOutcome.welcome_prepared =
    ok InviteState.completed
next_state_for_peer_outcome _ _ =
    err (conflict (codes "pairing peer outcome is invalid for the current state"))

-- The `match` of `complete_welcome`.
complete_welcome_state : InviteState → RuntimeResult Bool
complete_welcome_state InviteState.accepted = ok true
complete_welcome_state InviteState.completed = ok false
complete_welcome_state _ =
    err (conflict (codes "welcome cannot complete pairing from its current state"))

unfoldable pub complete_welcome : PairingItem → Text → RuntimeResult PairingItem
unfolding complete_welcome_state normalize_pairing_item
complete_welcome item peer_installation_id = do
  capability ← ok_or item.capability (conflict (codes "pairing capability does not exist"))
  advances ← complete_welcome_state item.state
  ok (
      if advances
      then normalize_pairing_item (record item { state = InviteState.completed })
      else item)

-- The order of `visible_items`: the latest expiry first, then the smaller id.
unfoldable pub comes_before : PairingItem → PairingItem → Bool
comes_before a b =
    ltb_ℤ b.expires_at a.expires_at
    || (leb_ℤ b.expires_at a.expires_at && text_lt a.pairing_id b.pairing_id)

-- `sort_by`, which is stable: an item goes before the first that does not come before it.
unfoldable pub insert_item : PairingItem → List PairingItem → List PairingItem
unfolding comes_before
insert_item x [] = x ∷ []
insert_item x (y ∷ ys) = if comes_before y x then y ∷ insert_item x ys else x ∷ y ∷ ys

unfoldable pub sort_items : List PairingItem → List PairingItem
unfolding insert_item
sort_items [] = []
sort_items (x ∷ xs) = insert_item x (sort_items xs)

unfoldable pub visible_items : List PairingItem → List PairingItem
unfolding invite_eq sort_items
visible_items items =
    sort_items (retain (λ item. not (invite_eq item.state InviteState.archived)) items)

unfoldable pub expire_item : PairingItem → ℤ → Option PairingItem
unfolding invite_eq normalize_pairing_item
expire_item item now_secs =
    if not (invite_eq item.state InviteState.pending) || leb_ℤ now_secs item.expires_at
    then none
    else some (normalize_pairing_item (record item { state = InviteState.expired }))

-- The items after the loop, and those that changed.
unfoldable pub expire_items : List PairingItem → ℤ → List PairingItem × List PairingItem
unfolding expire_item
expire_items [] now_secs = ([], [])
expire_items (item ∷ items) now_secs =
    let (rest, changed) = expire_items items now_secs in
    elim (expire_item item now_secs) [
      | none ↦ (item ∷ rest, changed)
      | some expired ↦ (expired ∷ rest, expired ∷ changed)
    ]

unfoldable pub complete_for_existing_contact : PairingItem → List Text → Option PairingItem
unfolding is_outstanding normalize_pairing_item
complete_for_existing_contact item contact_ids =
    let target_is_contact =
      is_some_and
        (λ (target : ContactRecord). any (λ id. text_eq id target.installation_id) contact_ids)
        item.sender in
    if not (is_outstanding item.state) || not target_is_contact
    then none
    else some (normalize_pairing_item (record item { state = InviteState.completed }))

unfoldable pub matches_contact : PairingItem → Text → Bool
matches_contact item installation_id =
    is_some_and (λ (sender : ContactRecord). text_eq sender.installation_id installation_id)
      item.sender

unfoldable pub reconcile_outbox_item :
    PairingItem → ContactRecord → Text → Bool → Option PairingItem
unfolding is_outstanding matches_contact normalize_pairing_item
reconcile_outbox_item item contact installation_id allow_single_unbound_repair =
    if not (is_outstanding item.state)
    then none
    else if not (matches_contact item installation_id) && not allow_single_unbound_repair
    then none
    else some (
        normalize_pairing_item
          (record item { sender = some contact; state = InviteState.completed }))

unfoldable pub reconcile_outbox_items : List PairingItem → ContactRecord → Text → List PairingItem
unfolding is_outstanding matches_contact reconcile_outbox_item
reconcile_outbox_items items contact installation_id =
    let outstanding = retain (λ (item : PairingItem). is_outstanding item.state) items in
    let explicit_matches =
      count (λ (item : PairingItem). matches_contact item installation_id) outstanding in
    let allow_single_unbound_repair = explicit_matches == 0 && length outstanding == 1 in
    filter_map
      (λ item. reconcile_outbox_item item contact installation_id allow_single_unbound_repair)
      outstanding
