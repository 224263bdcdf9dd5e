-- ===== src/Client/Requests.antt =====
-- The pairing commands of `ClientRuntime` (packages/torchat-runtime/src/runtime.rs) on the device that
-- asks: the outbox, and the commands that look into both lists.
use t_orca.Base.{
  false, ◌||◌, Option, none, some, List, [], ◌∷◌, ◌++◌, map, find, is_ok, if◌then◌else◌, is_none,
  Text, text_eq, codes, ok_or, not_found, conflict,
}
use t_orca.Domain.{InviteState, PairingAction, PairingPeerOutcome, invite_eq}
use t_orca.Models.{ContactRecord, PairingItem, PairingCancelEffect}
use t_orca.Pairing.Rules.{normalize_pairing_item, PairingMerge}
use t_orca.Pairing.Process.{
  normalize_pairing_code, has_outstanding_request, transition_invite_state, transition_item,
  merge_remote_items,
}
use t_orca.Pairing.Settle.{
  prepare_cancel, confirm_cancel, next_state_for_peer_outcome, visible_items,
  complete_for_existing_contact, reconcile_outbox_items,
}
use t_orca.Client.Events.{RuntimeEvent, PairingSyncResult}
use t_orca.Client.Storage.{RuntimeStorage}
use t_orca.Client.Action.{
  Action, pure, fail, lift, query, store, publish, for_each, choose, required, ◌>>=◌, ◌>>◌,
}
use t_orca.Client.Pairings.{is_pairing, publish_invite, expire_pairing_items}

module _ {S : Type 0} (storage : RuntimeStorage S) where
  unfoldable pub requested : Text → Action S PairingItem
  unfolding is_pairing
  requested pairing_id =
      required storage.pairing_outbox (is_pairing pairing_id)
        (not_found (codes "pairing request does not exist"))

  -- An item is stored in the outbox, and its new state is told.
  unfoldable pub put_requested : PairingItem → InviteState → Action S Unit
  unfolding publish_invite
  put_requested item state = do
    store (storage.put_pairing_outbox item)
    publish_invite storage item.pairing_id state

  unfoldable pub complete_existing : List Text → PairingItem → Action S Unit
  unfolding complete_for_existing_contact put_requested
  complete_existing contact_ids item =
      choose (complete_for_existing_contact item contact_ids) (pure tt)
        (λ completed. put_requested completed InviteState.completed)

  unfoldable pub complete_outbox_pairings_for_existing_contacts : Action S Unit
  unfolding complete_existing
  complete_outbox_pairings_for_existing_contacts = do
    contacts ← query storage.contacts
    outbox ← query storage.pairing_outbox
    for_each
        (complete_existing (map (λ (contact : ContactRecord). contact.installation_id) contacts))
        outbox

  unfoldable pub prepare_submit_pairing_code : Text → Action S Text
  unfolding normalize_pairing_code expire_pairing_items has_outstanding_request
      complete_outbox_pairings_for_existing_contacts
  prepare_submit_pairing_code code = do
    normalized ← lift (normalize_pairing_code code)
    outbox ← query storage.pairing_outbox
    expired ← expire_pairing_items storage outbox false
    complete_outbox_pairings_for_existing_contacts
    current ← query storage.pairing_outbox
    if has_outstanding_request current
        then fail (conflict (codes "an active pairing request already exists"))
        else pure normalized

  unfoldable pub reconcile_outbox_pairing_contact : Text → Action S Unit
  unfolding reconcile_outbox_items put_requested
  reconcile_outbox_pairing_contact installation_id = do
    contact ←
        required storage.contacts
          (λ (contact : ContactRecord). text_eq contact.installation_id installation_id)
          (not_found (codes "contact does not exist"))
    outbox ← query storage.pairing_outbox
    for_each (λ item. put_requested item InviteState.completed)
        (reconcile_outbox_items outbox contact installation_id)

  unfoldable pub commit_submitted_pairing : PairingItem → Action S PairingItem
  unfolding normalize_pairing_item put_requested
  commit_submitted_pairing item = do
    let normalized = normalize_pairing_item item
    put_requested normalized normalized.state
    pure normalized

  unfoldable pub prepare_cancel_pairing : Text → Action S PairingCancelEffect
  unfolding requested prepare_cancel
  prepare_cancel_pairing pairing_id = do item ← requested pairing_id; lift (prepare_cancel item)

  unfoldable pub confirm_pairing_cancelled : Text → Action S Unit
  unfolding requested confirm_cancel publish_invite
  confirm_pairing_cancelled pairing_id = do
    item ← requested pairing_id
    confirmed ← lift (confirm_cancel item)
    choose confirmed (pure tt) (λ cancelled. do
      store (storage.put_pairing_outbox cancelled)
      publish_invite storage pairing_id InviteState.cancelled)

  unfoldable pub apply_pairing_peer_outcome : Text → PairingPeerOutcome → Action S Unit
  unfolding requested next_state_for_peer_outcome invite_eq normalize_pairing_item publish_invite
  apply_pairing_peer_outcome pairing_id outcome = do
    item ← requested pairing_id
    next ← lift (next_state_for_peer_outcome item.state outcome)
    if invite_eq item.state next then pure tt else (do
      store (storage.put_pairing_outbox (normalize_pairing_item (record item { state = next })))
      publish_invite storage pairing_id next)

  unfoldable pub pairing_outbox : Action S PairingSyncResult
  unfolding complete_outbox_pairings_for_existing_contacts expire_pairing_items visible_items
  pairing_outbox = do
    complete_outbox_pairings_for_existing_contacts
    outbox ← query storage.pairing_outbox
    items ← expire_pairing_items storage outbox false
    pure (record { items = visible_items items; acknowledgements = [] })

  unfoldable pub store_sent : PairingMerge → Action S Unit
  unfolding put_requested
  store_sent merge =
      if merge.changed || merge.inserted then put_requested merge.item merge.item.state else pure tt

  unfoldable pub merge_pairing_outbox : List PairingItem → Action S PairingSyncResult
  unfolding expire_pairing_items merge_remote_items store_sent visible_items
  merge_pairing_outbox remote = do
    stored ← query storage.pairing_outbox
    local ← expire_pairing_items storage stored false
    let merged = merge_remote_items local remote
    for_each store_sent merged.1
    pure (record { items = visible_items merged.0; acknowledgements = [] })

  -- `finalize_pairing` where the pairing is in the inbox, and where it is not.
  unfoldable pub finalize_received : Text → PairingItem → Action S Unit
  unfolding invite_eq transition_invite_state normalize_pairing_item publish_invite
  finalize_received pairing_id item =
      if invite_eq item.state InviteState.completed then pure tt else (do
        next ← lift (transition_invite_state item.state PairingAction.complete)
        store (storage.put_pairing_inbox (normalize_pairing_item (record item { state = next })))
        publish_invite storage pairing_id InviteState.completed)

  unfoldable pub finalize_requested : Text → PairingItem → Action S Unit
  unfolding invite_eq next_state_for_peer_outcome normalize_pairing_item publish_invite
  finalize_requested pairing_id item =
      if invite_eq item.state InviteState.completed then pure tt else (do
        next ← lift (next_state_for_peer_outcome item.state PairingPeerOutcome.welcome_prepared)
        store (storage.put_pairing_outbox (normalize_pairing_item (record item { state = next })))
        publish_invite storage pairing_id next)

  unfoldable pub finalize_pairing : Text → Action S Unit
  unfolding is_pairing finalize_received finalize_requested
  finalize_pairing pairing_id = do
    inbox ← query storage.pairing_inbox
    choose (find (is_pairing pairing_id) inbox)
        (do
          outbox ← query storage.pairing_outbox
          choose (find (is_pairing pairing_id) outbox) (pure tt) (finalize_requested pairing_id))
        (finalize_received pairing_id)

  unfoldable pub ensure_pairing_transition : Text → PairingAction → Action S Unit
  unfolding is_pairing transition_invite_state
  ensure_pairing_transition pairing_id action = do
    inbox ← query storage.pairing_inbox
    outbox ← query storage.pairing_outbox
    item ← lift (
        ok_or (find (is_pairing pairing_id) (inbox ++ outbox))
          (not_found (codes "pairing request does not exist")))
    if is_ok (transition_invite_state item.state action)
        then pure tt
        else fail (conflict (codes "pairing request cannot be transitioned from its current state"))

  -- One of the two loops of `transition_pairing`: the state of the last item that it changed, or
  -- the one that it started with.
  unfoldable pub transition_each :
      (PairingItem → Action S Unit)
      → Text
      → PairingAction
      → Option InviteState
      → List PairingItem
      → Action S (Option InviteState)
  unfolding is_pairing transition_item
  transition_each put pairing_id action next [] = pure next
  transition_each put pairing_id action next (item ∷ items) =
      if is_pairing pairing_id item
      then (do
        changed ← lift (transition_item item action)
        put changed
        transition_each put pairing_id action (some changed.state) items)
      else transition_each put pairing_id action next items

  unfoldable pub transition_pairing : Text → PairingAction → Action S Unit
  unfolding transition_each
  transition_pairing pairing_id action = do
    inbox ← query storage.pairing_inbox
    first ←
        transition_each (λ item. store (storage.put_pairing_inbox item)) pairing_id action none
          inbox
    outbox ← query storage.pairing_outbox
    next ←
        transition_each (λ item. store (storage.put_pairing_outbox item)) pairing_id action first
          outbox
    if is_none next
        then fail (not_found (codes "pairing request does not exist"))
        else publish (RuntimeEvent.invite_state_changed (some pairing_id) next)

  unfoldable pub archive_pairing : Text → Action S Unit
  unfolding ensure_pairing_transition transition_pairing
  archive_pairing pairing_id = do
    ensure_pairing_transition pairing_id PairingAction.archive
    transition_pairing pairing_id PairingAction.archive
