-- ===== src/Client/Pairings.antt =====
-- The pairing commands of `ClientRuntime` (packages/torchat-runtime/src/runtime.rs) on the device that
-- is asked: the inbox, and the expiry of both lists.
use t_orca.Base.{
  Bool, true, false, not, Option, none, some, List, [], ◌∷◌, map, ltb, length, if◌then◌else◌, find,
  Text, text_eq, trim, codes, RuntimeResult, ok, err, ok_or, not_found, conflict, unavailable,
}
use t_orca.Domain.{InviteState, PairingAction, PairingSendKind, invite_eq, is_pending}
use t_orca.Models.{PairingItem, PairingPreparation, RuntimeSendEffect}
use t_orca.Pairing.Rules.{normalize_pairing_item, PairingMerge}
use t_orca.Pairing.Process.{
  transition_invite_state, merge_remote_items, prepare_accept, commit_accept, send_effect,
}
use t_orca.Pairing.Settle.{prepare_reject, expire_items, visible_items}
use t_orca.Client.Events.{RuntimeEvent, RuntimeProfile, InviteCode, PairingSyncResult}
use t_orca.Client.Storage.{RuntimeStorage}
use t_orca.Client.Action.{
  Action, pure, fail, lift, query, store, publish, now_secs, for_each, required, ◌>>=◌, ◌>>◌,
}

-- The test of `find(|item| item.pairing_id == pairing_id)`.
unfoldable pub is_pairing : Text → PairingItem → Bool
is_pairing pairing_id item = text_eq item.pairing_id pairing_id

-- `require_profile_ready` of features/pairing/process.rs.
unfoldable pub require_profile_ready : Option RuntimeProfile → RuntimeResult Unit
require_profile_ready none = err (unavailable (codes "runtime profile is not ready"))
require_profile_ready (some profile) =
    if ltb (length (trim profile.nickname)) 2
    then err (conflict (codes "set nickname before generating a pairing code"))
    else ok tt

-- `matches!(state, Accepted | Completed)`.
unfoldable pub is_answered : InviteState → Bool
is_answered InviteState.accepted = true
is_answered InviteState.completed = true
is_answered _ = false

module _ {S : Type 0} (storage : RuntimeStorage S) where
  unfoldable pub require_pairing_profile_ready : Action S Unit
  unfolding require_profile_ready
  require_pairing_profile_ready = do
    profile ← query storage.profile
    lift (require_profile_ready profile)

  unfoldable pub commit_pairing_code : InviteCode → Action S Unit
  commit_pairing_code code = store (storage.put_pairing_code code)

  -- The event of an item whose state has changed.
  unfoldable pub publish_invite : Text → InviteState → Action S Unit
  publish_invite pairing_id state =
      publish (RuntimeEvent.invite_state_changed (some pairing_id) (some state))

  unfoldable pub received : Text → Action S PairingItem
  unfolding is_pairing
  received pairing_id =
      required storage.pairing_inbox (is_pairing pairing_id)
        (not_found (codes "pairing request does not exist"))

  unfoldable pub put_expired : Bool → PairingItem → Action S Unit
  unfolding publish_invite
  put_expired inbox item = do
    store (if inbox then storage.put_pairing_inbox item else storage.put_pairing_outbox item)
    publish_invite item.pairing_id InviteState.expired

  -- The items after the expiry.
  unfoldable pub expire_pairing_items : List PairingItem → Bool → Action S (List PairingItem)
  unfolding expire_items put_expired
  expire_pairing_items items inbox = do
    now ← now_secs
    let expired = expire_items items now
    for_each (put_expired inbox) expired.1
    pure expired.0

  unfoldable pub expire_pending_pairings : Action S Unit
  unfolding expire_pairing_items
  expire_pending_pairings = do
    inbox ← query storage.pairing_inbox
    outbox ← query storage.pairing_outbox
    expired_inbox ← expire_pairing_items inbox true
    expired_outbox ← expire_pairing_items outbox false
    pure tt

  -- One merge of the loop of `merge_pairing_inbox`.
  unfoldable pub store_received : PairingMerge → Action S Unit
  store_received merge =
      if merge.inserted
      then (do
        publish (
            RuntimeEvent.invite_received (some merge.item.pairing_id)
              (elim merge.item.sender [ none ↦ none | some sender ↦ some sender.nickname ]))
        store (storage.put_pairing_inbox merge.item))
      else if merge.changed
      then store (storage.put_pairing_inbox merge.item)
      else pure tt

  unfoldable pub merge_pairing_inbox : List PairingItem → Action S PairingSyncResult
  unfolding expire_pairing_items merge_remote_items store_received visible_items
  merge_pairing_inbox remote = do
    stored ← query storage.pairing_inbox
    local ← expire_pairing_items stored true
    let merged = merge_remote_items local remote
    for_each store_received merged.1
    pure (record {
      items = visible_items merged.0;
      acknowledgements = map (λ (merge : PairingMerge). merge.item.pairing_id) merged.1;
    })

  unfoldable pub receive_pairing_offer : PairingItem → Action S Unit
  unfolding merge_pairing_inbox
  receive_pairing_offer item = do synced ← merge_pairing_inbox (item ∷ []); pure tt

  unfoldable pub pairing_offer_payload : Text → Action S Text
  unfolding is_pairing
  pairing_offer_payload pairing_id = do
    inbox ← query storage.pairing_inbox
    lift (
        ok_or
          (elim (find (is_pairing pairing_id) inbox) [
            | none ↦ none
            | some item ↦ item.offer_payload
          ])
          (not_found (codes "pairing offer does not exist")))

  unfoldable pub accept_received_pairing : Text → Action S Unit
  unfolding received is_answered transition_invite_state normalize_pairing_item publish_invite
  accept_received_pairing pairing_id = do
    item ← received pairing_id
    if is_answered item.state then pure tt else (do
      next ← lift (transition_invite_state item.state PairingAction.accept)
      store (storage.put_pairing_inbox (normalize_pairing_item (record item { state = next })))
      publish_invite pairing_id InviteState.accepted)

  unfoldable pub prepare_accept_pairing : Text → Action S PairingPreparation
  unfolding received prepare_accept
  prepare_accept_pairing pairing_id = do
    item ← received pairing_id
    contacts ← query storage.contacts
    now ← now_secs
    lift (prepare_accept item contacts now)

  unfoldable pub commit_accept_pairing : Text → Text → Text → Action S RuntimeSendEffect
  unfolding received commit_accept invite_eq publish_invite
  commit_accept_pairing pairing_id offer_invite_id offer_payload = do
    item ← received pairing_id
    now ← now_secs
    accepted ← lift (commit_accept item offer_invite_id offer_payload now)
    store (storage.put_pairing_inbox accepted.0)
    if invite_eq (accepted.0).state item.state
        then pure tt
        else publish_invite pairing_id (accepted.0).state
    pure accepted.1

  unfoldable pub prepare_reject_pairing : Text → Action S PairingPreparation
  unfolding received is_pending prepare_reject
  prepare_reject_pairing pairing_id = do
    item ← received pairing_id
    capability ← lift (ok_or item.capability (conflict (codes "pairing capability does not exist")))
    if not (is_pending item.state)
        then fail (conflict (codes "pairing request cannot be prepared from its current state"))
        else pure tt
    now ← now_secs
    rejected ← lift (prepare_reject item now)
    pure (record {
      pairing_id = pairing_id;
      recipient_installation_id = rejected.1;
      capability = capability;
    })

  unfoldable pub commit_reject_pairing : Text → Action S RuntimeSendEffect
  unfolding received invite_eq prepare_reject publish_invite send_effect
  commit_reject_pairing pairing_id = do
    item ← received pairing_id
    now ← now_secs
    rejected ← lift (prepare_reject item now)
    if invite_eq item.state InviteState.rejected then pure tt else (do
      store (storage.put_pairing_inbox rejected.0)
      publish_invite pairing_id (rejected.0).state)
    pure (send_effect pairing_id rejected.1 PairingSendKind.rejection none)
