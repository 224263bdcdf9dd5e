-- ===== src/Client/Staging/Pairings.antt =====
-- The commands of Client/Pairings are staged: what they tell is kept back by an open transaction.
use t_orca.Base.{Text, List}
use t_orca.Models.{PairingItem}
use t_orca.Client.Events.{InviteCode}
use t_orca.Client.Storage.{RuntimeStorage}
use t_orca.Client.Staging.{Staged, staged_rules}
use t_orca.Client.Pairings.{
  require_pairing_profile_ready, commit_pairing_code, expire_pending_pairings, merge_pairing_inbox,
  receive_pairing_offer, pairing_offer_payload, accept_received_pairing, prepare_accept_pairing,
  commit_accept_pairing, prepare_reject_pairing, commit_reject_pairing,
}

module _ {S : Type 0} (storage : RuntimeStorage S) where
  pub require_pairing_profile_ready-Staged : Staged (require_pairing_profile_ready storage)
  unfolding require_pairing_profile_ready
  require_pairing_profile_ready-Staged = search staged_rules depth 40

  pub commit_pairing_code-Staged : (code : InviteCode) → Staged (commit_pairing_code storage code)
  unfolding commit_pairing_code
  commit_pairing_code-Staged code = search staged_rules depth 40

  pub expire_pending_pairings-Staged : Staged (expire_pending_pairings storage)
  unfolding expire_pending_pairings
  expire_pending_pairings-Staged = search staged_rules depth 40

  pub merge_pairing_inbox-Staged :
      (remote : List PairingItem) → Staged (merge_pairing_inbox storage remote)
  unfolding merge_pairing_inbox
  merge_pairing_inbox-Staged remote = search staged_rules depth 40

  pub receive_pairing_offer-Staged :
      (item : PairingItem) → Staged (receive_pairing_offer storage item)
  unfolding receive_pairing_offer
  receive_pairing_offer-Staged item = search staged_rules depth 40

  pub pairing_offer_payload-Staged :
      (pairing_id : Text) → Staged (pairing_offer_payload storage pairing_id)
  unfolding pairing_offer_payload
  pairing_offer_payload-Staged pairing_id = search staged_rules depth 40

  pub accept_received_pairing-Staged :
      (pairing_id : Text) → Staged (accept_received_pairing storage pairing_id)
  unfolding accept_received_pairing
  accept_received_pairing-Staged pairing_id = search staged_rules depth 40

  pub prepare_accept_pairing-Staged :
      (pairing_id : Text) → Staged (prepare_accept_pairing storage pairing_id)
  unfolding prepare_accept_pairing
  prepare_accept_pairing-Staged pairing_id = search staged_rules depth 40

  pub commit_accept_pairing-Staged :
      (pairing_id : Text) (offer_invite_id : Text) (offer_payload : Text)
      → Staged (commit_accept_pairing storage pairing_id offer_invite_id offer_payload)
  unfolding commit_accept_pairing
  commit_accept_pairing-Staged pairing_id offer_invite_id offer_payload =
      search staged_rules depth 40

  pub prepare_reject_pairing-Staged :
      (pairing_id : Text) → Staged (prepare_reject_pairing storage pairing_id)
  unfolding prepare_reject_pairing
  prepare_reject_pairing-Staged pairing_id = search staged_rules depth 40

  pub commit_reject_pairing-Staged :
      (pairing_id : Text) → Staged (commit_reject_pairing storage pairing_id)
  unfolding commit_reject_pairing
  commit_reject_pairing-Staged pairing_id = search staged_rules depth 40
