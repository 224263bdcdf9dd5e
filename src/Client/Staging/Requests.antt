-- ===== src/Client/Staging/Requests.antt =====
-- The commands of Client/Requests are staged: what they tell is kept back by an open transaction.
use t_orca.Base.{Text, Option, some, List, [], ◌∷◌}
use t_orca.Domain.{InviteState, PairingAction, PairingPeerOutcome}
use t_orca.Models.{PairingItem}
use t_orca.Client.Storage.{RuntimeStorage}
use t_orca.Client.Action.{Action, lift, ◌>>=◌}
use t_orca.Pairing.Process.{transition_item}
use t_orca.Client.Pairings.{is_pairing}
use t_orca.Client.Staging.{Staged, Staged-if, Staged-bind, Staged-lift, staged_rules}
use t_orca.Client.Requests.{
  prepare_submit_pairing_code, reconcile_outbox_pairing_contact, commit_submitted_pairing,
  prepare_cancel_pairing, confirm_pairing_cancelled, apply_pairing_peer_outcome, pairing_outbox,
  merge_pairing_outbox, finalize_pairing, archive_pairing, transition_each,
}

module _ {S : Type 0} (storage : RuntimeStorage S) where
  pub prepare_submit_pairing_code-Staged :
      (code : Text) → Staged (prepare_submit_pairing_code storage code)
  unfolding prepare_submit_pairing_code
  prepare_submit_pairing_code-Staged code = search staged_rules depth 40

  pub reconcile_outbox_pairing_contact-Staged :
      (installation_id : Text) → Staged (reconcile_outbox_pairing_contact storage installation_id)
  unfolding reconcile_outbox_pairing_contact
  reconcile_outbox_pairing_contact-Staged installation_id = search staged_rules depth 40

  pub commit_submitted_pairing-Staged :
      (item : PairingItem) → Staged (commit_submitted_pairing storage item)
  unfolding commit_submitted_pairing
  commit_submitted_pairing-Staged item = search staged_rules depth 40

  pub prepare_cancel_pairing-Staged :
      (pairing_id : Text) → Staged (prepare_cancel_pairing storage pairing_id)
  unfolding prepare_cancel_pairing
  prepare_cancel_pairing-Staged pairing_id = search staged_rules depth 40

  pub confirm_pairing_cancelled-Staged :
      (pairing_id : Text) → Staged (confirm_pairing_cancelled storage pairing_id)
  unfolding confirm_pairing_cancelled
  confirm_pairing_cancelled-Staged pairing_id = search staged_rules depth 40

  pub apply_pairing_peer_outcome-Staged :
      (pairing_id : Text) (outcome : PairingPeerOutcome)
      → Staged (apply_pairing_peer_outcome storage pairing_id outcome)
  unfolding apply_pairing_peer_outcome
  apply_pairing_peer_outcome-Staged pairing_id outcome = search staged_rules depth 40

  pub pairing_outbox-Staged : Staged (pairing_outbox storage)
  unfolding pairing_outbox
  pairing_outbox-Staged = search staged_rules depth 40

  pub merge_pairing_outbox-Staged :
      (remote : List PairingItem) → Staged (merge_pairing_outbox storage remote)
  unfolding merge_pairing_outbox
  merge_pairing_outbox-Staged remote = search staged_rules depth 40

  pub finalize_pairing-Staged : (pairing_id : Text) → Staged (finalize_pairing storage pairing_id)
  unfolding finalize_pairing
  finalize_pairing-Staged pairing_id = search staged_rules depth 40

  transition_each-Staged :
      (put : PairingItem → Action S Unit) (pairing_id : Text) (action : PairingAction)
      (next : Option InviteState) (items : List PairingItem)
      → ((item : PairingItem) → Staged (put item))
      → Staged (transition_each storage put pairing_id action next items)
  unfolding transition_each
  transition_each-Staged put pairing_id action next [] p = search staged_rules
  transition_each-Staged put pairing_id action next (item ∷ items) p =
      Staged-if (is_pairing pairing_id item)
        (lift (transition_item item action) >>= λ (changed : PairingItem). put changed >>= λ _.
          transition_each storage put pairing_id action (some changed.state) items)
        (transition_each storage put pairing_id action next items)
        (Staged-bind (lift (transition_item item action))
          (λ (changed : PairingItem). put changed >>= λ _.
            transition_each storage put pairing_id action (some changed.state) items)
          (Staged-lift (transition_item item action))
          (λ changed.
            Staged-bind (put changed)
              (λ _. transition_each storage put pairing_id action (some changed.state) items)
              (p changed)
              (λ _. transition_each-Staged put pairing_id action (some changed.state) items p)))
        (transition_each-Staged put pairing_id action next items p)

  pub archive_pairing-Staged : (pairing_id : Text) → Staged (archive_pairing storage pairing_id)
  unfolding archive_pairing
  archive_pairing-Staged pairing_id = search (staged_rules, transition_each-Staged) depth 40
