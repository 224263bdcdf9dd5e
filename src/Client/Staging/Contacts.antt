-- ===== src/Client/Staging/Contacts.antt =====
-- The commands of Client/Contacts are staged: what they tell is kept back by an open transaction.
use t_orca.Base.{Text, Option, none, some, Bool}
use t_orca.Base.Int.{ℤ}
use t_orca.Domain.{ContactTransportPolicy}
use t_orca.Models.{ContactRecord}
use t_orca.Client.Storage.{RuntimeStorage}
use t_orca.Client.Staging.{Staged, staged_rules}
use t_orca.Client.Contacts.{
  update_contact_settings, set_contact_transport_policy, remove_relationship,
  remove_relationship_with_id, apply_remote_relationship_removal, contact_accepts_messages,
  contact_allows_notifications, verify_contact, start_conversation, promote_contact,
  welcome_accepted, complete_invite,
}

module _ {S : Type 0} (storage : RuntimeStorage S) where
  pub update_contact_settings-Staged :
      (installation_id : Text) (local_alias : Option Text) (muted : Bool) (blocked : Bool)
      → Staged (update_contact_settings storage installation_id local_alias muted blocked)
  unfolding update_contact_settings
  update_contact_settings-Staged installation_id local_alias muted blocked =
      search staged_rules depth 40

  pub set_contact_transport_policy-Staged :
      (installation_id : Text) (policy : ContactTransportPolicy)
      → Staged (set_contact_transport_policy storage installation_id policy)
  unfolding set_contact_transport_policy
  set_contact_transport_policy-Staged installation_id policy = search staged_rules depth 40

  pub remove_relationship-Staged :
      (removal_id : Text) (installation_id : Text) (preserve_history : Bool)
      → Staged (remove_relationship storage removal_id installation_id preserve_history)
  unfolding remove_relationship
  remove_relationship-Staged removal_id installation_id preserve_history =
      search staged_rules depth 40

  pub remove_relationship_with_id-Staged :
      (installation_id : Text) (removed_at : ℤ) (preserve_history : Bool) (removal_id : Text)
      (epoch : ℤ)
      → Staged (
          remove_relationship_with_id storage installation_id removed_at preserve_history removal_id
            epoch)
  unfolding remove_relationship_with_id
  remove_relationship_with_id-Staged installation_id removed_at preserve_history removal_id epoch =
      search staged_rules depth 40

  pub apply_remote_relationship_removal-Staged :
      (installation_id : Text) (removed_at : ℤ) (removal_id : Text) (epoch : ℤ)
      → Staged
          (apply_remote_relationship_removal storage installation_id removed_at removal_id epoch)
  unfolding apply_remote_relationship_removal
  apply_remote_relationship_removal-Staged installation_id removed_at removal_id epoch =
      search staged_rules depth 40

  pub contact_accepts_messages-Staged :
      (installation_id : Text) → Staged (contact_accepts_messages storage installation_id)
  unfolding contact_accepts_messages
  contact_accepts_messages-Staged installation_id = search staged_rules depth 40

  pub contact_allows_notifications-Staged :
      (installation_id : Text) → Staged (contact_allows_notifications storage installation_id)
  unfolding contact_allows_notifications
  contact_allows_notifications-Staged installation_id = search staged_rules depth 40

  pub verify_contact-Staged :
      (installation_id : Text) → Staged (verify_contact storage installation_id)
  unfolding verify_contact
  verify_contact-Staged installation_id = search staged_rules depth 40

  pub start_conversation-Staged :
      (contact_id : Text) → Staged (start_conversation storage contact_id)
  unfolding start_conversation
  start_conversation-Staged contact_id = search staged_rules depth 40

  pub promote_contact-Staged :
      (contact : ContactRecord) (opening : Bool) → Staged (promote_contact storage contact opening)
  unfolding promote_contact
  promote_contact-Staged contact opening = search staged_rules depth 40

  complete_invite-Staged :
      (contact : ContactRecord) (invite_id : Option Text)
      → Staged (complete_invite storage contact invite_id)
  unfolding complete_invite
  complete_invite-Staged contact none = search staged_rules
  complete_invite-Staged contact (some id) = search staged_rules depth 40

  pub welcome_accepted-Staged :
      (contact : ContactRecord) (opening : Bool) (invite_id : Option Text)
      → Staged (welcome_accepted storage contact opening invite_id)
  unfolding welcome_accepted
  welcome_accepted-Staged contact opening invite_id =
      search (staged_rules, complete_invite-Staged) depth 40
