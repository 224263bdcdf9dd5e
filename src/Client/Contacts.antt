-- ===== src/Client/Contacts.antt =====
-- The commands of `ClientRuntime` (packages/torchat-runtime/src/runtime.rs) on contacts and on the end
-- of a relationship, with the fallback name of logic.rs.
use t_orca.Base.{
  Bool, true, not, ◌&&◌, Option, none, some, find, length, ltb, if◌then◌else◌, is_some_and, Text,
  text_eq, codes, not_found, invalid_params,
}
use t_orca.Base.Int.{ℤ, pos, saturating_add}
use t_orca.Domain.{
  ContactTransportPolicy, VerificationState, ConversationState, InviteState, invite_eq,
}
use t_orca.Models.{ContactRecord, ConversationSummary, PairingItem}
use t_orca.Messaging.Sending.{is_verified}
use t_orca.Pairing.Process.{holds}
use t_orca.Pairing.Settle.{complete_welcome}
use t_orca.Client.Events.{RuntimeEvent, WelcomeAcceptedResult}
use t_orca.Client.Session.{select_conversation}
use t_orca.Client.Storage.{RuntimeStorage, RelationshipTransition}
use t_orca.Client.Action.{
  Action, pure, fail, lift, query, store, on_session, publish, now_ms, choose, required, ◌>>=◌,
  ◌>>◌,
}
use t_orca.Client.Pairings.{publish_invite}
use t_orca.Client.ContactRules.{
  trimmed_alias, promoted_contact, is_contact, is_conversation_with, new_conversation,
  validate_removal_identifiers,
}

module _ {S : Type 0} (storage : RuntimeStorage S) where
  unfoldable pub publish_changed : Text → Action S Unit
  publish_changed kind = publish (RuntimeEvent.changed (some kind))

  unfoldable pub known_contact : Text → Action S ContactRecord
  unfolding is_contact
  known_contact installation_id =
      required storage.contacts (is_contact installation_id)
        (not_found (codes "contact does not exist"))

  unfoldable pub update_contact_settings :
      Text → Option Text → (muted blocked : Bool) → Action S ContactRecord
  unfolding known_contact trimmed_alias publish_changed
  update_contact_settings installation_id local_alias muted blocked = do
    contact ← known_contact installation_id
    let alias = trimmed_alias local_alias
    if is_some_and (λ value. ltb 32 (length value)) alias
        then fail (invalid_params (codes "contact alias must not exceed 32 characters"))
        else pure tt
    let updated = record contact { local_alias = alias; muted = muted; blocked = blocked }
    store (storage.put_contact updated)
    publish_changed (codes "contacts")
    pure updated

  unfoldable pub set_contact_transport_policy :
      Text → ContactTransportPolicy → Action S ContactRecord
  unfolding known_contact publish_changed
  set_contact_transport_policy installation_id policy = do
    contact ← known_contact installation_id
    let updated = record contact { transport_policy = policy }
    store (storage.put_contact updated)
    publish_changed (codes "contacts")
    pure updated

  -- `removal_id` is the text of `Uuid::new_v4`.
  unfoldable pub remove_relationship : Text → Text → Bool → Action S Unit
  unfolding validate_removal_identifiers publish_changed
  remove_relationship removal_id installation_id preserve_history = do
    lift (validate_removal_identifiers installation_id none)
    removed_at ← now_ms
    epoch ← store (storage.current_relationship_epoch installation_id)
    store (
        storage.remove_relationship_with_id installation_id removed_at preserve_history removal_id
          (saturating_add epoch (pos 1)))
    publish_changed (codes "contacts")
    publish_changed (codes "conversations")
    publish_changed (codes "messages")

  unfoldable pub remove_relationship_with_id : Text → ℤ → Bool → Text → ℤ → Action S Unit
  unfolding validate_removal_identifiers publish_changed
  remove_relationship_with_id installation_id removed_at preserve_history removal_id epoch = do
    lift (validate_removal_identifiers installation_id (some removal_id))
    store (
        storage.apply_relationship_transition (
          RelationshipTransition.remove installation_id removed_at preserve_history removal_id
            epoch))
    publish_changed (codes "contacts")
    publish_changed (codes "conversations")
    publish_changed (codes "messages")

  unfoldable pub apply_remote_relationship_removal : Text → ℤ → Text → ℤ → Action S Unit
  unfolding validate_removal_identifiers publish_changed
  apply_remote_relationship_removal installation_id remote_removed_at removal_id epoch = do
    lift (validate_removal_identifiers installation_id (some removal_id))
    store (
        storage.apply_relationship_transition (
          RelationshipTransition.apply_remote_removal installation_id remote_removed_at removal_id
            epoch))
    publish_changed (codes "contacts")
    publish_changed (codes "conversations")

  unfoldable pub contact_accepts_messages : Text → Action S Bool
  unfolding known_contact
  contact_accepts_messages installation_id = do
    contact ← known_contact installation_id
    pure (not contact.blocked)

  unfoldable pub contact_allows_notifications : Text → Action S Bool
  unfolding is_contact
  contact_allows_notifications installation_id = do
    contacts ← query storage.contacts
    pure (
        is_some_and (λ (contact : ContactRecord). not contact.blocked && not contact.muted)
          (find (is_contact installation_id) contacts))

  -- The contact's conversation, or a new one: the clock is read only for a new one.
  unfoldable pub conversation_or_new :
      (ConversationSummary → Bool) → Text → ConversationState → Action S ConversationSummary
  unfolding new_conversation
  conversation_or_new test installation_id status = do
    conversations ← query storage.conversations
    choose (find test conversations)
        (now_ms >>= λ now. pure (new_conversation installation_id status now))
        (λ conversation. pure conversation)

  unfoldable pub verify_contact : Text → Action S Unit
  unfolding known_contact conversation_or_new is_conversation_with publish_changed
  verify_contact installation_id = do
    contact ← known_contact installation_id
    store (storage.put_contact (record contact { verification = VerificationState.verified }))
    conversation ←
        conversation_or_new (is_conversation_with installation_id) installation_id
          ConversationState.active
    store (storage.put_conversation (record conversation { status = ConversationState.active }))
    publish_changed (codes "contacts")
    publish_changed (codes "conversations")

  unfoldable pub start_conversation : Text → Action S Bool
  unfolding known_contact conversation_or_new publish_changed
  start_conversation contact_id = do
    contact ← known_contact contact_id
    conversation ←
        conversation_or_new
          (λ conversation. text_eq conversation.contact_installation_id contact.installation_id)
          contact.installation_id ConversationState.active
    store (storage.put_conversation conversation)
    publish_changed (codes "conversations")
    pure true

  unfoldable pub promote_contact_with_status :
      ContactRecord → ConversationState → Bool → Action S ConversationSummary
  unfolding is_contact promoted_contact conversation_or_new is_conversation_with select_conversation
      publish_changed
  promote_contact_with_status contact status open_conversation = do
    contacts ← query storage.contacts
    let promoted = promoted_contact contact (find (is_contact contact.installation_id) contacts)
    store (storage.put_contact promoted)
    found ←
        conversation_or_new (is_conversation_with promoted.installation_id) promoted.installation_id
          status
    let conversation = record found { status = status }
    store (storage.put_conversation conversation)
    if open_conversation then on_session (select_conversation conversation.id) else pure tt
    publish_changed (codes "contacts")
    publish_changed (codes "conversations")
    pure conversation

  unfoldable pub promote_contact : ContactRecord → Bool → Action S ConversationSummary
  unfolding promote_contact_with_status is_verified
  promote_contact contact open_conversation =
      promote_contact_with_status contact
        (if is_verified contact.verification
          then ConversationState.active
          else ConversationState.verifying)
        open_conversation

  -- The invitation that a welcome answers is completed.
  unfoldable pub complete_invite : ContactRecord → Option Text → Action S Unit
  unfolding complete_welcome holds invite_eq publish_invite
  complete_invite contact none = pure tt
  complete_invite contact (some invite_id) = do
    item ←
        required storage.pairing_inbox
          (λ (item : PairingItem). holds item.offer_invite_id invite_id)
          (not_found (codes "pairing request does not exist"))
    updated ← lift (complete_welcome item contact.installation_id)
    if invite_eq item.state InviteState.completed then pure tt else (do
      store (storage.put_pairing_inbox updated)
      publish_invite storage updated.pairing_id updated.state)

  unfoldable pub welcome_accepted :
      ContactRecord → Bool → Option Text → Action S WelcomeAcceptedResult
  unfolding complete_invite promote_contact_with_status
  welcome_accepted contact open_conversation invite_id = do
    complete_invite contact invite_id
    conversation ←
        promote_contact_with_status (record contact { verification = VerificationState.verified })
          ConversationState.active open_conversation
    pure (record { conversation = conversation })
