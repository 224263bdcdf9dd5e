-- ===== src/Client/ContactRules.antt =====
-- The pure parts of the contact commands of packages/torchat-runtime/src/runtime.rs, with
-- runtime/relationship_process.rs and logic.rs.
use t_orca.Base.{
  Bool, ◌&&◌, ◌||◌, Option, none, some, ◌++◌, take, length, leb, if◌then◌else◌, is_some_and,
  is_none, is_empty, Text, text_eq, trim, codes, RuntimeResult, ok, err, invalid_params,
}
use t_orca.Base.Int.{ℤ}
use t_orca.Domain.{ConversationState}
use t_orca.Models.{ContactRecord, ConversationSummary}

-- `text.starts_with(prefix)`.
unfoldable pub starts_with : Text → Text → Bool
starts_with text prefix = text_eq (take (length prefix) text) prefix

unfoldable pub fallback_contact_nickname : Text → Text
unfolding starts_with
fallback_contact_nickname installation_id =
    let trimmed = trim installation_id in
    if starts_with trimmed (codes "peer-") && leb 2 (length trimmed)
    then take 32 trimmed
    else codes "peer-" ++ take 8 installation_id

-- `local_alias.map(trim).filter(not empty)`.
unfoldable pub trimmed_alias : Option Text → Option Text
trimmed_alias none = none
trimmed_alias (some alias) = if is_empty (trim alias) then none else some (trim alias)

-- The fields that a contact without them takes from the stored one.
unfoldable pub fill_contact : ContactRecord → ContactRecord → ContactRecord
fill_contact contact existing = record contact {
  nickname = if is_empty (trim contact.nickname) then existing.nickname else contact.nickname;
  public_key =
      if is_empty (trim contact.public_key) then existing.public_key else contact.public_key;
  fingerprint =
      if is_empty (trim contact.fingerprint) then existing.fingerprint else contact.fingerprint;
  dev = if is_none contact.dev then existing.dev else contact.dev;
}

-- The contact that is stored, and its name where it has none.
unfoldable pub promoted_contact : ContactRecord → Option ContactRecord → ContactRecord
unfolding fill_contact fallback_contact_nickname
promoted_contact contact existing =
    let filled : ContactRecord = elim existing [
      | none ↦ contact
      | some stored ↦ fill_contact contact stored
    ] in
    if is_empty (trim filled.nickname)
    then record filled { nickname = fallback_contact_nickname filled.installation_id }
    else filled

unfoldable pub is_contact : Text → ContactRecord → Bool
is_contact installation_id contact = text_eq contact.installation_id installation_id

unfoldable pub is_conversation_with : Text → ConversationSummary → Bool
is_conversation_with installation_id conversation =
    text_eq conversation.contact_installation_id installation_id
    || text_eq conversation.id installation_id

-- The conversation that starts with a contact.
unfoldable pub new_conversation : Text → ConversationState → ℤ → ConversationSummary
new_conversation installation_id status now = record {
  id = installation_id;
  contact_installation_id = installation_id;
  status = status;
  last_message_preview = codes "Nowa rozmowa";
  last_message_at = now;
  unread_count = 0;
}

-- `validate_removal_identifiers` of runtime/relationship_process.rs.
unfoldable pub validate_removal_identifiers : Text → Option Text → RuntimeResult Unit
validate_removal_identifiers installation_id removal_id =
    if is_empty (trim installation_id)
    then err (invalid_params (codes "contact installation id must not be empty"))
    else if is_some_and (λ id. is_empty (trim id)) removal_id
    then err (invalid_params (codes "relationship removal identifiers must not be empty"))
    else ok tt
