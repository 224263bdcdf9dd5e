-- ===== src/Client/Changes.antt =====
-- `ChangeSet::from_runtime_event` of packages/torchat-runtime/src/changes.rs: what an event of the
-- runtime says has changed. `uuid_text` is `Uuid::to_string`.
use t_orca.Base.{ℕ, ◌||◌, Option, none, some, List, [], ◌∷◌, if◌then◌else◌, Text, text_eq, codes}
use t_orca.Changes.{
  Section, ChangeSet, no_changes, change_section, merge, set_insert, with_pairing,
  with_conversation, with_message,
}
use t_orca.Client.Events.{RuntimeEvent}

unfoldable pub pairing_changes : Option Text → ChangeSet
unfolding with_pairing no_changes change_section
pairing_changes none = change_section Section.pairings
pairing_changes (some id) = with_pairing id no_changes

unfoldable pub in_conversation : Option Text → ChangeSet → ChangeSet
unfolding with_conversation
in_conversation none c = c
in_conversation (some id) c = with_conversation id c

unfoldable pub message_event_changes : (ℕ → Text) → Option ℕ → Option Text → ChangeSet
unfolding with_message no_changes change_section in_conversation
message_event_changes uuid_text none conversation =
    in_conversation conversation (change_section Section.messages)
message_event_changes uuid_text (some id) conversation =
    in_conversation conversation (with_message (uuid_text id) no_changes)

-- A section that names a contact.
unfoldable pub contact_changes : Section → Text → ChangeSet
unfolding change_section set_insert
contact_changes section contact_id =
    let c = change_section section in
    record c {
      entities = record c.entities { contact_ids = set_insert contact_id c.entities.contact_ids };
    }

-- The `match` on the words of `RuntimeEvent::Changed`.
unfoldable pub kind_section : Text → Section
kind_section kind =
    if text_eq kind (codes "profile")
    then Section.profile
    else if text_eq kind (codes "pairing") || text_eq kind (codes "pairings")
    then Section.pairings
    else if text_eq kind (codes "contact") || text_eq kind (codes "contacts")
    then Section.contacts
    else if text_eq kind (codes "relationship") || text_eq kind (codes "relationships")
    then Section.relationships
    else if text_eq kind (codes "conversation") || text_eq kind (codes "conversations")
    then Section.conversations
    else if text_eq kind (codes "message") || text_eq kind (codes "messages")
    then Section.messages
    else if text_eq kind (codes "receipt") || text_eq kind (codes "receipts")
    then Section.receipts
    else if text_eq kind (codes "presence")
    then Section.presence
    else if text_eq kind (codes "transport")
    then Section.transport
    else if text_eq kind (codes "capability") || text_eq kind (codes "capabilities")
    then Section.capabilities
    else Section.operations

unfoldable pub with_conversations : List Text → ChangeSet → ChangeSet
unfolding with_conversation
with_conversations [] c = c
with_conversations (id ∷ ids) c = with_conversations ids (with_conversation id c)

unfoldable pub from_runtime_event : (ℕ → Text) → RuntimeEvent → ChangeSet
unfolding pairing_changes message_event_changes in_conversation contact_changes kind_section
    with_conversations with_conversation change_section no_changes
from_runtime_event u (RuntimeEvent.runtime_ready protocol) = change_section Section.transport
from_runtime_event u (RuntimeEvent.tor_status status) = change_section Section.transport
from_runtime_event u (RuntimeEvent.transport_status_changed c s d p l a r g e t) =
    change_section Section.transport
from_runtime_event u (RuntimeEvent.peer_endpoint_changed contact_id status) =
    change_section Section.transport
from_runtime_event u (RuntimeEvent.peer_connection_changed contact_id status retry) =
    change_section Section.transport
from_runtime_event u (RuntimeEvent.profile_ready profile) = change_section Section.profile
from_runtime_event u (RuntimeEvent.invite_received pairing_id nickname) = pairing_changes pairing_id
from_runtime_event u (RuntimeEvent.invite_state_changed pairing_id state) =
    pairing_changes pairing_id
from_runtime_event u (RuntimeEvent.message_received id conversation text) =
    message_event_changes u id conversation
from_runtime_event u (RuntimeEvent.message_state_changed id conversation state) =
    message_event_changes u id conversation
from_runtime_event u (RuntimeEvent.conversation_read_changed conversation unread) =
    in_conversation conversation (change_section Section.receipts)
from_runtime_event u (RuntimeEvent.typing_changed conversation typing expires_at) =
    with_conversation conversation (change_section Section.presence)
from_runtime_event u (RuntimeEvent.conversation_focus_changed conversation focused expires_at) =
    with_conversation conversation (change_section Section.presence)
from_runtime_event u (RuntimeEvent.presence_changed contact_id online idle observed expires) =
    contact_changes Section.presence contact_id
from_runtime_event u (RuntimeEvent.contact_capability_changed contact_id capability sequence st) =
    contact_changes Section.capabilities contact_id
from_runtime_event u (RuntimeEvent.changed none) = change_section Section.operations
from_runtime_event u (RuntimeEvent.changed (some kind)) = change_section (kind_section kind)
from_runtime_event u (RuntimeEvent.projection_changed store session revision application ids) =
    with_conversations ids (if application then change_section Section.operations else no_changes)
from_runtime_event u (RuntimeEvent.runtime_error message) = no_changes
from_runtime_event u (RuntimeEvent.runtime_log message) = no_changes

unfoldable pub merge_events : (ℕ → Text) → ChangeSet → List RuntimeEvent → ChangeSet
unfolding from_runtime_event merge
merge_events u changes [] = changes
merge_events u changes (event ∷ events) =
    merge_events u (merge changes (from_runtime_event u event)) events

unfoldable pub from_runtime_events : (ℕ → Text) → List RuntimeEvent → ChangeSet
unfolding merge_events no_changes
from_runtime_events u events = merge_events u no_changes events
