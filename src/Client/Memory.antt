-- ===== src/Client/Memory.antt =====
-- The storage that the tests of packages/torchat-runtime/src/runtime.rs give the runtime. What it does
-- not implement is unsupported, as in packages/torchat-runtime/src/storage.rs.
use mathlib.Core.Path.{subst}
use t_orca.Base.{
  ◌≡◌, refl, sym, ap, Bool, not, ◌&&◌, ◌||◌, Option, none, some, List, [], ◌∷◌, ◌++◌, map, retain,
  find, any, is_some_and, if◌then◌else◌, Text, text_eq, text_eq_refl, text_lt, codes, RuntimeError,
  RuntimeResult, ok, err, Bool-cases, inl, inr,
}
use t_orca.Base.Method.{Method}
use t_orca.Domain.{MessageState, message_state_eq}
use t_orca.Models.{ContactRecord, ConversationSummary, ChatMessage, PairingItem}
use t_orca.Client.Events.{RuntimeIdentity, RuntimeProfile, InviteCode}
use t_orca.Client.Storage.{RuntimeStorage, RelationshipTransition}
use t_orca.Client.Receiving.{KeepsMessages}

pub record MemoryStorage : Type 0 where
  pub identity : Option RuntimeIdentity
  pub profile : Option RuntimeProfile
  pub pairing_code : Option InviteCode
  pub inbox : List PairingItem
  pub outbox : List PairingItem
  pub contacts : List ContactRecord
  pub conversations : List ConversationSummary
  pub messages : List ChatMessage

unfoldable pub unsupported : Text → RuntimeError
unsupported operation =
    RuntimeError.unavailable (codes "required storage operation is unavailable: " ++ operation)

abbrev refuse : {A : Type 0} → Text → Method MemoryStorage A
refuse operation s = (err (unsupported operation), s)

unfoldable pub upsert_pairing : List PairingItem → PairingItem → List PairingItem
upsert_pairing items item =
    retain (λ (v : PairingItem). not (text_eq v.pairing_id item.pairing_id)) items ++ item ∷ []

-- `value.pair_key.as_deref() == Some(pair_key)`.
unfoldable pub has_key : Text → PairingItem → Bool
has_key key v = is_some_and (λ k. text_eq k key) v.pair_key

-- The two directions of a crossed pairing keep one item of a key: the one with the smaller id.
unfoldable pub outranked : Text → PairingItem → List PairingItem → Bool
unfolding has_key
outranked key item others =
    any (λ (v : PairingItem). has_key key v && text_lt v.pairing_id item.pairing_id) others

unfoldable pub without_losers : Text → PairingItem → List PairingItem → List PairingItem
unfolding has_key
without_losers key item others =
    retain (λ (v : PairingItem). not (has_key key v) || text_eq v.pairing_id item.pairing_id) others

unfoldable pub put_pairing_inbox : PairingItem → Method MemoryStorage Unit
unfolding upsert_pairing outranked without_losers
put_pairing_inbox item s = elim item.pair_key [
  | none ↦ (ok tt, record s { inbox = upsert_pairing s.inbox item })
  | some key ↦ if outranked key item s.outbox then (ok tt, s) else (
    ok tt,
    record s { outbox = without_losers key item s.outbox; inbox = upsert_pairing s.inbox item },
  )
]

unfoldable pub put_pairing_outbox : PairingItem → Method MemoryStorage Unit
unfolding upsert_pairing outranked without_losers
put_pairing_outbox item s = elim item.pair_key [
  | none ↦ (ok tt, record s { outbox = upsert_pairing s.outbox item })
  | some key ↦ if outranked key item s.inbox then (ok tt, s) else (
    ok tt,
    record s { inbox = without_losers key item s.inbox; outbox = upsert_pairing s.outbox item },
  )
]

unfoldable pub put_contact : ContactRecord → Method MemoryStorage Unit
put_contact contact s = (
  ok tt,
  record s {
    contacts =
        retain (λ (v : ContactRecord). not (text_eq v.installation_id contact.installation_id))
          s.contacts
        ++ contact ∷ [];
  },
)

unfoldable pub put_conversation : ConversationSummary → Method MemoryStorage Unit
put_conversation conversation s = (
  ok tt,
  record s {
    conversations =
        retain (λ (v : ConversationSummary). not (text_eq v.id conversation.id)) s.conversations
        ++ conversation ∷ [];
  },
)

unfoldable pub read_in : Text → ConversationSummary → ConversationSummary
read_in id c = if text_eq c.id id then record c { unread_count = 0 } else c

unfoldable pub mark_conversation_read : Text → Method MemoryStorage Unit
unfolding read_in
mark_conversation_read id s = (ok tt, record s { conversations = map (read_in id) s.conversations })

unfoldable pub put_message : ChatMessage → Method MemoryStorage Unit
put_message message s = (
  ok tt,
  record s {
    messages =
        retain (λ (v : ChatMessage). not (text_eq v.id message.id)) s.messages ++ message ∷ [];
  },
)

unfoldable pub message_by_id : MemoryStorage → Text → RuntimeResult (Option ChatMessage)
message_by_id s id = ok (find (λ (v : ChatMessage). text_eq v.id id) s.messages)

unfoldable pub delete_message : Text → Method MemoryStorage Unit
delete_message id s =
    (ok tt, record s { messages = retain (λ (v : ChatMessage). not (text_eq v.id id)) s.messages })

-- The default `apply_relationship_transition`: each of the three is unsupported.
unfoldable pub apply_transition : RelationshipTransition → Method MemoryStorage Unit
apply_transition (RelationshipTransition.begin_verified id at) =
    refuse (codes "begin_verified_relationship")
apply_transition (RelationshipTransition.remove id at preserve removal epoch) =
    refuse (codes "remove_relationship")
apply_transition (RelationshipTransition.apply_remote_removal id at removal epoch) =
    refuse (codes "apply_remote_relationship_removal")

abbrev pub memory_storage : RuntimeStorage MemoryStorage
memory_storage = record {
  identity = λ s. ok s.identity;
  profile = λ s. ok s.profile;
  put_profile = λ p s. (ok tt, record s { profile = some p });
  put_pairing_code = λ code s. (ok tt, record s { pairing_code = some code });
  pairing_inbox = λ s. ok s.inbox;
  put_pairing_inbox = put_pairing_inbox;
  pairing_outbox = λ s. ok s.outbox;
  put_pairing_outbox = put_pairing_outbox;
  contacts = λ s. ok s.contacts;
  put_contact = put_contact;
  current_relationship_epoch = λ id. refuse (codes "current_relationship_epoch");
  apply_relationship_transition = apply_transition;
  remove_relationship_with_id =
      λ id at preserve removal epoch. refuse (codes "remove_relationship");
  conversations = λ s. ok s.conversations;
  put_conversation = put_conversation;
  mark_conversation_read = mark_conversation_read;
  messages = λ s id. ok (retain (λ (v : ChatMessage). text_eq v.conversation_id id) s.messages);
  message_by_id = message_by_id;
  put_message = put_message;
  delete_message = delete_message;
  pending_messages = λ s.
      ok (retain (λ (v : ChatMessage). message_state_eq v.state MessageState.queued) s.messages);
  pending_receipts = λ s. err (unsupported (codes "pending_receipts"));
  expedite_retry_after_ready = refuse (codes "expedite_retry_after_ready");
}

-- What was appended for its id is found.
find-retain :
    (m : ChatMessage) (xs : List ChatMessage)
    → find
        (λ (v : ChatMessage). text_eq v.id m.id)
        (retain (λ (v : ChatMessage). not (text_eq v.id m.id)) xs ++ m ∷ [])
      ≡ some m
find-retain m [] = rw (text_eq_refl m.id) refl
find-retain m (x ∷ xs) = elim (Bool-cases (text_eq x.id m.id)) [
  | inl e ↦ rw e (find-retain m xs)
  | inr e ↦ rw e (rw e (find-retain m xs))
]

pub memory_storage-KeepsMessages : KeepsMessages memory_storage
unfolding put_message message_by_id put_conversation
memory_storage-KeepsMessages = record {
  put_found = λ m s s' e.
      subst (λ t. message_by_id t m.id ≡ ok (some m)) (ap (λ p. p.1) e)
        (ap ok (find-retain m s.messages));
  conversation_keeps = λ c id s s' e. ap (λ p. message_by_id p.1 id) (sym e);
}
