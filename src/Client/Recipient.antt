-- ===== src/Client/Recipient.antt =====
-- Who the client runtime sends a message to (packages/torchat-runtime/src/runtime.rs).
use t_orca.Base.{ℕ, ◌≡◌, sym, ap, ◌∙◌, true, false, not, Option, some, List, find, Text, ok, arith}
use t_orca.Domain.{VerificationState, can_send}
use t_orca.Models.{ChatMessage, ConversationSummary, ContactRecord, MessageSendEffect}
use t_orca.Messaging.Outcome.{message_effect}
use t_orca.Messaging.Sending.{is_verified}
use t_orca.Client.Storage.{RuntimeStorage}
use t_orca.Client.Action.{Client, query}
use t_orca.Client.Inversion.{bind_ok, lift_ok, query_ok, ok_or_ok, guard_ok, required_ok, pure_ok}
use t_orca.Client.ContactRules.{is_contact}
use t_orca.Client.Messages.{
  is_conversation, check_recipient, stored_message, stored_conversation, recipient_contact,
  sendable_contact, enter_send_attempt, prepare_message_send,
}

module _ {S : Type 0} (storage : RuntimeStorage S) where
  -- The stored message is outgoing, its conversation is ready to send, and the contact of that
  -- conversation is verified and not blocked.
  pub record MaySend (s : S) (message_id : Text) (effect : MessageSendEffect) : Type 0 where
    pub message : ChatMessage
    pub conversations : List ConversationSummary
    pub conversation : ConversationSummary
    pub contacts : List ContactRecord
    pub contact : ContactRecord
    pub stored : storage.message_by_id s message_id ≡ ok (some message)
    pub outgoing : message.outgoing ≡ true
    pub listed : storage.conversations s ≡ ok conversations
    pub found : find (is_conversation message.conversation_id) conversations ≡ some conversation
    pub ready : can_send conversation.status ≡ true
    pub known : storage.contacts s ≡ ok contacts
    pub held : find (is_contact conversation.contact_installation_id) contacts ≡ some contact
    pub verified : contact.verification ≡ VerificationState.verified
    pub unblocked : contact.blocked ≡ false
    pub sent : effect ≡ message_effect message contact.installation_id

  check_recipient_lem :
      (contact contact' : ContactRecord)
      → check_recipient contact ≡ ok contact'
      → (contact' ≡ contact)
        × (contact.verification ≡ VerificationState.verified)
        × (contact.blocked ≡ false)
  unfolding check_recipient is_verified
  check_recipient_lem contact contact' e = (ground arith, ground arith, ground arith)

  stored_message_lem :
      (id : Text) (c c' : Client S) (m : ChatMessage)
      → stored_message storage id c ≡ (ok m, c')
      → (storage.message_by_id c.storage id ≡ ok (some m)) × (c' ≡ c)
  unfolding stored_message
  stored_message_lem id c c' m e =
      let (o, t, asked, answered) = bind_ok (query (λ s. storage.message_by_id s id)) _ c c' m e in
      let (is_o, same) = query_ok (λ s. storage.message_by_id s id) c t o asked in
      let (some_m, same') = lift_ok _ t c' m answered in
      (is_o ∙ ap ok (ok_or_ok o _ m some_m), same' ∙ same)

  sendable_contact_lem :
      (conversation : ConversationSummary) (c c' : Client S) (contact : ContactRecord)
      → sendable_contact storage conversation c ≡ (ok contact, c')
      → (contacts : List ContactRecord) × (can_send conversation.status ≡ true)
        × (storage.contacts c.storage ≡ ok contacts)
        × (find (is_contact conversation.contact_installation_id) contacts ≡ some contact)
        × (contact.verification ≡ VerificationState.verified)
        × (contact.blocked ≡ false)
        × (c' ≡ c)
  unfolding sendable_contact
  sendable_contact_lem conversation c c' contact e =
      let (_, t, passed, rest) = bind_ok _ _ c c' contact e in
      let (can, same) = guard_ok (not (can_send conversation.status)) _ c t passed in
      let (held, t', asked, checked) =
        bind_ok (recipient_contact storage conversation.contact_installation_id) _ t c' contact
          rest in
      let (contacts, known, found, same') =
        required_ok storage.contacts (is_contact conversation.contact_installation_id) _ t t' held
          asked in
      let (fits, same'') = lift_ok (check_recipient held) t' c' contact checked in
      let (is_held, verified, unblocked) = check_recipient_lem held contact fits in
      (
        contacts,
        ground arith,
        ap (λ (x : Client S). storage.contacts x.storage) (sym same) ∙ known,
        found ∙ ap some (sym is_held),
        ap (λ (x : ContactRecord). x.verification) is_held ∙ verified,
        ap (λ (x : ContactRecord). x.blocked) is_held ∙ unblocked,
        same'' ∙ same' ∙ same,
      )

  -- A message is only prepared for sending if it is a stored outgoing message, in a listed
  -- conversation that is ready to send, to the contact of that conversation, which is verified and
  -- not blocked.
  pub prepare_message_send-MaySend :
      (parse_uuid : Text → Option ℕ) (id : Text) (c c' : Client S) (effect : MessageSendEffect)
      → prepare_message_send storage parse_uuid id c ≡ (ok effect, c')
      → MaySend c.storage id effect
  unfolding prepare_message_send
  prepare_message_send-MaySend parse_uuid id c c' effect e =
      let (message, t1, stored, rest1) = bind_ok (stored_message storage id) _ c c' effect e in
      let (found, same1) = stored_message_lem id c t1 message stored in
      let (_, t2, passed, rest2) = bind_ok _ _ t1 c' effect rest1 in
      let (outgoing, same2) = guard_ok (not message.outgoing) _ t1 t2 passed in
      let (conversation, t3, listed, rest3) =
        bind_ok (stored_conversation storage message.conversation_id) _ t2 c' effect rest2 in
      let (conversations, are, held, same3) =
        required_ok storage.conversations (is_conversation message.conversation_id) _ t2 t3
          conversation listed in
      let (contact, t4, allowed, rest4) =
        bind_ok (sendable_contact storage conversation) _ t3 c' effect rest3 in
      let (contacts, ready, known, is_there, verified, unblocked, _) =
        sendable_contact_lem conversation t3 t4 contact allowed in
      let (_, t5, _, rest5) =
        bind_ok (enter_send_attempt storage parse_uuid message) _ t4 c' effect rest4 in
      let at2 : t2 ≡ c = same2 ∙ same1 in
      let at3 : t3 ≡ c = same3 ∙ at2 in
      record {
        message = message;
        conversations = conversations;
        conversation = conversation;
        contacts = contacts;
        contact = contact;
        stored = found;
        outgoing = ground arith;
        listed = ap (λ (x : Client S). storage.conversations x.storage) (sym at2) ∙ are;
        found = held;
        ready = ready;
        known = ap (λ (x : Client S). storage.contacts x.storage) (sym at3) ∙ known;
        held = is_there;
        verified = verified;
        unblocked = unblocked;
        sent = pure_ok (message_effect message contact.installation_id) effect t5 c' rest5;
      }
