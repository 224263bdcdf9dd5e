-- ===== src/Messaging/Recipient.antt =====
-- Who a message may be sent to, by packages/torchat-runtime/src/features/messaging/mod.rs.
use t_orca.Base.{
  ℕ, ◌≡◌, sym, ap, ◌∙◌, true, false, Option, none, some, [], ◌∷◌, Text, RuntimeResult, ok, arith,
  trim,
}
use t_orca.Base.Int.{ℤ}
use t_orca.Base.Method.{lift, ◌>>=◌, bind_ok}
use t_orca.Domain.{MessageState, VerificationState, can_send, message_state_eq}
use t_orca.Models.{ConversationSummary, ContactRecord, MessageReply}
use t_orca.Changes.{FeatureResult}
use t_orca.Messaging.Outcome.{MessageStorage, normalize_message_text}
use t_orca.Messaging.Sending.{
  ConversationStorage, MessageQueueResult, delivery_contact, delivery_target, is_verified, queue,
  queue_for, reply_of,
}

module _ {S : Type 0} (storage : MessageStorage S) (lookups : ConversationStorage S) where
  -- The stored conversation is ready to send, and its contact is verified and not blocked.
  pub record IsAllowed (s : S) (conversation_id recipient : Text) : Type 0 where
    pub conversation : ConversationSummary
    pub contact : ContactRecord
    pub found : lookups.conversation_by_id s conversation_id ≡ ok (some conversation)
    pub known :
        lookups.contact_by_installation_id s conversation.contact_installation_id
        ≡ ok (some contact)
    pub ready : can_send conversation.status ≡ true
    pub verified : contact.verification ≡ VerificationState.verified
    pub unblocked : contact.blocked ≡ false
    pub recipient_is_contact : recipient ≡ contact.installation_id

  delivery_contact-verified :
      (s : S) (conversation : ConversationSummary) (contact : ContactRecord)
      → delivery_contact storage lookups s conversation ≡ ok contact
      → (lookups.contact_by_installation_id s conversation.contact_installation_id
          ≡ ok (some contact))
        × (can_send conversation.status ≡ true)
        × (contact.verification ≡ VerificationState.verified)
        × (contact.blocked ≡ false)
  unfolding delivery_contact is_verified
  delivery_contact-verified s conversation contact e = ground arith

  delivery_target-found :
      (conversation_id : Text) (s s' : S) (conversation : ConversationSummary)
      (contact : ContactRecord)
      → delivery_target storage lookups conversation_id s ≡ (ok (conversation, contact), s')
      → (lookups.conversation_by_id s conversation_id ≡ ok (some conversation))
        × (delivery_contact storage lookups s conversation ≡ ok contact)
        × (s' ≡ s)
  unfolding delivery_target
  delivery_target-found conversation_id s s' conversation contact e =
      (ground arith, ground arith, ground arith)

  reply_of-store :
      (conversation_id : Text) (reply : Option Text) (s t : S) (m : Option MessageReply)
      → reply_of storage lookups conversation_id reply s ≡ (ok m, t)
      → t ≡ s
  unfolding reply_of
  reply_of-store conversation_id none s t m e = ground arith
  reply_of-store conversation_id (some id) s t m e = ground arith

  normalize-store :
      (text text' : Text) (s t : S)
      → ◌≡◌ {A = RuntimeResult Text × S} (normalize_message_text text, s) (ok text', t)
      → (text' ≡ trim text) × (t ≡ s)
  unfolding normalize_message_text
  normalize-store text text' s t e = (ground arith, ground arith)

  queue_for-sent :
      (uuid_text : ℕ → Text) (new_id : ℕ) (conversation_id text : Text)
      (reply : Option MessageReply) (now_ms : ℤ) (target : ConversationSummary × ContactRecord)
      (s s' : S) (r : FeatureResult MessageQueueResult)
      → queue_for storage lookups uuid_text new_id conversation_id text reply now_ms target s
        ≡ (ok r, s')
      → (r.value.effect.recipient_installation_id ≡ target.1.installation_id)
        × (r.value.transitions ≡ MessageState.queued ∷ MessageState.sending ∷ [])
        × (r.value.effect.body ≡ text)
  unfolding queue_for message_state_eq
  queue_for-sent uuid_text new_id conversation_id text reply now_ms target s s' r e =
      (ground arith, ground arith, ground arith)

  -- A queued message goes to a contact to whom the stored conversation may send: it is verified and
  -- not blocked. The message has been queued and then sent once, and carries the trimmed text.
  pub queue-IsAllowed :
      (uuid_text : ℕ → Text) (new_id : ℕ) (conversation_id text : Text)
      (reply_to_message_id : Option Text) (now_ms : ℤ) (s s' : S)
      (r : FeatureResult MessageQueueResult)
      → queue storage lookups uuid_text new_id conversation_id text reply_to_message_id now_ms s
        ≡ (ok r, s')
      → IsAllowed s conversation_id r.value.effect.recipient_installation_id
        × (r.value.transitions ≡ MessageState.queued ∷ MessageState.sending ∷ [])
        × (r.value.effect.body ≡ trim text)
  unfolding queue
  queue-IsAllowed uuid_text new_id conversation_id text reply now_ms s s' r e =
      let (text', t1, p1, e1) =
        bind_ok (lift (normalize_message_text text))
          (λ (text' : Text). reply_of storage lookups conversation_id reply >>= λ m.
            delivery_target storage lookups conversation_id >>= λ target.
            queue_for storage lookups uuid_text new_id conversation_id text' m now_ms target)
          s s' r e in
      let (m, t2, p2, e2) =
        bind_ok (reply_of storage lookups conversation_id reply)
          (λ (m : Option MessageReply).
            delivery_target storage lookups conversation_id >>= λ target.
            queue_for storage lookups uuid_text new_id conversation_id text' m now_ms target)
          t1 s' r e1 in
      let (target, t3, p3, e3) =
        bind_ok (delivery_target storage lookups conversation_id)
          (λ (target : ConversationSummary × ContactRecord).
            queue_for storage lookups uuid_text new_id conversation_id text' m now_ms target)
          t2 s' r e2 in
      let (trimmed, same1) = normalize-store text text' s t1 p1 in
      let same : t2 ≡ s = reply_of-store conversation_id reply t1 t2 m p2 ∙ same1 in
      let (found, allowed, _) = delivery_target-found conversation_id t2 t3 target.0 target.1 p3 in
      let (known, ready, verified, unblocked) =
        delivery_contact-verified t2 target.0 target.1 allowed in
      let (recipient, transitions, body) =
        queue_for-sent uuid_text new_id conversation_id text' m now_ms target t3 s' r e3 in
      (
        record {
          conversation = target.0;
          contact = target.1;
          found = ap (λ t. lookups.conversation_by_id t conversation_id) (sym same) ∙ found;
          known =
              ap (λ t. lookups.contact_by_installation_id t (target.0).contact_installation_id)
                (sym same)
              ∙ known;
          ready = ready;
          verified = verified;
          unblocked = unblocked;
          recipient_is_contact = recipient;
        },
        transitions,
        body ∙ trimmed,
      )
