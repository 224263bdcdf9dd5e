-- ===== src/Client/Receiving.antt =====
-- What a message that arrives twice does (packages/torchat-runtime/src/runtime.rs).
use t_orca.Base.{
  ℕ, ◌≡◌, refl, sym, ap, ◌∙◌, inl, inr, false, Option, some, Text, is_empty, trim, ok, Result-cases,
  Option-cases, Bool-cases, arith, text_eq_refl, text_eq→eq, find,
}
use t_orca.Models.{ChatMessage, MessageReply, ConversationSummary}
use t_orca.Client.Storage.{RuntimeStorage}
use t_orca.Client.Session.{conversation_is_attended}
use t_orca.Client.Messages.{is_conversation}
use t_orca.Client.Action.{
  Client, ◌>>=◌, query, lift, store, publish, session_of, now_ms, pure, fail, choose,
}
use t_orca.Client.Incoming.{
  accept_incoming, known_incoming, receive_message_reply, incoming_message, incoming_summary,
}

-- A message that was put is found, and a conversation that is put changes no message.
pub record KeepsMessages {S : Type 0} (storage : RuntimeStorage S) : Type 0 where
  pub put_found :
      (m : ChatMessage) (s s' : S)
      → storage.put_message m s ≡ (ok tt, s')
      → storage.message_by_id s' m.id ≡ ok (some m)
  pub conversation_keeps :
      (c : ConversationSummary) (id : Text) (s s' : S)
      → storage.put_conversation c s ≡ (ok tt, s')
      → storage.message_by_id s' id ≡ storage.message_by_id s id

module _ {S : Type 0} (storage : RuntimeStorage S) (keeps : KeepsMessages storage) where
  accept_incoming-stored :
      (uuid_text : ℕ → Text) (id : ℕ) (conversation_id body : Text) (reply : Option MessageReply)
      (c c' : Client S) (m : ChatMessage)
      → accept_incoming storage uuid_text id conversation_id body reply c ≡ (ok m, c')
      → (storage.message_by_id c'.storage (uuid_text id) ≡ ok (some m))
        × (m.outgoing ≡ false)
        × (m.conversation_id ≡ conversation_id)
        × (m.body ≡ body)
  unfolding accept_incoming ◌>>=◌ query session_of now_ms store publish pure
  accept_incoming-stored uuid_text id conversation_id body reply c c' m e =
      elim (Result-cases (storage.conversations c.storage)) [
        | inr (x, h) ↦ absurd (ground arith)
        | inl (cs, h) ↦
            let now = c.clock c.readings in
            let message = incoming_message (uuid_text id) conversation_id body reply now in
            let summary =
              incoming_summary (find (is_conversation conversation_id) cs) conversation_id body now
                (conversation_is_attended conversation_id c.session) in
            let put1 = storage.put_message message c.storage in
            let put2 = storage.put_conversation summary put1.1 in
            elim (Result-cases put1.0) [
              | inr (x, h1) ↦ absurd (ground arith)
              | inl (u, h1) ↦ elim (Result-cases put2.0) [
                | inr (x, h2) ↦ absurd (ground arith)
                | inl (u, h2) ↦
                    let same : m ≡ message = ground arith in
                    let left : c'.storage ≡ put2.1 = ground arith in
                    let found : storage.message_by_id put1.1 message.id ≡ ok (some message) =
                      keeps.put_found message c.storage put1.1 (ground arith) in
                    let kept : storage.message_by_id put2.1 message.id
                        ≡ storage.message_by_id put1.1 message.id =
                      keeps.conversation_keeps summary message.id put1.1 put2.1 (ground arith) in
                    (
                      ap (λ t. storage.message_by_id t (uuid_text id)) left
                          ∙ kept
                          ∙ found
                          ∙ ap (λ (x : ChatMessage). ok (some x)) (sym same),
                      ap (λ (x : ChatMessage). x.outgoing) same,
                      ap (λ (x : ChatMessage). x.conversation_id) same,
                      ap (λ (x : ChatMessage). x.body) same,
                    )
              ]
            ]
      ]

  -- An incoming message is answered from the store only if it is the same.
  known_incoming_lem :
      (existing m : ChatMessage) (conversation_id body : Text)
      → known_incoming existing conversation_id body ≡ ok m
      → (m ≡ existing)
        × (m.outgoing ≡ false)
        × (m.conversation_id ≡ conversation_id)
        × (m.body ≡ body)
  unfolding known_incoming
  known_incoming_lem existing m conversation_id body e = (
    ground arith,
    ground arith,
    ground (arith, text_eq→eq existing.conversation_id conversation_id),
    ground (arith, text_eq→eq existing.body body),
  )

  known_incoming_same :
      (m : ChatMessage) (conversation_id body : Text)
      → m.outgoing ≡ false
      → m.conversation_id ≡ conversation_id
      → m.body ≡ body
      → known_incoming m conversation_id body ≡ ok m
  unfolding known_incoming
  known_incoming_same m conversation_id body incoming same_conversation same_body =
      ground (arith, text_eq_refl conversation_id, text_eq_refl body)

  -- A received message is stored as it was answered.
  received-stored :
      (uuid_text : ℕ → Text) (conversation_id text : Text) (id : ℕ) (reply : Option MessageReply)
      (c c' : Client S) (m : ChatMessage)
      → receive_message_reply storage uuid_text conversation_id text id reply c ≡ (ok m, c')
      → (is_empty (trim text) ≡ false)
        × (storage.message_by_id c'.storage (uuid_text id) ≡ ok (some m))
        × (m.outgoing ≡ false)
        × (m.conversation_id ≡ conversation_id)
        × (m.body ≡ trim text)
  unfolding receive_message_reply ◌>>=◌ query lift pure fail choose
  received-stored uuid_text conversation_id text id reply c c' m e =
      elim (Bool-cases (is_empty (trim text))) [
        | inl blank ↦ absurd (ground arith)
        | inr full ↦ elim (Result-cases (storage.message_by_id c.storage (uuid_text id))) [
          | inr (x, h) ↦ absurd (ground arith)
          | inl (stored, h) ↦ elim (Option-cases stored) [
            | inl fresh ↦
                let ran : accept_incoming storage uuid_text id conversation_id (trim text) reply c
                    ≡ (ok m, c') =
                  ground arith in
                let (found, incoming, conversation, body) =
                  accept_incoming-stored uuid_text id conversation_id (trim text) reply c c' m
                    ran in
                (full, found, incoming, conversation, body)
            | inr (existing, known) ↦
                let answer : known_incoming existing conversation_id (trim text) ≡ ok m =
                  ground arith in
                let (same, incoming, conversation, body) =
                  known_incoming_lem existing m conversation_id (trim text) answer in
                let unmoved : c' ≡ c = ground arith in
                (
                  full,
                  ap (λ (t : Client S). storage.message_by_id t.storage (uuid_text id)) unmoved
                      ∙ h
                      ∙ ap ok known
                      ∙ ap (λ (x : ChatMessage). ok (some x)) (sym same),
                  incoming,
                  conversation,
                  body,
                )
          ]
        ]
      ]

  -- A message that has been received is answered again, as often as it arrives with the same id, the
  -- same conversation and the same text up to white space round it: nothing is stored, nothing is
  -- told, and the clock is not read.
  pub receive_again :
      (uuid_text : ℕ → Text) (conversation_id text text' : Text) (id : ℕ)
      (reply reply' : Option MessageReply) (c c' : Client S) (m : ChatMessage)
      → receive_message_reply storage uuid_text conversation_id text id reply c ≡ (ok m, c')
      → trim text' ≡ trim text
      → receive_message_reply storage uuid_text conversation_id text' id reply' c' ≡ (ok m, c')
  unfolding receive_message_reply ◌>>=◌ query lift pure fail choose
  receive_again uuid_text conversation_id text text' id reply reply' c c' m e same =
      let (full, found, incoming, conversation, body) =
        received-stored uuid_text conversation_id text id reply c c' m e in
      rw same (
        rw full (
          rw found (
            rw (known_incoming_same m conversation_id (trim text) incoming conversation body)
              refl)))
