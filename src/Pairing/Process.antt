-- ===== src/Pairing/Process.antt =====
-- packages/torchat-runtime/src/features/pairing/process.rs: the pure steps of the pairing commands.
use t_orca.Base.{
  Bool, true, false, not, ◌&&◌, ◌||◌, Option, none, some, List, [], ◌∷◌, ◌++◌, ◌==◌, any, all,
  retain, is_none, is_some_and, is_empty, length, if◌then◌else◌, Text, text_eq, text_lt, trim, utf8,
  codes, is_ascii_whitespace, is_ascii_digit, ok, err, RuntimeResult, ok_or, reject_if, ◌>>=◌, ◌>>◌,
  invalid_params, conflict,
}
use t_orca.Base.Int.{ℤ, ltb_ℤ}
use t_orca.Domain.{
  InviteState, PairingAction, PairingSendKind, invite_eq, is_pending, is_outstanding,
}
use t_orca.Models.{ContactRecord, PairingItem, PairingPreparation, RuntimeSendEffect}
use t_orca.Pairing.Rules.{normalize_pairing_item, PairingMerge, merge_pairing_item}

unfoldable pub normalize_pairing_code : Text → RuntimeResult Text
unfolding is_ascii_whitespace is_ascii_digit
normalize_pairing_code code =
    let normalized = retain (λ value. not (is_ascii_whitespace value)) code in
    if not (length (utf8 normalized) == 8) || not (all is_ascii_digit (utf8 normalized))
    then err (invalid_params (codes "pairing code must contain exactly eight digits"))
    else ok normalized

unfoldable pub has_outstanding_request : List PairingItem → Bool
has_outstanding_request items = any (λ item. is_outstanding item.state) items

unfoldable pub transition_invite_state : InviteState → PairingAction → RuntimeResult InviteState
transition_invite_state InviteState.pending PairingAction.accept = ok InviteState.accepted
transition_invite_state InviteState.pending PairingAction.reject = ok InviteState.rejected
transition_invite_state InviteState.pending PairingAction.expire = ok InviteState.expired
transition_invite_state InviteState.pending PairingAction.cancel = ok InviteState.cancelled
transition_invite_state InviteState.accepted PairingAction.complete = ok InviteState.completed
transition_invite_state InviteState.accepted PairingAction.cancel = ok InviteState.cancelled
transition_invite_state InviteState.accepted PairingAction.archive = ok InviteState.archived
transition_invite_state InviteState.rejected PairingAction.archive = ok InviteState.archived
transition_invite_state InviteState.completed PairingAction.archive = ok InviteState.archived
transition_invite_state InviteState.expired PairingAction.archive = ok InviteState.archived
transition_invite_state InviteState.cancelled PairingAction.archive = ok InviteState.archived
transition_invite_state _ _ =
    err (conflict (codes "pairing request cannot be transitioned from its current state"))

unfoldable pub transition_item : PairingItem → PairingAction → RuntimeResult PairingItem
unfolding transition_invite_state normalize_pairing_item
transition_item item action = do
  next ← transition_invite_state item.state action
  ok (normalize_pairing_item (record item { state = next }))

unfoldable pub send_effect : Text → Text → PairingSendKind → Option Text → RuntimeSendEffect
send_effect pairing_id recipient_installation_id kind payload = record {
  message = none;
  receipt = none;
  pairing = some (record {
    pairing_id = pairing_id;
    recipient_installation_id = recipient_installation_id;
    kind = kind;
    payload = payload;
  });
}

-- The effect of one item of the loop of `pending_send_effects`: none where it continues.
unfoldable pub pending_send_effect : PairingItem → ℤ → RuntimeResult (List RuntimeSendEffect)
unfolding send_effect
pending_send_effect item now_secs = by_sender item.sender item.state
  where
    by_sender : Option ContactRecord → InviteState → RuntimeResult (List RuntimeSendEffect)
    by_sender none InviteState.accepted = err (conflict (codes "pairing sender does not exist"))
    by_sender none InviteState.rejected = err (conflict (codes "pairing sender does not exist"))
    by_sender none state = ok []
    by_sender (some sender) InviteState.accepted =
        if ltb_ℤ item.expires_at now_secs
        then ok []
        else if is_none item.offer_payload
        then err (conflict (codes "accepted pairing offer payload does not exist"))
        else ok (
            send_effect item.pairing_id sender.installation_id PairingSendKind.offer
              item.offer_payload
            ∷ [])
    by_sender (some sender) InviteState.rejected =
        ok (send_effect item.pairing_id sender.installation_id PairingSendKind.rejection none ∷ [])
    by_sender (some sender) state = ok []

-- `recipient_installation_id()`; the last case is its panic, which no effect of this file reaches.
unfoldable pub recipient_installation_id : RuntimeSendEffect → Option Text
recipient_installation_id effect = elim effect.message [
  | some m ↦ some m.recipient_installation_id
  | none ↦ elim effect.receipt [
    | some r ↦ some r.recipient_installation_id
    | none ↦ elim effect.pairing [ some p ↦ some p.recipient_installation_id | none ↦ none ]
  ]
]

abbrev effect_key : RuntimeSendEffect → Text
effect_key effect = elim (recipient_installation_id effect) [ some t ↦ t | none ↦ [] ]

-- `sort_by_key`, which is stable: an effect goes before the first with a greater key.
unfoldable pub insert_effect : RuntimeSendEffect → List RuntimeSendEffect → List RuntimeSendEffect
unfolding recipient_installation_id
insert_effect e [] = e ∷ []
insert_effect e (f ∷ fs) =
    if text_lt (effect_key f) (effect_key e) then f ∷ insert_effect e fs else e ∷ f ∷ fs

unfoldable pub sort_effects : List RuntimeSendEffect → List RuntimeSendEffect
unfolding insert_effect
sort_effects [] = []
sort_effects (e ∷ es) = insert_effect e (sort_effects es)

unfoldable pub collect_send_effects : List PairingItem → ℤ → RuntimeResult (List RuntimeSendEffect)
unfolding pending_send_effect
collect_send_effects [] now_secs = ok []
collect_send_effects (item ∷ items) now_secs = do
  first ← pending_send_effect item now_secs
  rest ← collect_send_effects items now_secs
  ok (first ++ rest)

unfoldable pub pending_send_effects : List PairingItem → ℤ → RuntimeResult (List RuntimeSendEffect)
unfolding collect_send_effects sort_effects
pending_send_effects items now_secs = do
  effects ← collect_send_effects items now_secs
  ok (sort_effects effects)

-- `position` and `remove`: the first item with the id, and the others.
unfoldable pub take_by_id : Text → List PairingItem → Option PairingItem × List PairingItem
take_by_id id [] = (none, [])
take_by_id id (item ∷ items) =
    let (found, rest) = take_by_id id items in
    if text_eq item.pairing_id id then (some item, items) else (found, item ∷ rest)

-- The local items after the loop, and the merges in the order of the remote items.
unfoldable pub merge_remote_items :
    List PairingItem → List PairingItem → List PairingItem × List PairingMerge
unfolding take_by_id merge_pairing_item
merge_remote_items local [] = (local, [])
merge_remote_items local (remote_item ∷ remote) =
    let (local_item, others) = take_by_id remote_item.pairing_id local in
    let merge = merge_pairing_item local_item remote_item in
    let (after, merges) = merge_remote_items (others ++ merge.item ∷ []) remote in
    (after, merge ∷ merges)

-- `matches!(state, Accepted | Completed)`.
unfoldable pub is_retrying : InviteState → Bool
is_retrying InviteState.accepted = true
is_retrying InviteState.completed = true
is_retrying _ = false

unfoldable pub is_known_contact : List ContactRecord → Text → Bool
is_known_contact contacts id =
    any (λ contact. text_eq contact.installation_id id && not contact.blocked) contacts

unfoldable pub prepare_accept :
    PairingItem → List ContactRecord → ℤ → RuntimeResult PairingPreparation
unfolding is_retrying is_known_contact is_pending
prepare_accept item contacts now_secs = do
  sender ← ok_or item.sender (conflict (codes "pairing sender does not exist"))
  let retrying = is_retrying item.state
  reject_if (not retrying && is_known_contact contacts sender.installation_id)
      (conflict (codes "contact already exists; remove it before pairing again"))
  capability ← ok_or item.capability (conflict (codes "pairing capability does not exist"))
  reject_if (not retrying && ltb_ℤ item.expires_at now_secs)
      (conflict (codes "pairing request is expired"))
  reject_if (not retrying && not (is_pending item.state))
      (conflict (codes "pairing request cannot be prepared from its current state"))
  ok (record {
    pairing_id = item.pairing_id;
    recipient_installation_id = sender.installation_id;
    capability = capability;
  })

-- `option.as_deref() == Some(text)`.
unfoldable pub holds : Option Text → Text → Bool
holds o t = is_some_and (λ s. text_eq s t) o

unfoldable pub commit_accept :
    PairingItem → Text → Text → ℤ → RuntimeResult (PairingItem × RuntimeSendEffect)
unfolding holds invite_eq send_effect transition_invite_state normalize_pairing_item
commit_accept item offer_invite_id offer_payload now_secs = do
  reject_if (is_empty (trim offer_invite_id))
      (invalid_params (codes "offerInviteId must not be empty"))
  reject_if (is_empty (trim offer_payload))
      (invalid_params (codes "offerPayload must not be empty"))
  sender ← ok_or item.sender (conflict (codes "pairing sender does not exist"))
  if invite_eq item.state InviteState.accepted
      then (if holds item.offer_invite_id offer_invite_id && holds item.offer_payload offer_payload
          then ok (
            item,
            send_effect item.pairing_id sender.installation_id PairingSendKind.offer
                item.offer_payload,
          )
          else err (conflict (codes "accepted pairing has different offer artifacts")))
      else (do
        reject_if (ltb_ℤ item.expires_at now_secs) (conflict (codes "pairing request is expired"))
        next ← transition_invite_state item.state PairingAction.accept
        let accepted = normalize_pairing_item (record item {
          state = next;
          offer_invite_id = some offer_invite_id;
          offer_payload = some offer_payload;
        })
        ok (
          accepted,
          send_effect item.pairing_id sender.installation_id PairingSendKind.offer
              (some offer_payload),
        ))
