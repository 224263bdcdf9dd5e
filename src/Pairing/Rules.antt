-- ===== src/Pairing/Rules.antt =====
-- packages/torchat-runtime/src/features/pairing/rules.rs. A slice of items that a function mutates
-- is returned anew. The traits `Runtime…Like` give access to an id, a state and an expiry: the
-- functions over them are stated here over `PairingItem`, whose ids are texts.
use mathlib.Core.Bool.{decide}
use t_orca.Base.{
  Bool, true, false, not, ◌&&◌, ◌||◌, Option, none, some, List, [], ◌∷◌, map, any, find, find_map,
  is_none, is_empty, unwrap_or, if◌then◌else◌, Text, text_eq, Result, ok, err,
}
use t_orca.Base.Int.{ℤ, ltb_ℤ, max_ℤ}
use t_orca.Domain.{
  InviteState, PairingAction, invite_eq, is_pending, is_accepted, can_archive,
  pairing_available_actions,
}
use t_orca.Models.{PairingItem, PairingItem-discrete}

pub data RuntimePairingTransitionError : Type 0 where
  not_found invalid_transition : RuntimePairingTransitionError

unfoldable pub transition : InviteState → PairingAction → Option InviteState
transition InviteState.pending PairingAction.accept = some InviteState.accepted
transition InviteState.pending PairingAction.reject = some InviteState.rejected
transition InviteState.pending PairingAction.expire = some InviteState.expired
transition InviteState.pending PairingAction.cancel = some InviteState.cancelled
transition InviteState.accepted PairingAction.complete = some InviteState.completed
transition InviteState.accepted PairingAction.cancel = some InviteState.cancelled
transition InviteState.accepted PairingAction.archive = some InviteState.archived
transition InviteState.rejected PairingAction.archive = some InviteState.archived
transition InviteState.completed PairingAction.archive = some InviteState.archived
transition InviteState.expired PairingAction.archive = some InviteState.archived
transition InviteState.cancelled PairingAction.archive = some InviteState.archived
transition _ _ = none

unfoldable pub pairing_target_state : PairingAction → InviteState
pairing_target_state PairingAction.accept = InviteState.accepted
pairing_target_state PairingAction.reject = InviteState.rejected
pairing_target_state PairingAction.complete = InviteState.completed
pairing_target_state PairingAction.expire = InviteState.expired
pairing_target_state PairingAction.archive = InviteState.archived
pairing_target_state PairingAction.cancel = InviteState.cancelled

unfoldable pub pairing_state_after_action : InviteState → PairingAction → Option InviteState
unfolding transition
pairing_state_after_action state action = transition state action

unfoldable pub pairing_is_active : InviteState → Bool
unfolding is_pending is_accepted
pairing_is_active state = is_pending state || is_accepted state

unfoldable pub pairing_has_outstanding_request : List PairingItem → Bool
unfolding pairing_is_active
pairing_has_outstanding_request items = any (λ item. pairing_is_active item.state) items

unfoldable pub pairing_items_transition_after_action :
    List PairingItem → Text → PairingAction → Option InviteState
unfolding pairing_state_after_action
pairing_items_transition_after_action items pairing_id action =
    find_map
      (λ item.
        if text_eq item.pairing_id pairing_id
        then pairing_state_after_action item.state action
        else none)
      items

unfoldable pub pairing_items_can_archive : List PairingItem → Text → Bool
pairing_items_can_archive items pairing_id =
    any (λ item. text_eq item.pairing_id pairing_id && can_archive item.state) items

unfoldable pub expire_pairing_state : InviteState → ℤ → ℤ → InviteState
unfolding is_pending
expire_pairing_state state expires_at now_secs =
    if is_pending state && ltb_ℤ expires_at now_secs then InviteState.expired else state

-- The items after the loop, and whether one changed.
unfoldable pub expire_pairing_items : List PairingItem → ℤ → List PairingItem × Bool
unfolding expire_pairing_state invite_eq
expire_pairing_items [] now_secs = ([], false)
expire_pairing_items (item ∷ items) now_secs =
    let (rest, changed) = expire_pairing_items items now_secs in
    let next = expire_pairing_state item.state item.expires_at now_secs in
    if invite_eq next item.state
    then (item ∷ rest, changed)
    else (record item { state = next } ∷ rest, true)

pub record PairingMerge : Type 0 where
  pub item : PairingItem
  pub inserted : Bool
  pub changed : Bool

-- `matches!(state, Archived | Completed)` and the set of the fourth test.
unfoldable pub is_final : InviteState → Bool
is_final InviteState.archived = true
is_final InviteState.completed = true
is_final _ = false

unfoldable pub is_settled : InviteState → Bool
is_settled InviteState.rejected = true
is_settled InviteState.cancelled = true
is_settled InviteState.expired = true
is_settled InviteState.accepted = true
is_settled _ = false

unfoldable pub merge_invite_state : InviteState → InviteState → InviteState
unfolding invite_eq is_final is_settled is_pending
merge_invite_state local remote =
    if invite_eq local remote
    then local
    else if is_final local
    then local
    else if is_final remote
    then remote
    else if is_settled local && is_pending remote
    then local
    else if is_pending local
    then remote
    else local

unfoldable pub normalize_pairing_item : PairingItem → PairingItem
normalize_pairing_item item = record item {
  available_actions = pairing_available_actions item.state item.received;
}

unfoldable pub normalize_pairing_items : List PairingItem → List PairingItem
unfolding normalize_pairing_item
normalize_pairing_items items = map normalize_pairing_item items

-- `if field.is_none() { field = other }`.
abbrev pub fill {ℓ} : {A : Type ℓ} → Option A → Option A → Option A
fill field other = if is_none field then other else field

-- The assignments of the `Some` branch, on two normalized items.
unfoldable pub merged_item : PairingItem → PairingItem → PairingItem
unfolding merge_invite_state normalize_pairing_item
merged_item local remote = normalize_pairing_item (record local {
  sender = fill local.sender remote.sender;
  capability =
      if is_empty (unwrap_or local.capability []) then remote.capability else local.capability;
  offer_invite_id = fill local.offer_invite_id remote.offer_invite_id;
  offer_payload = fill local.offer_payload remote.offer_payload;
  pair_key = fill local.pair_key remote.pair_key;
  expires_at = max_ℤ local.expires_at remote.expires_at;
  received = local.received || remote.received;
  state = merge_invite_state local.state remote.state;
})

unfoldable pub merge_pairing_item : Option PairingItem → PairingItem → PairingMerge
merge_pairing_item none remote = record {
  item = normalize_pairing_item remote;
  inserted = true;
  changed = true;
}
merge_pairing_item (some local) remote =
    let old = normalize_pairing_item local in
    let item = merged_item old (normalize_pairing_item remote) in
    record { item = item; inserted = false; changed = not (decide (PairingItem-discrete item old)) }

-- The first item with the id, as the closure of `transition_pairing_record` finds and writes it.
abbrev replace_first : Text → (PairingItem → PairingItem) → List PairingItem → List PairingItem
replace_first pairing_id f [] = []
replace_first pairing_id f (item ∷ items) =
    if text_eq item.pairing_id pairing_id
    then f item ∷ items
    else item ∷ replace_first pairing_id f items

-- The items after the call, and its result.
unfoldable pub transition_pairing_record :
    List PairingItem
    → Text
    → PairingAction
    → List PairingItem × Result RuntimePairingTransitionError Bool
unfolding pairing_target_state pairing_state_after_action invite_eq
transition_pairing_record items pairing_id action =
    elim (find (λ item. text_eq item.pairing_id pairing_id) items) [
      | none ↦ (items, err not_found)
      | some item ↦
          if invite_eq item.state (pairing_target_state action)
          then (items, ok true)
          else elim (pairing_state_after_action item.state action) [
            | none ↦ (items, err invalid_transition)
            | some next ↦
                (replace_first pairing_id (λ found. record found { state = next }) items, ok true)
          ]
    ]
