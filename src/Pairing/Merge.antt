-- ===== src/Pairing/Merge.antt =====
-- What `merge_invite_state` and `merge_pairing_item` (rules.rs) promise: a merge is a maximum of
-- progress, loses nothing that was known, and is idempotent.
use mathlib.Core.Bool.{decide}
use t_orca.Base.{
  ℕ, ◌≤◌, ◌≡◌, ◌≢◌, refl, ◌⊎◌, Bool, true, false, not, ◌||◌, Option, none, some, [], ◌∷◌, arith,
  max, ap, sym, ◌∙◌, Text, unwrap_or, is_empty, if◌then◌else◌,
}
use t_orca.Base.Int.{ℤ, max_ℤ}
use t_orca.Domain.{InviteState, pairing_available_actions}
use t_orca.Models.{PairingItem, PairingItem-discrete}
use t_orca.Pairing.Rules.{
  merge_invite_state, normalize_pairing_item, merge_pairing_item, merged_item, fill,
}

-- Pending, settled, final.
abbrev pub progress : InviteState → ℕ
progress InviteState.pending = 0
progress InviteState.archived = 2
progress InviteState.completed = 2
progress _ = 1

-- The merged state is one of the two, the one that is further, and the local one on a tie.
pub merge_invite_state_lem :
    (local remote : InviteState)
    → (progress (merge_invite_state local remote) ≡ max (progress local) (progress remote))
      × (progress remote ≤ progress local → merge_invite_state local remote ≡ local)
      × ((merge_invite_state local remote ≡ local) ⊎ (merge_invite_state local remote ≡ remote))
unfolding merge_invite_state
merge_invite_state_lem InviteState.pending remote = ground arith
merge_invite_state_lem local remote = ground arith

merge_invite_state_idem :
    (local remote : InviteState)
    → merge_invite_state (merge_invite_state local remote) remote ≡ merge_invite_state local remote
unfolding merge_invite_state
merge_invite_state_idem local remote = ground arith

merge_invite_state_self : (s : InviteState) → merge_invite_state s s ≡ s
unfolding merge_invite_state
merge_invite_state_self s = ground arith

fill_again {ℓ} : {A : Type ℓ} (a b : Option A) → fill (fill a b) b ≡ fill a b
fill_again none none = refl
fill_again none (some b) = refl
fill_again (some a) b = refl

max_again : (a b : ℤ) → max_ℤ (max_ℤ a b) b ≡ max_ℤ a b
max_again a b = ground arith

or_again : (a b : Bool) → ((a || b) || b) ≡ (a || b)
or_again true b = refl
or_again false true = refl
or_again false false = refl

choose_capability : Option Text → Option Text → Option Text
choose_capability a b = if is_empty (unwrap_or a []) then b else a

choose_again :
    (a b : Option Text) → choose_capability (choose_capability a b) b ≡ choose_capability a b
unfolding choose_capability
choose_again none none = refl
choose_again none (some []) = refl
choose_again none (some (c ∷ s)) = refl
choose_again (some []) none = refl
choose_again (some []) (some []) = refl
choose_again (some []) (some (c ∷ s)) = refl
choose_again (some (c ∷ s)) b = refl

normalize_twice :
    (item : PairingItem)
    → normalize_pairing_item (normalize_pairing_item item) ≡ normalize_pairing_item item
unfolding normalize_pairing_item
normalize_twice item = refl

merged_item_again :
    (local remote : PairingItem)
    → merged_item (normalize_pairing_item (merged_item local remote)) remote
      ≡ merged_item local remote
unfolding merged_item normalize_pairing_item choose_capability
merged_item_again local remote = cc (
  fill_again local.sender remote.sender,
  fill_again local.offer_invite_id remote.offer_invite_id,
  fill_again local.offer_payload remote.offer_payload,
  fill_again local.pair_key remote.pair_key,
  choose_again local.capability remote.capability,
  max_again local.expires_at remote.expires_at,
  or_again local.received remote.received,
  merge_invite_state_idem local.state remote.state,
)

decide_of_holds {ℓ} : {P : Type ℓ} (d : Dec P) → P → decide d ≡ true
unfolding decide
decide_of_holds (yes p) h = refl
decide_of_holds (no n) h = absurd (n h)

fill_self {ℓ} : {A : Type ℓ} (a : Option A) → fill a a ≡ a
fill_self none = refl
fill_self (some a) = refl

max_self : (a : ℤ) → max_ℤ a a ≡ a
max_self a = ground arith

or_self : (b : Bool) → (b || b) ≡ b
or_self true = refl
or_self false = refl

choose_self : (a : Option Text) → choose_capability a a ≡ a
unfolding choose_capability
choose_self none = refl
choose_self (some []) = refl
choose_self (some (c ∷ s)) = refl

merged_item_self :
    (item : PairingItem)
    → merged_item (normalize_pairing_item item) (normalize_pairing_item item)
      ≡ normalize_pairing_item item
unfolding merged_item normalize_pairing_item choose_capability
merged_item_self item = cc (
  fill_self item.sender,
  fill_self item.offer_invite_id,
  fill_self item.offer_payload,
  fill_self item.pair_key,
  choose_self item.capability,
  max_self item.expires_at,
  or_self item.received,
  merge_invite_state_self item.state,
)

normalize-merged_item :
    (local remote : PairingItem)
    → normalize_pairing_item (merged_item local remote) ≡ merged_item local remote
unfolding merged_item normalize_pairing_item
normalize-merged_item local remote = refl

unchanged_of_eq :
    (item old : PairingItem) → item ≡ old → not (decide (PairingItem-discrete item old)) ≡ false
unchanged_of_eq item old e = rw (decide_of_holds (PairingItem-discrete item old) e)

-- Merging the same remote item a second time gives the same item, inserts nothing and reports no
-- change, whether or not a local item was there the first time.
pub merge_pairing_item_idem :
    (local : Option PairingItem) (remote : PairingItem)
    → let merged = (merge_pairing_item local remote).item in
      let again = merge_pairing_item (some merged) remote in
      (again.item ≡ merged) × (again.inserted ≡ false) × (again.changed ≡ false)
unfolding merge_pairing_item
merge_pairing_item_idem none remote =
    let e =
      ap (λ x. merged_item x (normalize_pairing_item remote)) (normalize_twice remote)
      ∙ merged_item_self remote in
    (e, refl, unchanged_of_eq _ _ (e ∙ sym (normalize_twice remote)))
merge_pairing_item_idem (some local) remote =
    let new = normalize_pairing_item remote in
    let old = normalize_pairing_item local in
    let e = merged_item_again old new in
    (e, refl, unchanged_of_eq _ _ (e ∙ sym (normalize-merged_item old new)))

-- A merge into a local item keeps its id and every artifact that it had, whatever the remote item
-- says: the pair key, the sender, a capability that is not empty, the invite and the payload of the
-- offer. It stays a received item, its expiry is the later of the two, and it offers the actions of
-- the merged state.
pub merge_pairing_item_keeps :
    (local remote : PairingItem)
    → let item = (merge_pairing_item (some local) remote).item in
      (item.pairing_id ≡ local.pairing_id)
      × (local.pair_key ≢ none → item.pair_key ≡ local.pair_key)
      × (local.sender ≢ none → item.sender ≡ local.sender)
      × (is_empty (unwrap_or local.capability []) ≡ false → item.capability ≡ local.capability)
      × (local.offer_invite_id ≢ none → item.offer_invite_id ≡ local.offer_invite_id)
      × (local.offer_payload ≢ none → item.offer_payload ≡ local.offer_payload)
      × (local.received ≡ true → item.received ≡ true)
      × (item.expires_at ≡ max_ℤ local.expires_at remote.expires_at)
      × (item.available_actions ≡ pairing_available_actions item.state item.received)
unfolding merge_pairing_item merged_item normalize_pairing_item
merge_pairing_item_keeps local remote = ground arith
