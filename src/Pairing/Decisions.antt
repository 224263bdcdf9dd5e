-- ===== src/Pairing/Decisions.antt =====
-- What the steps of process.rs do to the stored items: a repeated accept, the expiry, and the list
-- that the interface shows.
use t_orca.Base.{
  ◌≡◌, refl, ap, ◌∙◌, inl, inr, Bool, true, false, not, ◌&&◌, Option, none, some, List, [], ◌∷◌,
  map, count, retain, length, All, Text, text_eq_refl, text_lt, ok, arith, Bool-cases,
}
use t_orca.Base.Int.{ℤ, ◌≤ℤ◌, leb_ℤ}
use t_orca.Domain.{InviteState, invite_eq}
use t_orca.Models.{PairingItem, RuntimeSendEffect}
use t_orca.Pairing.Rules.{normalize_pairing_item}
use t_orca.Pairing.Process.{commit_accept, holds, send_effect, transition_invite_state}
use t_orca.Pairing.Settle.{
  expire_item, expire_items, comes_before, insert_item, sort_items, visible_items,
}

-- An accept that is committed again with the same offer, at whatever time, answers the same item
-- and the same effect.
pub commit_accept_idem :
    (item accepted : PairingItem) (offer_invite_id offer_payload : Text) (now_secs later_secs : ℤ)
    (effect : RuntimeSendEffect)
    → commit_accept item offer_invite_id offer_payload now_secs ≡ ok (accepted, effect)
    → commit_accept accepted offer_invite_id offer_payload later_secs ≡ ok (accepted, effect)
unfolding commit_accept invite_eq holds transition_invite_state normalize_pairing_item send_effect
commit_accept_idem item accepted offer_invite_id offer_payload now_secs later_secs effect e =
    ground (arith, text_eq_refl offer_invite_id, text_eq_refl offer_payload)

abbrev pub is_late : ℤ → PairingItem → Bool
is_late now_secs item =
    invite_eq item.state InviteState.pending && not (leb_ℤ now_secs item.expires_at)

abbrev after_expiry :
    PairingItem
    → Option PairingItem
    → List PairingItem × List PairingItem
    → List PairingItem × List PairingItem
after_expiry item o r = elim o [
  | none ↦ (item ∷ r.0, r.1)
  | some expired ↦ (expired ∷ r.0, expired ∷ r.1)
]

abbrev pub AreExpired : ℤ → List PairingItem → List PairingItem × List PairingItem → Type 0
AreExpired now_secs items (after, changed) =
    All (λ item. item.state ≡ InviteState.pending → now_secs ≤ℤ item.expires_at) after
    × (map (λ item. item.pairing_id) after ≡ map (λ item. item.pairing_id) items)
    × (length changed ≡ count (is_late now_secs) items)

expire_step :
    (item : PairingItem) (items : List PairingItem) (now_secs : ℤ) (o : Option PairingItem)
    (r : List PairingItem × List PairingItem)
    → expire_item item now_secs ≡ o
    → AreExpired now_secs items r
    → AreExpired now_secs (item ∷ items) (after_expiry item o r)
unfolding expire_item invite_eq normalize_pairing_item
expire_step item items now_secs none (rest, changed) e (live, same, number) =
    (((λ p. ground arith), live), ap (λ ids. item.pairing_id ∷ ids) same, ground arith)
expire_step item items now_secs (some expired) (rest, changed) e (live, same, number) =
    let id : expired.pairing_id ≡ item.pairing_id = ground arith in
    (((λ p. ground arith), live), rw (id, same) refl, ground arith)

-- After an expiry no pending item is past its deadline, no item is lost, renamed or reordered, and
-- as many items are reported as were late.
pub expire_items_lem :
    (items : List PairingItem) (now_secs : ℤ)
    → AreExpired now_secs items (expire_items items now_secs)
unfolding expire_items
expire_items_lem [] now_secs = (tt, refl, refl)
expire_items_lem (item ∷ items) now_secs =
    expire_step item items now_secs (expire_item item now_secs) (expire_items items now_secs) refl
      (expire_items_lem items now_secs)

text_lt_asym : (s t : Text) → text_lt s t ≡ true → text_lt t s ≡ false
unfolding text_lt
text_lt_asym [] [] h = cc
text_lt_asym [] (y ∷ t) h = refl
text_lt_asym (x ∷ s) [] h = cc
text_lt_asym (x ∷ s) (y ∷ t) h = ground (arith, text_lt_asym s t)

-- The order of the texts, where none is before the other, is transitive.
text_lt_trans : (s t u : Text) → text_lt t s ≡ false → text_lt u t ≡ false → text_lt u s ≡ false
unfolding text_lt
text_lt_trans [] t [] h k = refl
text_lt_trans [] t (z ∷ u) h k = refl
text_lt_trans (x ∷ s) [] [] h k = cc
text_lt_trans (x ∷ s) [] (z ∷ u) h k = cc
text_lt_trans (x ∷ s) (y ∷ t) [] h k = cc
text_lt_trans (x ∷ s) (y ∷ t) (z ∷ u) h k = ground (arith, text_lt_trans s t u)

comes_before_asym : (a b : PairingItem) → comes_before a b ≡ true → comes_before b a ≡ false
unfolding comes_before
comes_before_asym a b h = ground (arith, text_lt_asym a.pairing_id b.pairing_id)

comes_before_trans :
    (a b c : PairingItem)
    → comes_before b a ≡ false
    → comes_before c b ≡ false
    → comes_before c a ≡ false
unfolding comes_before
comes_before_trans a b c h k = ground (arith, text_lt_trans a.pairing_id b.pairing_id c.pairing_id)

-- No later item of the list comes before an earlier one.
abbrev IsOrdered : List PairingItem → Type 0
IsOrdered [] = Unit
IsOrdered (x ∷ xs) = All (λ y. comes_before y x ≡ false) xs × IsOrdered xs

All-after :
    (x y : PairingItem) (ys : List PairingItem)
    → comes_before y x ≡ false
    → All (λ z. comes_before z y ≡ false) ys
    → All (λ z. comes_before z x ≡ false) ys
All-after x y [] h k = tt
All-after x y (z ∷ ys) h k = (comes_before_trans x y z h k.0, All-after x y ys h k.1)

All-insert_item :
    (P : PairingItem → Type 0) (x : PairingItem) (ys : List PairingItem)
    → P x
    → All P ys
    → All P (insert_item x ys)
unfolding insert_item
All-insert_item P x [] p h = (p, tt)
All-insert_item P x (y ∷ ys) p h = elim (Bool-cases (comes_before y x)) [
  | inl e ↦ rw e (h.0, All-insert_item P x ys p h.1)
  | inr e ↦ rw e (p, h)
]

insert_item-IsOrdered :
    (x : PairingItem) (ys : List PairingItem) → IsOrdered ys → IsOrdered (insert_item x ys)
unfolding insert_item
insert_item-IsOrdered x [] h = (tt, tt)
insert_item-IsOrdered x (y ∷ ys) h = elim (Bool-cases (comes_before y x)) [
  | inl e ↦ rw e (
    All-insert_item (λ z. comes_before z y ≡ false) x ys (comes_before_asym y x e) h.0,
    insert_item-IsOrdered x ys h.1,
  )
  | inr e ↦ rw e ((e, All-after x y ys e h.0), h)
]

sort_items-IsOrdered : (xs : List PairingItem) → IsOrdered (sort_items xs)
unfolding sort_items
sort_items-IsOrdered [] = tt
sort_items-IsOrdered (x ∷ xs) = insert_item-IsOrdered x (sort_items xs) (sort_items-IsOrdered xs)

count-insert_item :
    (test : PairingItem → Bool) (x : PairingItem) (ys : List PairingItem)
    → count test (insert_item x ys) ≡ count test (x ∷ ys)
unfolding insert_item
count-insert_item test x [] = refl
count-insert_item test x (y ∷ ys) = elim (Bool-cases (comes_before y x)) [
  | inl e ↦ rw e (omega (arith, count-insert_item test x ys))
  | inr e ↦ rw e refl
]

count-sort_items :
    (test : PairingItem → Bool) (xs : List PairingItem) → count test (sort_items xs) ≡ count test xs
unfolding sort_items
count-sort_items test [] = refl
count-sort_items test (x ∷ xs) =
    omega (arith, count-insert_item test x (sort_items xs), count-sort_items test xs)

count-retain :
    (test keep : PairingItem → Bool) (xs : List PairingItem)
    → count test (retain keep xs) ≡ count (λ x. keep x && test x) xs
count-retain test keep [] = refl
count-retain test keep (x ∷ xs) = ground (arith, count-retain test keep xs)

-- The first expires no earlier than the second, and of two that expire together its id is no greater.
abbrev pub Precedes : PairingItem → PairingItem → Type 0
Precedes x y =
    (y.expires_at ≤ℤ x.expires_at)
    × (y.expires_at ≡ x.expires_at → text_lt y.pairing_id x.pairing_id ≡ false)

-- Each item precedes all that are after it.
abbrev pub IsSorted : List PairingItem → Type 0
IsSorted [] = Unit
IsSorted (x ∷ xs) = All (Precedes x) xs × IsSorted xs

ordered-Precedes : (x y : PairingItem) → comes_before y x ≡ false → Precedes x y
unfolding comes_before
ordered-Precedes x y h = (ground arith, λ e. ground arith)

All-Precedes :
    (x : PairingItem) (ys : List PairingItem)
    → All (λ y. comes_before y x ≡ false) ys
    → All (Precedes x) ys
All-Precedes x [] h = tt
All-Precedes x (y ∷ ys) h = (ordered-Precedes x y h.0, All-Precedes x ys h.1)

ordered-IsSorted : (xs : List PairingItem) → IsOrdered xs → IsSorted xs
ordered-IsSorted [] h = tt
ordered-IsSorted (x ∷ xs) h = (All-Precedes x xs h.0, ordered-IsSorted xs h.1)

-- The shown items are those that are not archived, each as often as it was, and they are in order:
-- the later expiry comes first, and of two items that expire together the one of the smaller id.
pub visible_items_lem :
    (items : List PairingItem) (test : PairingItem → Bool)
    → IsSorted (visible_items items)
      × (count test (visible_items items)
          ≡ count (λ item. not (invite_eq item.state InviteState.archived) && test item) items)
unfolding visible_items
visible_items_lem items test =
    let shown =
      retain (λ (item : PairingItem). not (invite_eq item.state InviteState.archived)) items in
    (
      ordered-IsSorted _ (sort_items-IsOrdered shown),
      count-sort_items test shown ∙ count-retain test _ items,
    )
