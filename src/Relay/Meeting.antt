-- ===== src/Relay/Meeting.antt =====
-- How two strangers meet at the relay of services/torchat-relay/src/main.rs: the code that one client
-- is shown leads the other to its slot, as long as it lives and the other has not guessed too often.
use t_orca.Base.{
  ℕ, ◌+◌, ◌<◌, ◌≡◌, refl, ap, ◌∙◌, Bool, true, false, not, ◌&&◌, ◌==◌, some, List, [], ◌∷◌, length,
  find, count, is_some, All, Text, text_eq, text_eq_refl, text_eq→eq, arith, ==_refl, leb,
  Bool-cases, inl, inr,
}
use t_orca.Base.Map.{Map, lookup, insert, remove, values, modify, lookup-modify}
use t_orca.Relay.Frames.{ServerFrame, pairing_slot_resolved}
use t_orca.Relay.State.{Connection, Slot, RelayState, Draws, send, max_code_attempts}
use t_orca.Relay.Code.{
  generate_code, normalize_pairing_code, format_pairing_code, pairing_code_digits,
}
use t_orca.Relay.CodeLaws.{normalize-format_pairing_code}
use t_orca.Relay.Slots.{
  open_slot, code_taken, resolves, answer_code, resolve_pairing_code, recent_attempts, add_attempt,
}

send-connections :
    (id : ℕ) (f : ServerFrame) (st : RelayState)
    → ((send id f st).connections ≡ st.connections) × ((send id f st).slots ≡ st.slots)
unfolding send
send-connections id f st = ground arith

send-sent :
    (id : ℕ) (f : ServerFrame) (st : RelayState)
    → is_some (lookup id st.connections) ≡ true
    → (send id f st).sent ≡ (id, f) ∷ st.sent
unfolding send
send-sent id f st h = rw h refl

-- An order in which the values of a hash map are met: each test holds of as many as before.
pub record IsOrder (order : List Slot → List Slot) : Type 0 where
  pub keeps : (test : Slot → Bool) (slots : List Slot) → count test (order slots) ≡ count test slots

find-count {ℓ} :
    {A : Type ℓ} (test : A → Bool) (xs : List A)
    → 0 < count test xs
    → (x : A) × (find test xs ≡ some x) × (test x ≡ true)
find-count test [] some_hit = absurd (omega arith)
find-count test (x ∷ xs) some_hit = elim (Bool-cases (test x)) [
  | inl hit ↦ (x, rw hit refl, hit)
  | inr miss ↦ let (y, found, hit) = find-count test xs (ground arith) in (y, rw miss found, hit)
]

find-avoids {ℓ} :
    {A : Type ℓ} (test other : A → Bool) (xs : List A) (x : A)
    → find test xs ≡ some x
    → count other xs ≡ 0
    → other x ≡ false
find-avoids test other [] x found none_other = cc
find-avoids test other (y ∷ ys) x found none_other = elim (Bool-cases (test y)) [
  | inl hit ↦ ground arith
  | inr miss ↦ find-avoids test other ys x (rw miss at found) (ground arith)
]

module _ (hash : Text → ℕ) where
  -- The frame that shows a slot to the client that has its code.
  abbrev shown : ℕ → Slot → ServerFrame
  shown request_id slot =
      pairing_slot_resolved request_id slot.handle slot.rendezvous_public_key slot.expires_at

  -- A slot that the code leads to, and that would be shown otherwise.
  abbrev rivals : Slot → Text → ℕ → Slot → Bool
  rivals slot code now other =
      resolves hash code now other
      && not (
          text_eq other.handle slot.handle
          && other.rendezvous_public_key == slot.rendezvous_public_key
          && other.expires_at == slot.expires_at)

  slot-rivals : (slot : Slot) (code : Text) (now : ℕ) → rivals slot code now slot ≡ false
  slot-rivals slot code now =
      ground (
        arith,
        text_eq_refl slot.handle,
        ==_refl slot.rendezvous_public_key,
        ==_refl slot.expires_at,
      )

  -- A slot with a code that was free has no rival.
  free-rivals :
      (slot : Slot) (code : Text) (now key : ℕ) (slots : Map Slot)
      → code_taken hash slots code ≡ false
      → count (rivals slot code now) (values (remove key slots)) ≡ 0
  unfolding remove
  free-rivals slot code now key [] free = refl
  free-rivals slot code now key ((k, other) ∷ slots) free =
      ground (arith, free-rivals slot code now key slots)

  -- In whatever order the slots are met, one without a rival is the one that is shown.
  answer_code-found :
      (order : List Slot → List Slot) (id now request_id : ℕ) (display code : Text) (slot : Slot)
      (st : RelayState)
      → IsOrder order
      → 0 < count (resolves hash code now) (values st.slots)
      → count (rivals slot code now) (values st.slots) ≡ 0
      → normalize_pairing_code display ≡ some code
      → answer_code hash order id now request_id display st ≡ send id (shown request_id slot) st
  unfolding answer_code
  answer_code-found order id now request_id display code slot st ordered there alone read =
      let slots = values st.slots in
      let met =
        find-count (resolves hash code now) (order slots)
          (omega (arith, ordered.keeps (resolves hash code now) slots)) in
      let (first, found, hit) = met in
      let same =
        find-avoids (resolves hash code now) (rivals slot code now) (order slots) first found
          (ordered.keeps (rivals slot code now) slots ∙ alone) in
      rw (read, answer_code)
        (rw (found, answer_code) (ap (λ f. send id f st) (same-shown first hit same)))
    where
      same-shown :
          (first : Slot)
          → resolves hash code now first ≡ true
          → rivals slot code now first ≡ false
          → shown request_id first ≡ shown request_id slot
      same-shown first hit same = ground (arith, text_eq→eq first.handle slot.handle)

  -- The slot that the arm of `CreatePairingSlot` opens.
  abbrev opened_slot : Draws → ℕ → ℕ → ℕ → Text → Slot
  opened_slot draws id key ttl code = record {
    owner = id;
    handle = draws.tokens 0;
    capability_hash = hash (draws.tokens 1);
    code_hash = hash code;
    rendezvous_public_key = key;
    expires_at = draws.clock 0 + ttl;
  }

  open_slot-slots :
      (draws : Draws) (id r key ttl : ℕ) (code : Text) (st : RelayState)
      → (open_slot hash draws id r key ttl code st).slots
        ≡ (hash (draws.tokens 0), opened_slot draws id key ttl code)
          ∷ remove (hash (draws.tokens 0)) st.slots
  unfolding open_slot insert
  open_slot-slots draws id r key ttl code st = (send-connections id _ _).1

  -- The code of a slot that was just opened, and that no other slot had, shown in two groups, leads
  -- another client to that slot while the slot lives, in whatever order the slots are met, where the
  -- client is connected and has made fewer than five attempts in the last minute: the relay offers
  -- it the slot's handle and its owner's key, and leaves the slots as they are.
  pub resolve_pairing_code-open_slot :
      (draws draws' : Draws) (id j request_id request_id' key ttl : ℕ) (digits : List ℕ)
      (st opened : RelayState) (c : Connection)
      → opened ≡ open_slot hash draws id request_id key ttl (generate_code digits) st
      → IsOrder draws'.slot_order
      → code_taken hash st.slots (generate_code digits) ≡ false
      → length digits ≡ pairing_code_digits
      → All (λ d. d < 10) digits
      → lookup j opened.connections ≡ some c
      → length (recent_attempts (draws'.clock 0) c).attempts < max_code_attempts
      → draws'.clock 0 < draws.clock 0 + ttl
      → (after : RelayState) × (resolve_pairing_code hash draws' j request_id'
            (format_pairing_code (generate_code digits))
            opened
          ≡ some after)
        × (after.sent
            ≡ (j, pairing_slot_resolved request_id' (draws.tokens 0) key (draws.clock 0 + ttl))
              ∷ opened.sent)
        × (after.slots ≡ opened.slots)
  unfolding resolve_pairing_code
  resolve_pairing_code-open_slot draws draws' id j r r' key ttl digits st opened c e ordered free n
        ds here few live =
      let now = draws'.clock 0 in
      let code = generate_code digits in
      let slot = opened_slot draws id key ttl code in
      let recent = modify j (recent_attempts now) opened.connections in
      let counted : RelayState = record opened {
        connections = modify j (add_attempt now) recent;
      } in
      let frame = shown r' slot in
      let room : leb max_code_attempts (length (recent_attempts now c).attempts) ≡ false =
        ground arith in
      let first = ap (λ (s : RelayState). s.slots) e ∙ open_slot-slots draws id r key ttl code st in
      let hit : resolves hash code now slot ≡ true = ground (arith, ==_refl (hash code)) in
      let met : 0 < count (resolves hash code now) (values counted.slots) =
        rw first (rw hit (omega arith)) in
      let alone : count (rivals slot code now) (values counted.slots) ≡ 0 = rw first (
        rw (slot-rivals slot code now)
          (omega (arith, free-rivals slot code now (hash (draws.tokens 0)) st.slots free))) in
      let there : is_some (lookup j counted.connections) ≡ true = ground (
        arith,
        lookup-modify j j (add_attempt now) recent,
        lookup-modify j j (recent_attempts now) opened.connections,
      ) in
      (
        send j frame counted,
        rw (here, resolve_pairing_code)
            (rw room (
              ap some (
                answer_code-found draws'.slot_order j now r' (format_pairing_code code) code slot
                  counted ordered met alone (normalize-format_pairing_code digits n ds)))),
        send-sent j frame counted there,
        (send-connections j frame counted).1,
      )
