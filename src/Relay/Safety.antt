-- ===== src/Relay/Safety.antt =====
-- No frame of a client makes the actor of the relay panic, and each keeps the bookkeeping.
use t_orca.Base.{
  ℕ, ◌≡◌, Bool, true, false, not, Option, none, some, List, [], ◌∷◌, ◌==◌, any, find, length,
  is_some, if◌then◌else◌, arith, Text, codes, ltb, leb, ◌≢◌, ◌||◌, Option-cases, inl, inr,
  Bool-cases,
}
use t_orca.Base.Map.{Map, lookup, modify, values, lookup-modify, lookup-total-le}
use t_orca.Relay.Frames.{ClientFrame, max_pairing_blob_bytes}
use t_orca.Relay.State.{
  Connection, Slot, RelayState, Draws, reject, max_code_attempts, max_slots,
  max_slots_per_connection, max_pairings_per_connection,
}
use t_orca.Relay.Code.{generate_code, normalize_pairing_code}
use t_orca.Relay.Slots.{
  code_taken, draw_code, create_pairing_slot, resolve_pairing_code, answer_code, clamp_ttl,
  resolves, recent_attempts,
}
use t_orca.Relay.Bridges.{begin_pairing, admit_pair, accept_pairing}
use t_orca.Relay.Actor.{dispatch, process_frame}
use t_orca.Relay.Accounts.{slot_weight, Inv}
use t_orca.Relay.Handlers.{
  send-Inv, reject-Inv, recent_attempts-Inv, add_attempt-Inv, finish_pairing-Inv,
  cancel_pairing_slot-Inv, open_slot-Inv, open_bridge-Inv,
}

-- The event is handled, and the bookkeeping holds after it.
abbrev pub Runs : Option RelayState → Type 0
Runs none = ⊥
Runs (some st) = Inv st

-- The owner of a slot is connected.
pub owner_connected :
    (st : RelayState) (key : ℕ) (slot : Slot)
    → Inv st
    → lookup key st.slots ≡ some slot
    → lookup slot.owner st.connections ≢ none
owner_connected st key slot v e missing =
    ground
      (arith, v.accounts slot.owner, lookup-total-le (slot_weight slot.owner) key st.slots slot e)

module _ (hash : Text → ℕ) where
  -- One of the drawn codes is free, so that the loop of `CreatePairingSlot` ends.
  abbrev pub HasFreeCode : Map Slot → List (List ℕ) → Type 0
  HasFreeCode slots draws =
      any (λ digits. not (code_taken hash slots (generate_code digits))) draws ≡ true

  -- The loop ends at the first free code.
  pub draw_code_free :
      (slots : Map Slot) (draws : List (List ℕ))
      → HasFreeCode slots draws
      → (code : Text) × (draw_code hash slots draws ≡ some code)
        × (code_taken hash slots code ≡ false)
  unfolding draw_code
  draw_code_free slots [] h = cc
  draw_code_free slots (d ∷ ds) h = elim (Bool-cases (code_taken hash slots (generate_code d))) [
    | inl taken ↦
        let (code, e, free) = draw_code_free slots ds (rw taken at h) in (code, rw taken e, free)
    | inr free ↦ (generate_code d, rw free, free)
  ]

  create_pairing_slot-Runs :
      (draws : Draws) (id request_id key ttl : ℕ) (st : RelayState) (c : Connection)
      → lookup id st.connections ≡ some c
      → HasFreeCode st.slots draws.code_digits
      → Inv st
      → Runs (create_pairing_slot hash draws id request_id key ttl st)
  unfolding create_pairing_slot
  create_pairing_slot-Runs draws id request_id key ttl st c e free v =
      let (code, drawn, _) = draw_code_free st.slots draws.code_digits free in
      elim (Bool-cases (leb max_slots_per_connection c.slots || leb max_slots (length st.slots))) [
        | inl full ↦ rw (e, create_pairing_slot) (rw full (reject-Inv id _ _ st v))
        | inr room ↦
            rw (e, create_pairing_slot)
              (rw room (
                rw (drawn, create_pairing_slot)
                  (open_slot-Inv hash draws id request_id key (clamp_ttl ttl) code st c e
                    (ground arith) (ground arith) v)))
      ]

  answer_code-Inv :
      (order : List Slot → List Slot) (id now request_id : ℕ) (display_code : Text)
      (st : RelayState)
      → Inv st
      → Inv (answer_code hash order id now request_id display_code st)
  unfolding answer_code
  answer_code-Inv order id now request_id display_code st v =
      elim (Option-cases (normalize_pairing_code display_code)) [
        | inl e ↦ rw (e, answer_code) (reject-Inv id _ _ st v)
        | inr (code, e) ↦
            elim (Option-cases (find (resolves hash code now) (order (values st.slots)))) [
              | inl e' ↦ rw (e, answer_code) (rw (e', answer_code) (reject-Inv id _ _ st v))
              | inr (slot, e') ↦ rw (e, answer_code) (rw (e', answer_code) (send-Inv id _ st v))
            ]
      ]

  resolve_pairing_code-Runs :
      (draws : Draws) (id request_id : ℕ) (display_code : Text) (st : RelayState) (c : Connection)
      → lookup id st.connections ≡ some c
      → Inv st
      → Runs (resolve_pairing_code hash draws id request_id display_code st)
  unfolding resolve_pairing_code
  resolve_pairing_code-Runs draws id request_id display_code st c e v =
      let now = draws.clock 0 in
      let v' = recent_attempts-Inv id now st v in
      elim (Bool-cases (leb max_code_attempts (length (recent_attempts now c).attempts))) [
        | inl limited ↦ rw (e, resolve_pairing_code) (rw limited (reject-Inv id _ _ _ v'))
        | inr few ↦
            rw (e, resolve_pairing_code)
              (rw few (
                answer_code-Inv draws.slot_order id now request_id display_code _ (
                  add_attempt-Inv id now
                    (record st { connections = modify id (recent_attempts now) st.connections })
                    (λ c' e'.
                      ground (arith, lookup-modify id id (recent_attempts now) st.connections))
                    v')))
      ]

  admit_pair-Runs :
      (draws : Draws) (id request_id pairing_id key joiner_key : ℕ) (offer : List ℕ) (slot : Slot)
      (st : RelayState) (c : Connection)
      → lookup key st.slots ≡ some slot
      → slot.owner ≢ id
      → lookup pairing_id st.bridges ≡ none
      → lookup id st.connections ≡ some c
      → Inv st
      → Runs (admit_pair hash draws id request_id pairing_id key joiner_key offer slot st)
  unfolding admit_pair
  admit_pair-Runs draws id request_id pairing_id key joiner_key offer slot st c es other fresh e v =
      elim (Option-cases (lookup slot.owner st.connections)) [
        | inl missing ↦ absurd (owner_connected st key slot v es missing)
        | inr (o, eo) ↦ elim (Bool-cases (leb max_pairings_per_connection c.pairings)) [
          | inl full ↦ rw (e, admit_pair) (rw full (reject-Inv id _ _ st v))
          | inr room ↦ elim (Bool-cases (leb max_pairings_per_connection o.pairings)) [
            | inl full ↦
                rw (e, admit_pair)
                  (rw room (rw (eo, admit_pair) (rw full (reject-Inv id _ _ st v))))
            | inr room_o ↦
                rw (e, admit_pair)
                  (rw room (
                    rw (eo, admit_pair)
                      (rw room_o (
                        open_bridge-Inv hash draws id request_id pairing_id key joiner_key offer
                          slot st c o es other fresh e eo (ground arith) (ground arith) v))))
          ]
        ]
      ]

  begin_pairing-Runs :
      (draws : Draws) (id request_id pairing_id : ℕ) (handle : Text) (key : ℕ) (offer : List ℕ)
      (st : RelayState) (c : Connection)
      → lookup id st.connections ≡ some c
      → Inv st
      → Runs (begin_pairing hash draws id request_id pairing_id handle key offer st)
  unfolding begin_pairing
  begin_pairing-Runs draws id request_id pairing_id handle key offer st c e v =
      elim (Bool-cases (ltb max_pairing_blob_bytes (length offer))) [
        | inl large ↦ rw large (reject-Inv id _ _ st v)
        | inr small ↦ rw small (elim (Option-cases (lookup (hash handle) st.slots)) [
          | inl es ↦ rw (es, begin_pairing) (reject-Inv id _ _ st v)
          | inr (slot, es) ↦ rw (es, begin_pairing) (with_slot slot es)
        ])
      ]
    where
      with_slot :
          (slot : Slot)
          → lookup (hash handle) st.slots ≡ some slot
          → Runs (
              if leb slot.expires_at (draws.clock 0) || slot.owner == id
              then some (reject id (some request_id) (codes "invalid_slot") st)
              else if is_some (lookup pairing_id st.bridges)
              then some (reject id (some request_id) (codes "duplicate_pairing") st)
              else admit_pair hash draws id request_id pairing_id (hash handle) key offer slot st)
      with_slot slot es =
          elim (Bool-cases (leb slot.expires_at (draws.clock 0) || slot.owner == id)) [
            | inl dead ↦ rw dead (reject-Inv id _ _ st v)
            | inr live ↦ rw live (elim (Bool-cases (is_some (lookup pairing_id st.bridges))) [
              | inl taken ↦ rw taken (reject-Inv id _ _ st v)
              | inr fresh ↦ rw fresh (
                  admit_pair-Runs draws id request_id pairing_id (hash handle) key offer slot st c
                    es (ground arith) (ground arith) e v)
            ])
          ]

  if-Inv : (b : Bool) (st st' : RelayState) → Inv st → Inv st' → Inv (if b then st else st')
  if-Inv true st st' v v' = v
  if-Inv false st st' v v' = v'

  accept_pairing-Inv :
      (id pairing_id : ℕ) (token : Text) (response : List ℕ) (st : RelayState)
      → Inv st
      → Inv (accept_pairing hash id pairing_id token response st)
  unfolding accept_pairing
  accept_pairing-Inv id pairing_id token response st v =
      elim (Option-cases (lookup pairing_id st.bridges)) [
        | inl e ↦ rw (e, accept_pairing) v
        | inr (b, e) ↦ rw (e, accept_pairing) (if-Inv _ _ _ (send-Inv b.joiner _ st v) v)
      ]

  dispatch-Runs :
      (draws : Draws) (id : ℕ) (f : ClientFrame) (st : RelayState) (c : Connection)
      → lookup id st.connections ≡ some c
      → HasFreeCode st.slots draws.code_digits
      → Inv st
      → Runs (dispatch hash draws id f st)
  unfolding dispatch
  dispatch-Runs draws id ClientFrame.ping st c e free v = send-Inv id _ st v
  dispatch-Runs draws id (ClientFrame.create_pairing_slot r k t) st c e free v =
      create_pairing_slot-Runs draws id r k t st c e free v
  dispatch-Runs draws id (ClientFrame.resolve_pairing_code r d) st c e free v =
      resolve_pairing_code-Runs draws id r d st c e v
  dispatch-Runs draws id (ClientFrame.begin_pairing r p h k o) st c e free v =
      begin_pairing-Runs draws id r p h k o st c e v
  dispatch-Runs draws id (ClientFrame.accept_pairing p t r) st c e free v =
      accept_pairing-Inv id p t r st v
  dispatch-Runs draws id (ClientFrame.reject_pairing p t) st c e free v =
      if-Inv _ _ _ (finish_pairing-Inv p _ st v) v
  dispatch-Runs draws id (ClientFrame.pairing_committed p t) st c e free v =
      if-Inv _ _ _ (finish_pairing-Inv p _ st v) v
  dispatch-Runs draws id (ClientFrame.pairing_finalized p t) st c e free v =
      if-Inv _ _ _ (finish_pairing-Inv p _ st v) v
  dispatch-Runs draws id (ClientFrame.cancel_pairing p t) st c e free v =
      if-Inv _ _ _ (finish_pairing-Inv p _ st v) v
  dispatch-Runs draws id (ClientFrame.cancel_pairing_slot h cap) st c e free v =
      cancel_pairing_slot-Inv hash id h cap st v

  pub process_frame-Runs :
      (draws : Draws) (id : ℕ) (f : ClientFrame) (st : RelayState)
      → HasFreeCode st.slots draws.code_digits
      → Inv st
      → Runs (process_frame hash draws id f st)
  unfolding process_frame
  process_frame-Runs draws id f st free v = elim (Option-cases (lookup id st.connections)) [
    | inl e ↦ rw (e, process_frame) v
    | inr (c, e) ↦ rw (e, process_frame) (dispatch-Runs draws id f st c e free v)
  ]
