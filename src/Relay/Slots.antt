-- ===== src/Relay/Slots.antt =====
-- The slot frames of `process_frame` in services/torchat-relay/src/main.rs. `hash` is SHA-256. A
-- handler returns `none` where the source panics, on an index of a missing connection.
use t_orca.Base.{
  ℕ, ◌+◌, Bool, ◌&&◌, ◌||◌, Option, none, some, List, [], ◌∷◌, ◌++◌, ◌==◌, any, find, retain,
  length, ltb, leb, min, max, is_some_and, if◌then◌else◌, Text, codes,
}
use t_orca.Base.Map.{Map, lookup, insert, remove, modify, values}
use t_orca.Relay.Frames.{pairing_slot_created, pairing_slot_resolved}
use t_orca.Relay.State.{
  Connection, Slot, RelayState, Draws, send, reject, more_slot, less_slot, slot_ttl, max_slots,
  max_slots_per_connection, max_code_attempts,
}
use t_orca.Relay.Code.{generate_code, normalize_pairing_code, format_pairing_code}

-- `u64::from(requested_ttl_seconds).clamp(10, SLOT_TTL.as_secs())`.
unfoldable pub clamp_ttl : ℕ → ℕ
clamp_ttl requested_ttl_seconds = max 10 (min requested_ttl_seconds slot_ttl)

-- `c.attempts.retain(|t| *t + 60 > now)`.
unfoldable pub recent_attempts : ℕ → Connection → Connection
recent_attempts now c = record c { attempts = retain (λ t. ltb now (t + 60)) c.attempts }

unfoldable pub add_attempt : ℕ → Connection → Connection
add_attempt now c = record c { attempts = c.attempts ++ now ∷ [] }

module _ (hash : Text → ℕ) where
  abbrev pub code_taken : Map Slot → Text → Bool
  code_taken slots code = any (λ (slot : Slot). slot.code_hash == hash code) (values slots)

  -- The `loop`: the first drawn code that no slot has. Where no draw is free the loop goes on
  -- drawing, which is `none` here.
  unfoldable pub draw_code : Map Slot → List (List ℕ) → Option Text
  unfolding generate_code
  draw_code slots [] = none
  draw_code slots (digits ∷ draws) =
      if code_taken slots (generate_code digits)
      then draw_code slots draws
      else some (generate_code digits)

  -- The rest of the arm once a code is found.
  unfoldable pub open_slot :
      Draws → ℕ → (request_id rendezvous_public_key ttl : ℕ) → Text → RelayState → RelayState
  unfolding more_slot format_pairing_code send
  open_slot draws id request_id rendezvous_public_key ttl code st =
      let handle = draws.tokens 0 in
      let capability = draws.tokens 1 in
      let slot : Slot = record {
        owner = id;
        handle = handle;
        capability_hash = hash capability;
        code_hash = hash code;
        rendezvous_public_key = rendezvous_public_key;
        expires_at = draws.clock 0 + ttl;
      } in
      send id
        (pairing_slot_created request_id handle (format_pairing_code code) capability
          (draws.clock 1 + ttl))
        (record st {
          slots = insert (hash handle) slot st.slots;
          connections = modify id more_slot st.connections;
        })

  -- `CreatePairingSlot`; `none` also where every draw is taken.
  unfoldable pub create_pairing_slot :
      Draws → ℕ → (request_id rendezvous_public_key ttl : ℕ) → RelayState → Option RelayState
  unfolding draw_code clamp_ttl open_slot reject
  create_pairing_slot draws id request_id rendezvous_public_key requested_ttl_seconds st =
      elim (lookup id st.connections) [
        | none ↦ none
        | some connection ↦
            if leb max_slots_per_connection connection.slots || leb max_slots (length st.slots)
            then some (reject id (some request_id) (codes "capacity") st)
            else elim (draw_code st.slots draws.code_digits) [
              | none ↦ none
              | some code ↦ some (
                  open_slot draws id request_id rendezvous_public_key
                    (clamp_ttl requested_ttl_seconds) code st)
            ]
      ]

  abbrev pub resolves : Text → ℕ → Slot → Bool
  resolves code now slot = slot.code_hash == hash code && ltb now slot.expires_at

  -- The lookup of the code, after the attempt is counted. `slots.values().find(…)` meets the slots in
  -- the order of the hash map.
  unfoldable pub answer_code :
      (List Slot → List Slot) → ℕ → ℕ → (request_id : ℕ) → Text → RelayState → RelayState
  unfolding normalize_pairing_code reject send
  answer_code order id now request_id display_code st = elim (normalize_pairing_code display_code) [
    | none ↦ reject id (some request_id) (codes "invalid_code") st
    | some code ↦ elim (find (resolves code now) (order (values st.slots))) [
      | none ↦ reject id (some request_id) (codes "invalid_code") st
      | some slot ↦
          send id
            (pairing_slot_resolved request_id slot.handle slot.rendezvous_public_key
              slot.expires_at)
            st
    ]
  ]

  -- `ResolvePairingCode`.
  unfoldable pub resolve_pairing_code :
      Draws → ℕ → (request_id : ℕ) → Text → RelayState → Option RelayState
  unfolding recent_attempts add_attempt answer_code reject
  resolve_pairing_code draws id request_id display_code st =
      let now = draws.clock 0 in
      elim (lookup id st.connections) [
        | none ↦ none
        | some connection ↦
            let st' = record st { connections = modify id (recent_attempts now) st.connections } in
            if leb max_code_attempts (length (recent_attempts now connection).attempts)
            then some (reject id (some request_id) (codes "rate_limited") st')
            else some (
                answer_code draws.slot_order id now request_id display_code
                  (record st' { connections = modify id (add_attempt now) st'.connections }))
      ]

  -- `CancelPairingSlot`.
  unfoldable pub cancel_pairing_slot : ℕ → Text → Text → RelayState → RelayState
  unfolding less_slot
  cancel_pairing_slot id slot_handle slot_capability st =
      let key = hash slot_handle in
      if is_some_and
        (λ (slot : Slot). slot.owner == id && slot.capability_hash == hash slot_capability)
        (lookup key st.slots)
      then record st {
        slots = remove key st.slots;
        connections = modify id less_slot st.connections;
      }
      else st
