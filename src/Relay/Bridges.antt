-- ===== src/Relay/Bridges.antt =====
-- The pairing frames of `process_frame` in services/torchat-relay/src/main.rs, with
-- `authorize`, `authorize_either` and `finish_pairing`.
use t_orca.Base.{
  ℕ, ◌+◌, Bool, true, false, not, ◌&&◌, ◌||◌, Option, none, some, List, ◌==◌, length, ltb, leb,
  is_some, is_some_and, if◌then◌else◌, Text, codes,
}
use t_orca.Base.Map.{lookup, insert, remove, modify}
use t_orca.Relay.Frames.{
  ServerFrame, pairing_requested, pairing_started, pairing_accepted, max_pairing_blob_bytes,
}
use t_orca.Relay.State.{
  Slot, Bridge, RelayState, Draws, send, reject, less_slot, less_pairing, more_pairing, bridge_ttl,
  max_pairings_per_connection,
}

module _ (hash : Text → ℕ) where
  -- The rest of `BeginPairing` once its checks have passed.
  unfoldable pub open_bridge :
      Draws
      → ℕ
      → (request_id pairing_id slot_hash joiner_rendezvous_public_key : ℕ) → List ℕ
      → Slot
      → RelayState
      → RelayState
  unfolding less_slot more_pairing send
  open_bridge draws id request_id pairing_id slot_hash joiner_key encrypted_offer slot st =
      let owner_token = draws.tokens 0 in
      let joiner_token = draws.tokens 1 in
      let bridge : Bridge = record {
        owner = slot.owner;
        joiner = id;
        owner_token_hash = hash owner_token;
        joiner_token_hash = hash joiner_token;
        slot_hash = slot_hash;
        expires_at = draws.clock 1 + bridge_ttl;
      } in
      let connections =
        modify slot.owner more_pairing
          (modify id more_pairing (modify slot.owner less_slot st.connections)) in
      send id (pairing_started request_id pairing_id joiner_token (draws.clock 3 + bridge_ttl)) (
        send slot.owner
          (pairing_requested pairing_id slot.handle owner_token joiner_key encrypted_offer
            (draws.clock 2 + bridge_ttl))
          (record st {
            slots = remove slot_hash st.slots;
            bridges = insert pairing_id bridge st.bridges;
            connections = connections;
          }))

  -- The check of the two peers' capacity in `BeginPairing`, and what follows it; `none` where the
  -- connection of `id` or of the slot's owner is missing.
  unfoldable pub admit_pair :
      Draws
      → ℕ
      → (request_id pairing_id slot_hash joiner_key : ℕ) → List ℕ
      → Slot
      → RelayState
      → Option RelayState
  unfolding open_bridge reject
  admit_pair draws id request_id pairing_id slot_hash joiner_key encrypted_offer slot st =
      let full = some (reject id (some request_id) (codes "capacity") st) in
      elim (lookup id st.connections) [
        | none ↦ none
        | some joiner ↦
            if leb max_pairings_per_connection joiner.pairings
            then full
            else elim (lookup slot.owner st.connections) [
              | none ↦ none
              | some owner ↦
                  if leb max_pairings_per_connection owner.pairings
                  then full
                  else some (
                      open_bridge draws id request_id pairing_id slot_hash joiner_key
                        encrypted_offer slot st)
            ]
      ]

  -- `BeginPairing`.
  unfoldable pub begin_pairing :
      Draws → ℕ → (request_id pairing_id : ℕ) → Text → ℕ → List ℕ → RelayState → Option RelayState
  unfolding admit_pair reject
  begin_pairing draws id request_id pairing_id slot_handle joiner_key encrypted_offer st =
      if ltb max_pairing_blob_bytes (length encrypted_offer)
      then some (reject id (some request_id) (codes "blob_too_large") st)
      else elim (lookup (hash slot_handle) st.slots) [
        | none ↦ some (reject id (some request_id) (codes "invalid_slot") st)
        | some slot ↦
            if leb slot.expires_at (draws.clock 0) || slot.owner == id
            then some (reject id (some request_id) (codes "invalid_slot") st)
            else if is_some (lookup pairing_id st.bridges)
            then some (reject id (some request_id) (codes "duplicate_pairing") st)
            else admit_pair draws id request_id pairing_id (hash slot_handle) joiner_key
                encrypted_offer slot st
      ]

  unfoldable pub authorize : Option Bridge → ℕ → Text → Bool → Bool
  authorize bridge id token owner =
      is_some_and
        (λ (b : Bridge).
          (owner && b.owner == id && b.owner_token_hash == hash token)
          || (not owner && b.joiner == id && b.joiner_token_hash == hash token))
        bridge

  unfoldable pub authorize_either : Option Bridge → ℕ → Text → Bool
  unfolding authorize
  authorize_either bridge id token =
      authorize bridge id token true || authorize bridge id token false

  -- `AcceptPairing`.
  unfoldable pub accept_pairing : ℕ → (pairing_id : ℕ) → Text → List ℕ → RelayState → RelayState
  unfolding send
  accept_pairing id pairing_id side_token encrypted_response st =
      elim (lookup pairing_id st.bridges) [
        | none ↦ st
        | some bridge ↦
            if bridge.owner == id
              && bridge.owner_token_hash == hash side_token
              && leb (length encrypted_response) max_pairing_blob_bytes
            then send bridge.joiner (pairing_accepted pairing_id encrypted_response) st
            else st
      ]

-- The slot that `finish_pairing` drops, if it is still there.
unfoldable pub drop_slot : ℕ → RelayState → RelayState
unfolding less_slot
drop_slot slot_hash st = elim (lookup slot_hash st.slots) [
  | none ↦ st
  | some slot ↦ record st {
    slots = remove slot_hash st.slots;
    connections = modify slot.owner less_slot st.connections;
  }
]

unfoldable pub finish_pairing : ℕ → ServerFrame → RelayState → RelayState
unfolding less_pairing send drop_slot
finish_pairing pairing_id frame st = elim (lookup pairing_id st.bridges) [
  | none ↦ st
  | some b ↦ drop_slot b.slot_hash (
      send b.joiner frame (
        send b.owner frame (record st {
          bridges = remove pairing_id st.bridges;
          connections = modify b.joiner less_pairing (modify b.owner less_pairing st.connections);
        })))
]
