-- ===== src/Relay/Handlers.antt =====
-- Each frame of a client keeps the bookkeeping of the relay consistent.
use t_orca.Base.{
  ℕ, ◌+◌, ◌<◌, ◌≤◌, ◌≡◌, refl, Option, none, some, List, [], ◌∷◌, ◌==◌, length, ltb, length-append,
  length-retain-le, is_some, arith, Text, ◌≢◌, ◌&&◌, Option-cases, inl, inr, Bool-cases,
}
use t_orca.Base.Map.{
  lookup, remove, modify, lookup-modify, length-modify, length-remove-le, length-insert-le,
  remove-Unique, insert-Unique, total-remove, total-remove-le, total-insert, remove_absent,
}
use t_orca.Relay.State.{
  Connection, Slot, Bridge, RelayState, Draws, less_pairing, more_pairing, less_slot, more_slot,
  send, reject, max_slots, max_slots_per_connection, max_pairings_per_connection, max_code_attempts,
  bridge_ttl,
}
use t_orca.Relay.Frames.{ServerFrame}
use t_orca.Relay.Bridges.{finish_pairing, drop_slot, open_bridge}
use t_orca.Relay.Slots.{open_slot, cancel_pairing_slot, recent_attempts, add_attempt}
use t_orca.Relay.Accounts.{slot_weight, peer_weight, Accounts, Inv}

-- A frame to a client changes neither map.
pub send-Inv : (id : ℕ) (f : ServerFrame) (st : RelayState) → Inv st → Inv (send id f st)
unfolding send
send-Inv id f st v = elim (Bool-cases (is_some (lookup id st.connections))) [
  | inl e ↦ rw e v
  | inr e ↦ rw e v
]

pub reject-Inv :
    (id : ℕ) (request_id : Option ℕ) (code : Text) (st : RelayState)
    → Inv st
    → Inv (reject id request_id code st)
unfolding reject
reject-Inv id request_id code st v = send-Inv id _ _ v

-- A change of the attempts of a connection that keeps them few.
attempts-Inv :
    (id : ℕ) (f : Connection → Connection) (st : RelayState)
    → ((c : Connection) → (f c).slots ≡ c.slots)
    → ((c : Connection) → (f c).pairings ≡ c.pairings)
    → ((c : Connection)
        → lookup id st.connections ≡ some c
        → length c.attempts ≤ max_code_attempts
        → length (f c).attempts ≤ max_code_attempts)
    → Inv st
    → Inv (record st { connections = modify id f st.connections })
attempts-Inv id f st same_slots same_pairings few v = record {
  slots_unique = v.slots_unique;
  bridges_unique = v.bridges_unique;
  connections_bound = omega (arith, length-modify id f st.connections, v.connections_bound);
  slots_bound = v.slots_bound;
  accounts = λ j. by_id j (lookup j st.connections) refl (v.accounts j);
}
  where
    by_id :
        (j : ℕ) (o : Option Connection)
        → lookup j st.connections ≡ o
        → Accounts st.slots st.bridges j o
        → Accounts st.slots st.bridges j (lookup j (modify id f st.connections))
    by_id j none e a = ground (arith, lookup-modify id j f st.connections)
    by_id j (some c) e (pairings, slots, few_slots, few_pairings, few_attempts) =
        elim (Bool-cases (id == j)) [
          | inr other ↦ ground (arith, lookup-modify id j f st.connections)
          | inl same ↦
              let here : lookup id st.connections ≡ some c = ground arith in
              ground (
                arith,
                lookup-modify id j f st.connections,
                same_slots c,
                same_pairings c,
                few c here few_attempts,
              )
        ]

pub recent_attempts-Inv :
    (id now : ℕ) (st : RelayState)
    → Inv st
    → Inv (record st { connections = modify id (recent_attempts now) st.connections })
unfolding recent_attempts
recent_attempts-Inv id now st v =
    attempts-Inv id (recent_attempts now) st (λ c. refl) (λ c. refl)
      (λ c e few. omega (arith, length-retain-le (λ t. ltb now (t + 60)) c.attempts)) v

pub add_attempt-Inv :
    (id now : ℕ) (st : RelayState)
    → ((c : Connection) → lookup id st.connections ≡ some c → length c.attempts < max_code_attempts)
    → Inv st
    → Inv (record st { connections = modify id (add_attempt now) st.connections })
unfolding add_attempt
add_attempt-Inv id now st room v =
    attempts-Inv id (add_attempt now) st (λ c. refl) (λ c. refl)
      (λ c e few. omega (arith, length-append c.attempts (now ∷ []), room c e)) v

-- A slot that leaves the map leaves its owner's counter.
remove_slot-Inv :
    (id key : ℕ) (slot : Slot) (st : RelayState)
    → lookup key st.slots ≡ some slot
    → slot.owner ≡ id
    → Inv st
    → Inv (record st {
      slots = remove key st.slots;
      connections = modify id less_slot st.connections;
    })
remove_slot-Inv id key slot st e owner v = record {
  slots_unique = remove-Unique key st.slots v.slots_unique;
  bridges_unique = v.bridges_unique;
  connections_bound = omega (arith, length-modify id less_slot st.connections, v.connections_bound);
  slots_bound = omega (arith, length-remove-le key st.slots, v.slots_bound);
  accounts = λ j.
      unfold less_slot in
      ground (
        arith,
        v.accounts j,
        lookup-modify id j less_slot st.connections,
        total-remove (slot_weight j) key st.slots slot v.slots_unique e,
      );
}

drop_slot-Inv : (key : ℕ) (st : RelayState) → Inv st → Inv (drop_slot key st)
unfolding drop_slot
drop_slot-Inv key st v = elim (Option-cases (lookup key st.slots)) [
  | inl e ↦ rw (e, drop_slot) v
  | inr (slot, e) ↦ rw (e, drop_slot) (remove_slot-Inv slot.owner key slot st e refl v)
]

pub finish_pairing-Inv :
    (pairing_id : ℕ) (f : ServerFrame) (st : RelayState)
    → Inv st
    → Inv (finish_pairing pairing_id f st)
unfolding finish_pairing
finish_pairing-Inv pairing_id f st v = elim (Option-cases (lookup pairing_id st.bridges)) [
  | inl e ↦ rw (e, finish_pairing) v
  | inr (b, e) ↦
      rw (e, finish_pairing)
        (drop_slot-Inv b.slot_hash _ (
          send-Inv b.joiner f _ (
            send-Inv b.owner f _ (record {
              slots_unique = v.slots_unique;
              bridges_unique = remove-Unique pairing_id st.bridges v.bridges_unique;
              connections_bound = omega (
                arith,
                length-modify b.joiner less_pairing (modify b.owner less_pairing st.connections),
                length-modify b.owner less_pairing st.connections,
                v.connections_bound,
              );
              slots_bound = v.slots_bound;
              accounts = λ j.
                  unfold less_pairing in
                  ground (
                    arith,
                    v.accounts j,
                    lookup-modify b.joiner j less_pairing
                        (modify b.owner less_pairing st.connections),
                    lookup-modify b.owner j less_pairing st.connections,
                    total-remove (peer_weight j) pairing_id st.bridges b v.bridges_unique e,
                  );
            }))))
]

module _ (hash : Text → ℕ) where
  pub cancel_pairing_slot-Inv :
      (id : ℕ) (handle capability : Text) (st : RelayState)
      → Inv st
      → Inv (cancel_pairing_slot hash id handle capability st)
  unfolding cancel_pairing_slot
  cancel_pairing_slot-Inv id handle capability st v =
      elim (Option-cases (lookup (hash handle) st.slots)) [
        | inl e ↦ rw (e, cancel_pairing_slot) v
        | inr (slot, e) ↦
            elim (Bool-cases (slot.owner == id && slot.capability_hash == hash capability)) [
              | inl allowed ↦
                  rw (e, cancel_pairing_slot)
                    (rw allowed (remove_slot-Inv id (hash handle) slot st e (ground arith) v))
              | inr refused ↦ rw (e, cancel_pairing_slot) (rw refused v)
            ]
      ]

  -- The new slot counts for its owner, who has room for it.
  pub open_slot-Inv :
      (draws : Draws) (id request_id key ttl : ℕ) (code : Text) (st : RelayState) (c : Connection)
      → lookup id st.connections ≡ some c
      → c.slots < max_slots_per_connection
      → length st.slots < max_slots
      → Inv st
      → Inv (open_slot hash draws id request_id key ttl code st)
  unfolding open_slot
  open_slot-Inv draws id request_id key ttl code st c e room space v =
      let slot : Slot = record {
        owner = id;
        handle = draws.tokens 0;
        capability_hash = hash (draws.tokens 1);
        code_hash = hash code;
        rendezvous_public_key = key;
        expires_at = draws.clock 0 + ttl;
      } in
      let at = hash (draws.tokens 0) in
      send-Inv id _ _ (record {
        slots_unique = insert-Unique at slot st.slots v.slots_unique;
        bridges_unique = v.bridges_unique;
        connections_bound =
            omega (arith, length-modify id more_slot st.connections, v.connections_bound);
        slots_bound = omega (arith, length-insert-le at slot st.slots);
        accounts = λ j.
            unfold more_slot in
            ground (
              arith,
              v.accounts j,
              lookup-modify id j more_slot st.connections,
              total-insert (slot_weight j) at slot st.slots,
              total-remove-le (slot_weight j) at st.slots,
            );
      })

  -- The new bridge counts for its two peers, who are connected and have room for it.
  pub open_bridge-Inv :
      (draws : Draws) (id request_id pairing_id key joiner_key : ℕ) (offer : List ℕ) (slot : Slot)
      (st : RelayState) (joiner owner : Connection)
      → lookup key st.slots ≡ some slot
      → slot.owner ≢ id
      → lookup pairing_id st.bridges ≡ none
      → lookup id st.connections ≡ some joiner
      → lookup slot.owner st.connections ≡ some owner
      → joiner.pairings < max_pairings_per_connection
      → owner.pairings < max_pairings_per_connection
      → Inv st
      → Inv (open_bridge hash draws id request_id pairing_id key joiner_key offer slot st)
  unfolding open_bridge
  open_bridge-Inv draws id request_id pairing_id key joiner_key offer slot st joiner owner at_key
        other fresh ej eo room_j room_o v =
      let bridge : Bridge = record {
        owner = slot.owner;
        joiner = id;
        owner_token_hash = hash (draws.tokens 0);
        joiner_token_hash = hash (draws.tokens 1);
        slot_hash = key;
        expires_at = draws.clock 1 + bridge_ttl;
      } in
      let m1 = modify slot.owner less_slot st.connections in
      let m2 = modify id more_pairing m1 in
      send-Inv id _ _ (
        send-Inv slot.owner _ _ (record {
          slots_unique = remove-Unique key st.slots v.slots_unique;
          bridges_unique = insert-Unique pairing_id bridge st.bridges v.bridges_unique;
          connections_bound = omega (
            arith,
            length-modify slot.owner more_pairing m2,
            length-modify id more_pairing m1,
            length-modify slot.owner less_slot st.connections,
            v.connections_bound,
          );
          slots_bound = omega (arith, length-remove-le key st.slots, v.slots_bound);
          accounts = λ j.
              unfold less_slot more_pairing in
              ground (
                arith,
                v.accounts j,
                lookup-modify slot.owner j more_pairing m2,
                lookup-modify id j more_pairing m1,
                lookup-modify slot.owner j less_slot st.connections,
                total-remove (slot_weight j) key st.slots slot v.slots_unique at_key,
                total-insert (peer_weight j) pairing_id bridge st.bridges,
                remove_absent pairing_id st.bridges fresh,
              );
        }))
