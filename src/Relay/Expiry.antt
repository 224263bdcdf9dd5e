-- ===== src/Relay/Expiry.antt =====
-- What `expire_state` of services/torchat-relay/src/main.rs leaves behind.
use mathlib.Core.Option
use t_orca.Base.{
  ℕ, ◌≤◌, ◌<◌, ◌≡◌, ◌≢◌, ◌↔◌, refl, Bool, not, some, List, [], ◌∷◌, arith, Text, codes, leb, ltb,
  All, ltb→lt, lt→ltb, le→leb, ap, ◌∙◌, Bool-cases, inl, inr,
}
use t_orca.Base.Map.{Map, lookup, lookup-retain_values, lookup-retain, retain_values, values}
use t_orca.Relay.State.{
  Connection, Slot, Bridge, RelayState, Draws, reject, max_slots_per_connection,
}
use t_orca.Relay.Slots.{create_pairing_slot}
use t_orca.Relay.Actor.{expire_state}
use t_orca.Relay.Accounts.{lookup-release_peers, fewer_pairings, occurrences, Inv}

-- The bridges that end at a time, and those of them that a connection is at.
abbrev pub ended : ℕ → RelayState → List Bridge
ended now st = values (retain_values (λ (b : Bridge). leb b.expires_at now) st.bridges)

connection-expire_state :
    (now id : ℕ) (st : RelayState)
    → lookup id (expire_state now st).connections
      ≡ Option.map (fewer_pairings (occurrences id (ended now st))) (lookup id st.connections)
unfolding expire_state
connection-expire_state now id st = lookup-release_peers id (ended now st) st.connections

-- In a relay whose bookkeeping is right, an expiry leaves exactly the slots and the bridges that are
-- still within their lifetime, each under its key; every connection stays, with its slot counter
-- and its attempts, and its pairing counter falls by the number of its bridges that ended.
pub expire_state_lem :
    (now : ℕ) (st : RelayState)
    → Inv st
    → let after = expire_state now st in
      ((key : ℕ) (slot : Slot)
        → (lookup key after.slots ≡ some slot)
          ↔ ((lookup key st.slots ≡ some slot) × (now < slot.expires_at)))
      × ((key : ℕ) (b : Bridge)
          → (lookup key after.bridges ≡ some b)
            ↔ ((lookup key st.bridges ≡ some b) × (now < b.expires_at)))
      × ((id : ℕ)
          → lookup id after.connections
            ≡ Option.map
                (fewer_pairings (occurrences id (ended now st)))
                (lookup id st.connections))
unfolding expire_state
expire_state_lem now st v =
    let live : Slot → Bool = λ slot. ltb now slot.expires_at in
    let open' : Bridge → Bool = λ b. not (leb b.expires_at now) in
    (
      λ key slot. (
        λ e.
            let (there, passes) = lookup-retain_values key live st.slots slot v.slots_unique e in
            (there, ltb→lt now slot.expires_at passes),
        λ p. lookup-retain key live st.slots slot p.0 (lt→ltb now slot.expires_at p.1),
      ),
      λ key b. (
        λ e.
            let (there, passes) = lookup-retain_values key open' st.bridges b v.bridges_unique e in
            (there, ground arith),
        λ p. lookup-retain key open' st.bridges b p.0 (ground (arith, p.1)),
      ),
      λ id. connection-expire_state now id st,
    )

create_full :
    (hash : Text → ℕ) (draws : Draws) (id request_id key ttl : ℕ) (st : RelayState) (c : Connection)
    → lookup id st.connections ≡ some c
    → max_slots_per_connection ≤ c.slots
    → create_pairing_slot hash draws id request_id key ttl st
      ≡ some (reject id (some request_id) (codes "capacity") st)
unfolding create_pairing_slot
create_full hash draws id request_id key ttl st c e full =
    rw (e, create_pairing_slot) (rw (le→leb max_slots_per_connection c.slots full) (rw e refl))

-- The expiry drops slots but no slot counter: a connection with its full number of slots, all of
-- which have run out, has none left after the expiry, and if it asks for one next, it is refused.
pub expired_slots_stay_counted :
    (now : ℕ) (draws : Draws) (id request_id key ttl : ℕ) (hash : Text → ℕ) (st : RelayState)
    (c : Connection)
    → lookup id st.connections ≡ some c
    → max_slots_per_connection ≤ c.slots
    → All (λ (slot : Slot). slot.owner ≡ id → slot.expires_at ≤ now) (values st.slots)
    → let after = expire_state now st in
      All (λ (slot : Slot). slot.owner ≢ id) (values after.slots)
      × (create_pairing_slot hash draws id request_id key ttl after
          ≡ some (reject id (some request_id) (codes "capacity") after))
unfolding expire_state retain_values
expired_slots_stay_counted now draws id request_id key ttl hash st c e full old = (
  others st.slots old,
  create_full hash draws id request_id key ttl (expire_state now st) _ counted full,
)
  where
    counted :
        lookup id (expire_state now st).connections
        ≡ some (fewer_pairings (occurrences id (ended now st)) c)
    counted =
        connection-expire_state now id st
        ∙ ap (Option.map (fewer_pairings (occurrences id (ended now st)))) e

    others :
        (m : Map Slot)
        → All (λ (slot : Slot). slot.owner ≡ id → slot.expires_at ≤ now) (values m)
        → All
            (λ (slot : Slot). slot.owner ≢ id)
            (values (retain_values (λ (slot : Slot). ltb now slot.expires_at) m))
    others [] h = tt
    others ((k, s) ∷ m) h = elim (Bool-cases (ltb now s.expires_at)) [
      | inl alive ↦
          rw alive (λ own. ground (arith, h.0 own, ltb→lt now s.expires_at alive), others m h.1)
      | inr dead ↦ rw dead (others m h.1)
    ]
