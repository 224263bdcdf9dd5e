-- ===== src/Relay/Accounts.antt =====
-- The bookkeeping of the relay: what a connection's two counters should say, and how the changes
-- of the maps move both sides.
use mathlib.Core.Option
use t_orca.Base.{
  ℕ, ◌+◌, ◌-◌, ◌≤◌, ◌≡◌, refl, Option, none, some, List, [], ◌∷◌, ◌==◌, length, if◌then◌else◌,
  arith, ◌∙◌,
}
use t_orca.Base.Map.{Map, lookup, modify, values, Unique, total, lookup-modify, length-modify}
use t_orca.Relay.State.{
  Connection, Slot, Bridge, RelayState, release_peers, less_pairing, max_connections, max_slots,
  max_slots_per_connection, max_pairings_per_connection, max_code_attempts,
}

-- How often a slot or a bridge counts for a connection.
abbrev pub slot_weight : ℕ → Slot → ℕ
slot_weight id slot = if slot.owner == id then 1 else 0

abbrev pub peer_weight : ℕ → Bridge → ℕ
peer_weight id b = (if b.owner == id then 1 else 0) + (if b.joiner == id then 1 else 0)

-- What holds of an id and its connection: the pairing counter is the number of its bridges, the
-- slot counter is at least the number of its slots, both are within their limits, and an id with
-- no connection has neither slots nor bridges.
abbrev pub Accounts : Map Slot → Map Bridge → ℕ → Option Connection → Type 0
Accounts slots bridges id none =
    (total (slot_weight id) slots ≡ 0) × (total (peer_weight id) bridges ≡ 0)
Accounts slots bridges id (some c) =
    (c.pairings ≡ total (peer_weight id) bridges)
    × (total (slot_weight id) slots ≤ c.slots)
    × (c.slots ≤ max_slots_per_connection)
    × (c.pairings ≤ max_pairings_per_connection)
    × (length c.attempts ≤ max_code_attempts)

pub record IsConsistent (connections : Map Connection) (slots : Map Slot) (bridges : Map Bridge)
    : Type 0 where
  pub slots_unique : Unique slots
  pub bridges_unique : Unique bridges
  pub connections_bound : length connections ≤ max_connections
  pub slots_bound : length slots ≤ max_slots
  pub accounts : (id : ℕ) → Accounts slots bridges id (lookup id connections)

abbrev pub Inv : RelayState → Type 0
Inv st = IsConsistent st.connections st.slots st.bridges

-- How often a list of bridges counts for a connection.
abbrev pub occurrences : ℕ → List Bridge → ℕ
occurrences id [] = 0
occurrences id (b ∷ bs) = peer_weight id b + occurrences id bs

pub occurrences-values :
    (id : ℕ) (m : Map Bridge) → occurrences id (values m) ≡ total (peer_weight id) m
unfolding total
occurrences-values id [] = refl
occurrences-values id ((k, b) ∷ m) = omega (arith, occurrences-values id m)

abbrev pub fewer_pairings : ℕ → Connection → Connection
fewer_pairings n c = record c { pairings = c.pairings - n }

pub lookup-release_peers :
    (id : ℕ) (bs : List Bridge) (m : Map Connection)
    → lookup id (release_peers bs m) ≡ Option.map (fewer_pairings (occurrences id bs)) (lookup id m)
unfolding release_peers less_pairing
lookup-release_peers id [] m = ground arith
lookup-release_peers id (b ∷ bs) m = ground (
  arith,
  lookup-release_peers id bs (modify b.joiner less_pairing (modify b.owner less_pairing m)),
  lookup-modify b.joiner id less_pairing (modify b.owner less_pairing m),
  lookup-modify b.owner id less_pairing m,
)

pub length-release_peers :
    (bs : List Bridge) (m : Map Connection) → length (release_peers bs m) ≡ length m
unfolding release_peers
length-release_peers [] m = refl
length-release_peers (b ∷ bs) m =
    length-release_peers bs (modify b.joiner less_pairing (modify b.owner less_pairing m))
    ∙ length-modify b.joiner less_pairing (modify b.owner less_pairing m)
    ∙ length-modify b.owner less_pairing m
