-- ===== src/Relay/State.antt =====
-- The state of `run_actor` in services/torchat-relay/src/main.rs, and the helpers that every
-- handler uses. The maps and the metrics are one record. A connection's channel is outside: the
-- frames that `try_send` offers to it are logged, the newest first. Times are Unix seconds.
use t_orca.Base.{ℕ, ◌+◌, ◌-◌, Option, List, [], ◌∷◌, Text, length, is_some, if◌then◌else◌}
use t_orca.Base.Map.{Map, lookup, modify}
use t_orca.Relay.Frames.{ServerFrame, error}

abbrev pub slot_ttl : ℕ
slot_ttl = 120

abbrev pub bridge_ttl : ℕ
bridge_ttl = 180

abbrev pub max_connections : ℕ
max_connections = 2000

abbrev pub max_slots : ℕ
max_slots = 1000

abbrev pub max_slots_per_connection : ℕ
max_slots_per_connection = 2

abbrev pub max_pairings_per_connection : ℕ
max_pairings_per_connection = 2

abbrev pub max_code_attempts : ℕ
max_code_attempts = 5

pub record Connection : Type 0 where
  pub slots : ℕ
  pub pairings : ℕ
  pub attempts : List ℕ

pub record Slot : Type 0 where
  pub owner : ℕ
  pub handle : Text
  pub capability_hash : ℕ
  pub code_hash : ℕ
  pub rendezvous_public_key : ℕ
  pub expires_at : ℕ

pub record Bridge : Type 0 where
  pub owner : ℕ
  pub joiner : ℕ
  pub owner_token_hash : ℕ
  pub joiner_token_hash : ℕ
  pub slot_hash : ℕ
  pub expires_at : ℕ

pub record Metrics : Type 0 where
  pub active_connections : ℕ
  pub active_pairing_slots : ℕ
  pub active_pairing_bridges : ℕ
  pub rejected_frames : ℕ
  pub expired_slots : ℕ

pub record RelayState : Type 0 where
  pub connections : Map Connection
  pub slots : Map Slot
  pub bridges : Map Bridge
  pub metrics : Metrics
  pub sent : List (ℕ × ServerFrame)

-- What a handler draws from outside: the successive readings of the clock, the digits of the
-- successive `generate_code` calls, the successive random tokens, and the order in which the values
-- of the hash map of slots are met, which the source does not fix.
pub record Draws : Type 0 where
  pub clock : ℕ → ℕ
  pub code_digits : List (List ℕ)
  pub tokens : ℕ → Text
  pub slot_order : List Slot → List Slot

unfoldable pub send : ℕ → ServerFrame → RelayState → RelayState
send id frame st =
    if is_some (lookup id st.connections) then record st { sent = (id, frame) ∷ st.sent } else st

unfoldable pub reject : ℕ → Option ℕ → Text → RelayState → RelayState
unfolding send
reject id request_id code st =
    send id (error request_id code) (record st {
      metrics = record st.metrics { rejected_frames = st.metrics.rejected_frames + 1 };
    })

unfoldable pub sync_metrics : RelayState → RelayState
sync_metrics st = record st {
  metrics = record st.metrics {
    active_connections = length st.connections;
    active_pairing_slots = length st.slots;
    active_pairing_bridges = length st.bridges;
  };
}

-- `slots.saturating_sub(1)` and `pairings.saturating_sub(1)`, and the increments.
unfoldable pub less_slot : Connection → Connection
less_slot c = record c { slots = c.slots - 1 }

unfoldable pub more_slot : Connection → Connection
more_slot c = record c { slots = c.slots + 1 }

unfoldable pub less_pairing : Connection → Connection
less_pairing c = record c { pairings = c.pairings - 1 }

unfoldable pub more_pairing : Connection → Connection
more_pairing c = record c { pairings = c.pairings + 1 }

-- `for bridge in removed { for peer in [bridge.owner, bridge.joiner] { … } }`.
unfoldable pub release_peers : List Bridge → Map Connection → Map Connection
unfolding less_pairing
release_peers [] connections = connections
release_peers (bridge ∷ bridges) connections =
    release_peers bridges
      (modify bridge.joiner less_pairing (modify bridge.owner less_pairing connections))
