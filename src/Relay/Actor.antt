-- ===== src/Relay/Actor.antt =====
-- `process_frame`, `handle_command`, `expire_state` and the loop of `run_actor` in
-- services/torchat-relay/src/main.rs. A command or a tick of the timer is an event, and `none` is a
-- panic of the actor (or a code draw that has not ended).
use t_orca.Base.{
  ℕ, ◌+◌, Bool, true, false, not, ◌||◌, Option, none, some, List, [], ◌∷◌, ◌==◌, length, ltb, leb,
  count, is_some, if◌then◌else◌, Text,
}
use t_orca.Base.Map.{lookup, insert, remove, retain_values, values}
use t_orca.Relay.Frames.{ClientFrame, ServerFrame}
use t_orca.Relay.State.{
  Slot, Bridge, RelayState, Draws, send, sync_metrics, release_peers, max_connections,
}
use t_orca.Relay.Slots.{create_pairing_slot, resolve_pairing_code, cancel_pairing_slot}
use t_orca.Relay.Bridges.{
  begin_pairing, authorize, authorize_either, accept_pairing, finish_pairing,
}

pub data Command : Type 0 where
  connected disconnected : ℕ → Command
  frame : ℕ → ClientFrame → Command

pub data Event : Type 0 where
  command : Draws → Command → Event
  tick : ℕ → Event

abbrev pub involves : ℕ → Bridge → Bool
involves id bridge = bridge.owner == id || bridge.joiner == id

-- `Connected`, whose map replaces an older entry of the id.
unfoldable pub connect : ℕ → RelayState → RelayState
connect id st =
    if ltb (length st.connections) max_connections
    then record st {
      connections = insert id (record { slots = 0; pairings = 0; attempts = [] }) st.connections;
    }
    else st

-- `Disconnected`: the bridges of the id are taken out, and the peers' counters fall.
unfoldable pub disconnect : ℕ → RelayState → RelayState
unfolding release_peers
disconnect id st = record st {
  connections =
      release_peers (values (retain_values (involves id) st.bridges)) (remove id st.connections);
  slots = retain_values (λ (slot : Slot). not (slot.owner == id)) st.slots;
  bridges = retain_values (λ b. not (involves id b)) st.bridges;
}

unfoldable pub expire_state : ℕ → RelayState → RelayState
unfolding release_peers
expire_state now st =
    let expired_slots = count (λ (slot : Slot). leb slot.expires_at now) (values st.slots) in
    record st {
      slots = retain_values (λ (slot : Slot). ltb now slot.expires_at) st.slots;
      bridges = retain_values (λ (b : Bridge). not (leb b.expires_at now)) st.bridges;
      connections =
          release_peers (values (retain_values (λ (b : Bridge). leb b.expires_at now) st.bridges))
            st.connections;
      metrics =
          if ltb 0 expired_slots
          then record st.metrics { expired_slots = st.metrics.expired_slots + expired_slots }
          else st.metrics;
    }

module _ (hash : Text → ℕ) where
  -- A frame of a connected client.
  unfoldable pub dispatch : Draws → ℕ → ClientFrame → RelayState → Option RelayState
  unfolding create_pairing_slot resolve_pairing_code cancel_pairing_slot begin_pairing authorize
      authorize_either accept_pairing finish_pairing
  dispatch draws id ClientFrame.ping st = some (send id ServerFrame.pong st)
  dispatch draws id (ClientFrame.create_pairing_slot request_id key ttl) st =
      create_pairing_slot hash draws id request_id key ttl st
  dispatch draws id (ClientFrame.resolve_pairing_code request_id display_code) st =
      resolve_pairing_code hash draws id request_id display_code st
  dispatch draws id (ClientFrame.begin_pairing request_id pairing_id handle key offer) st =
      begin_pairing hash draws id request_id pairing_id handle key offer st
  dispatch draws id (ClientFrame.accept_pairing pairing_id token response) st =
      some (accept_pairing hash id pairing_id token response st)
  dispatch draws id (ClientFrame.reject_pairing pairing_id token) st = some (
      if authorize_either hash (lookup pairing_id st.bridges) id token
      then finish_pairing pairing_id (ServerFrame.pairing_rejected pairing_id) st
      else st)
  dispatch draws id (ClientFrame.pairing_committed pairing_id token) st = some (
      if authorize hash (lookup pairing_id st.bridges) id token false
      then finish_pairing pairing_id (ServerFrame.pairing_finalized pairing_id) st
      else st)
  dispatch draws id (ClientFrame.pairing_finalized pairing_id token) st = some (
      if authorize hash (lookup pairing_id st.bridges) id token true
      then finish_pairing pairing_id (ServerFrame.pairing_finalized pairing_id) st
      else st)
  dispatch draws id (ClientFrame.cancel_pairing pairing_id token) st = some (
      if authorize_either hash (lookup pairing_id st.bridges) id token
      then finish_pairing pairing_id (ServerFrame.pairing_cancelled pairing_id) st
      else st)
  dispatch draws id (ClientFrame.cancel_pairing_slot handle capability) st =
      some (cancel_pairing_slot hash id handle capability st)

  unfoldable pub process_frame : Draws → ℕ → ClientFrame → RelayState → Option RelayState
  unfolding dispatch
  process_frame draws id f st =
      if is_some (lookup id st.connections) then dispatch draws id f st else some st

  unfoldable pub handle_command : Draws → Command → RelayState → Option RelayState
  unfolding connect disconnect process_frame sync_metrics
  handle_command draws (connected id) st = some (sync_metrics (connect id st))
  handle_command draws (disconnected id) st = some (sync_metrics (disconnect id st))
  handle_command draws (frame id f) st = elim (process_frame draws id f st) [
    | none ↦ none
    | some after ↦ some (sync_metrics after)
  ]

  -- One round of the loop.
  unfoldable pub step : Event → RelayState → Option RelayState
  unfolding handle_command expire_state sync_metrics
  step (command draws c) st = handle_command draws c st
  step (tick now) st = some (sync_metrics (expire_state now st))

  -- The loop over a history of events.
  unfoldable pub run_actor : List Event → RelayState → Option RelayState
  unfolding step
  run_actor [] st = some st
  run_actor (e ∷ es) st = elim (step e st) [ none ↦ none | some after ↦ run_actor es after ]

-- The state before the loop.
abbrev pub initial : RelayState
initial = record {
  connections = [];
  slots = [];
  bridges = [];
  metrics = record {
    active_connections = 0;
    active_pairing_slots = 0;
    active_pairing_bridges = 0;
    rejected_frames = 0;
    expired_slots = 0;
  };
  sent = [];
}
