-- ===== src/Relay/Invariant.antt =====
-- Each operation of the relay keeps the bookkeeping consistent.
use t_orca.Base.{ℕ, ◌≡◌, true, not, none, [], ◌==◌, arith, ltb, leb}
use t_orca.Base.Map.{
  lookup, remove, retain_values, values, lookup-insert, lookup-remove, length-remove-le,
  length-insert-le, length-retain_values-le, retain_values-Unique, total-split, total-retain-le,
  total-retain_zero,
}
use t_orca.Relay.State.{Slot, Bridge, RelayState}
use t_orca.Relay.Actor.{connect, disconnect, expire_state, involves}
use t_orca.Relay.Accounts.{
  slot_weight, peer_weight, Inv, occurrences-values, lookup-release_peers, length-release_peers,
}

-- A new id, as `Uuid::new_v4` gives, may connect.
pub connect-Inv :
    (id : ℕ) (st : RelayState) → lookup id st.connections ≡ none → Inv st → Inv (connect id st)
unfolding connect
connect-Inv id st fresh v = record {
  slots_unique = ground (arith, v.slots_unique);
  bridges_unique = ground (arith, v.bridges_unique);
  connections_bound = ground (
    arith,
    length-insert-le id (record { slots = 0; pairings = 0; attempts = [] }) st.connections,
    v.connections_bound,
  );
  slots_bound = ground (arith, v.slots_bound);
  accounts = λ j. ground (
    arith,
    v.accounts j,
    lookup-insert id j (record { slots = 0; pairings = 0; attempts = [] }) st.connections,
  );
}

involves_weight : (id : ℕ) (b : Bridge) → not (involves id b) ≡ true → peer_weight id b ≡ 0
involves_weight id b h = ground arith

not_owner_weight : (id : ℕ) (s : Slot) → not (s.owner == id) ≡ true → slot_weight id s ≡ 0
not_owner_weight id s h = ground arith

pub disconnect-Inv : (id : ℕ) (st : RelayState) → Inv st → Inv (disconnect id st)
unfolding disconnect
disconnect-Inv id st v =
    let gone = retain_values (involves id) st.bridges in
    record {
      slots_unique = retain_values-Unique _ st.slots v.slots_unique;
      bridges_unique = retain_values-Unique _ st.bridges v.bridges_unique;
      connections_bound = omega (
        arith,
        length-release_peers (values gone) (remove id st.connections),
        length-remove-le id st.connections,
        v.connections_bound,
      );
      slots_bound = omega (
        arith,
        length-retain_values-le (λ (s : Slot). not (s.owner == id)) st.slots,
        v.slots_bound,
      );
      accounts = λ j. ground (
        arith,
        v.accounts j,
        lookup-release_peers j (values gone) (remove id st.connections),
        lookup-remove id j st.connections,
        occurrences-values j gone,
        total-split (peer_weight j) (involves id) st.bridges,
        total-retain-le (slot_weight j) (λ (s : Slot). not (s.owner == id)) st.slots,
        total-retain_zero (peer_weight id) (λ b. not (involves id b)) st.bridges
            (involves_weight id),
        total-retain_zero (slot_weight id) (λ (s : Slot). not (s.owner == id)) st.slots
            (not_owner_weight id),
      );
    }

pub expire_state-Inv : (now : ℕ) (st : RelayState) → Inv st → Inv (expire_state now st)
unfolding expire_state
expire_state-Inv now st v =
    let gone = retain_values (λ (b : Bridge). leb b.expires_at now) st.bridges in
    record {
      slots_unique = retain_values-Unique _ st.slots v.slots_unique;
      bridges_unique = retain_values-Unique _ st.bridges v.bridges_unique;
      connections_bound =
          omega (arith, length-release_peers (values gone) st.connections, v.connections_bound);
      slots_bound = omega (
        arith,
        length-retain_values-le (λ (s : Slot). ltb now s.expires_at) st.slots,
        v.slots_bound,
      );
      accounts = λ j. ground (
        arith,
        v.accounts j,
        lookup-release_peers j (values gone) st.connections,
        occurrences-values j gone,
        total-split (peer_weight j) (λ (b : Bridge). leb b.expires_at now) st.bridges,
        total-retain-le (slot_weight j) (λ (s : Slot). ltb now s.expires_at) st.slots,
      );
    }
