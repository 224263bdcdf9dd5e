-- ===== src/Relay/History.antt =====
-- The actor of the relay never panics and keeps its bookkeeping: each event, and every history.
use mathlib.Core.Path.{subst}
use t_orca.Base.{ℕ, ◌≤◌, ◌≡◌, refl, Option, none, some, List, [], ◌∷◌, length, arith, Text}
use t_orca.Base.Map.{lookup, total, Unique}
use t_orca.Relay.State.{Connection, RelayState, sync_metrics, max_code_attempts}
use t_orca.Relay.Actor.{
  connected, disconnected, frame, Event, command, tick, process_frame, handle_command, step,
  run_actor, initial,
}
use t_orca.Relay.Accounts.{Inv}
use t_orca.Relay.Invariant.{connect-Inv, disconnect-Inv, expire_state-Inv}
use t_orca.Relay.Safety.{Runs, HasFreeCode, process_frame-Runs}

module _ (hash : Text → ℕ) where
  -- What the environment of the actor gives: an id that connects is new, and the draws of a frame
  -- that asks for a code hold a free one.
  abbrev pub IsAdmissible : Event → RelayState → Type 0
  IsAdmissible (command draws (connected id)) st = lookup id st.connections ≡ none
  IsAdmissible (command draws (disconnected id)) st = Unit
  IsAdmissible (command draws (frame id f)) st = HasFreeCode hash st.slots draws.code_digits
  IsAdmissible (tick now) st = Unit

  synced :
      (r : Option RelayState)
      → Runs r
      → Runs (elim r [ none ↦ none | some after ↦ some (sync_metrics after) ])
  unfolding sync_metrics
  synced none h = h
  synced (some st) v = v

  -- Whatever event comes next, the actor handles it without a panic, and the bookkeeping still
  -- holds: at most 2,000 connections and 1,000 slots, each connection's pairing counter is the
  -- number of its bridges, at most 2, its slot counter is at least the number of its slots, at
  -- most 2, it has at most five code attempts on record, and slots and bridges belong to connected
  -- clients. A new connection has a new id, and
  -- the draws of a frame hold a free code.
  pub step-Runs : (e : Event) (st : RelayState) → IsAdmissible e st → Inv st → Runs (step hash e st)
  unfolding step handle_command
  step-Runs (command draws (connected id)) st h v = unfold sync_metrics in connect-Inv id st h v
  step-Runs (command draws (disconnected id)) st h v = unfold sync_metrics in disconnect-Inv id st v
  step-Runs (command draws (frame id f)) st h v =
      synced (process_frame hash draws id f st) (process_frame-Runs hash draws id f st h v)
  step-Runs (tick now) st h v = unfold sync_metrics in expire_state-Inv now st v

  -- A history whose events are admissible where they happen.
  abbrev pub IsAdmissibleHistory : List Event → RelayState → Type 0
  IsAdmissibleHistory [] st = Unit
  IsAdmissibleHistory (e ∷ es) st =
      IsAdmissible e st
      × ((after : RelayState) → step hash e st ≡ some after → IsAdmissibleHistory es after)

  -- No admissible history from a consistent state, such as the one the relay starts in, makes the
  -- actor panic, and the bookkeeping holds at its end.
  pub run_actor-Runs :
      (es : List Event) (st : RelayState)
      → IsAdmissibleHistory es st
      → Inv st
      → Runs (run_actor hash es st)
  unfolding run_actor
  run_actor-Runs [] st h v = v
  run_actor-Runs (e ∷ es) st h v =
      by_step (step hash e st) (step-Runs e st h.0 v) h.1 (run_actor-Runs es)
    where
      by_step :
          (r : Option RelayState)
          → Runs r
          → ((after : RelayState) → r ≡ some after → IsAdmissibleHistory es after)
          → ((st : RelayState) → IsAdmissibleHistory es st → Inv st → Runs (run_actor hash es st))
          → Runs (elim r [ none ↦ none | some after ↦ run_actor hash es after ])
      by_step none v' later rest = v'
      by_step (some after) v' later rest = rest after (later after refl) v'

-- The relay starts consistent.
pub initial-Inv : Inv initial
unfolding Unique
initial-Inv = record {
  slots_unique = tt;
  bridges_unique = tt;
  connections_bound = omega arith;
  slots_bound = omega arith;
  accounts = λ id. unfold lookup total in (refl, refl);
}

module _ (hash : Text → ℕ) where
  -- After any admissible history of a relay that starts empty, no connection has more than five
  -- attempts to resolve a code on record.
  pub run_actor-attempts :
      (es : List Event) (st : RelayState) (id : ℕ) (c : Connection)
      → IsAdmissibleHistory hash es initial
      → run_actor hash es initial ≡ some st
      → lookup id st.connections ≡ some c
      → length c.attempts ≤ max_code_attempts
  run_actor-attempts es st id c admissible ran here =
      let v : Inv st = subst Runs ran (run_actor-Runs hash es initial admissible initial-Inv) in
      ground (arith, v.accounts id)
