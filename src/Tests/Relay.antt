-- ===== src/Tests/Relay.antt =====
-- Runs of the relay of services/torchat-relay/src/main.rs on small states.
use t_orca.Base.{
  utf8, ◌≤◌, ◌≢◌, ◌↔◌, ap, sym, false, ℕ, ◌≡◌, ◌<◌, refl, ◌⊎◌, Option, none, some, List, [], ◌∷◌,
  length, Text, codes, arith, All,
}
use t_orca.Base.Map.{modify, insert, Map, lookup, values, total, Unique}
use t_orca.Relay.Meeting.{resolve_pairing_code-open_slot}
use t_orca.Relay.Frames.{pairing_slot_resolved, ClientFrame}
use t_orca.Relay.State.{
  Connection, Slot, Bridge, RelayState, Draws, sync_metrics, reject, max_code_attempts,
}
use t_orca.Relay.Code.{generate_code, normalize_pairing_code, format_pairing_code}
use t_orca.Relay.CodeLaws.{normalize-format_pairing_code}
use t_orca.Relay.Slots.{
  open_slot, recent_attempts, resolve_pairing_code, create_pairing_slot, draw_code, code_taken,
}
use t_orca.Relay.Actor.{
  Event, connected, disconnected, frame, command, tick, connect, handle_command, expire_state,
  initial, process_frame, run_actor, step,
}
use t_orca.Relay.Safety.{Runs}
use t_orca.Relay.Drawing.{draw_code_ends}
use t_orca.Relay.Accounts.{Inv, fewer_pairings, occurrences}
use mathlib.Core.Option
use t_orca.Relay.History.{
  step-Runs, run_actor-Runs, run_actor-attempts, initial-Inv, IsAdmissibleHistory,
}
use t_orca.Relay.Authority.{IsEndedBySide, process_frame-KeepsOrEnds}
use t_orca.Relay.Expiry.{ended, expire_state_lem, expired_slots_stay_counted}

-- A digest for the tests: the length.
abbrev len_hash : Text → ℕ
len_hash t = length t

abbrev digits_a : List ℕ
digits_a = 1 ∷ 2 ∷ 3 ∷ 4 ∷ 5 ∷ 6 ∷ 7 ∷ 8 ∷ []

abbrev some_draws : Draws
some_draws = record {
  clock = λ n. 1000;
  code_digits = digits_a ∷ [];
  tokens = λ n. codes "token";
  slot_order = λ slots. slots;
}

-- A client connects, asks for a code, lets it run out and leaves.
abbrev a_history : List Event
a_history =
    command some_draws (connected 1)
    ∷ command some_draws (frame 1 (ClientFrame.create_pairing_slot 8 0 60))
    ∷ tick 5000
    ∷ command some_draws (disconnected 1)
    ∷ []

abbrev slots_of : Option RelayState → Map Slot
slots_of none = []
slots_of (some st) = st.slots

no_slots :
    (st : RelayState)
    → step len_hash (command some_draws (connected 1)) initial ≡ some st
    → st.slots ≡ []
unfolding step handle_command connect sync_metrics
no_slots st e = ap slots_of (sym e)

admissible : IsAdmissibleHistory len_hash a_history initial
unfolding lookup
admissible = (refl, λ a e. (rw (no_slots a e) refl, λ b e. (tt, λ c e. (tt, λ d e. tt))))

run_actor-Runs_example : Runs (run_actor len_hash a_history initial)
run_actor-Runs_example = run_actor-Runs len_hash a_history initial admissible initial-Inv

step-Runs_example : Runs (step len_hash (command some_draws (connected 7)) initial)
unfolding lookup
step-Runs_example = step-Runs len_hash (command some_draws (connected 7)) initial refl initial-Inv

abbrev a_slot : Slot
a_slot = record {
  owner = 1;
  handle = codes "handle";
  capability_hash = 4;
  code_hash = 9;
  rendezvous_public_key = 0;
  expires_at = 100;
}

abbrev a_bridge : Bridge
a_bridge = record {
  owner = 1;
  joiner = 2;
  owner_token_hash = 3;
  joiner_token_hash = 5;
  slot_hash = 0;
  expires_at = 500;
}

abbrev a_connection : Connection
a_connection = record { slots = 2; pairings = 1; attempts = [] }

abbrev two_peers : RelayState
two_peers = record initial {
  connections = (1, a_connection) ∷ (2, a_connection) ∷ [];
  slots = (6, a_slot) ∷ [];
  bridges = (30, a_bridge) ∷ [];
}

-- The joiner shows a token that is not its own.
abbrev wrong_token : ClientFrame
wrong_token = ClientFrame.cancel_pairing 30 (codes "stolen token")

process_frame-KeepsOrEnds_example :
    (lookup 30 two_peers.bridges ≡ some a_bridge) ⊎ IsEndedBySide len_hash 2 30 a_bridge wrong_token
process_frame-KeepsOrEnds_example =
    process_frame-KeepsOrEnds len_hash some_draws 2 30 a_bridge wrong_token two_peers two_peers
      found kept
  where
    found : lookup 30 two_peers.bridges ≡ some a_bridge
    found = unfold lookup in refl

    kept : process_frame len_hash some_draws 2 wrong_token two_peers ≡ some two_peers
    kept = unfold process_frame in unfold lookup in refl

-- A digest for the tests: the first character.
abbrev first_hash : Text → ℕ
first_hash [] = 0
first_hash (c ∷ t) = c

abbrev digits_b : List ℕ
digits_b = 2 ∷ 2 ∷ 3 ∷ 4 ∷ 5 ∷ 6 ∷ 7 ∷ 8 ∷ []

-- A slot that has the first code.
abbrev a_taken_slot : Slot
a_taken_slot = record a_slot { code_hash = first_hash (generate_code digits_a) }

draw_code_ends_example :
    (code : Text) × (draw_code first_hash ((6, a_taken_slot) ∷ []) (digits_a ∷ digits_b ∷ [])
      ≡ some code)
    × (code_taken first_hash ((6, a_taken_slot) ∷ []) code ≡ false)
unfolding generate_code
draw_code_ends_example =
    draw_code_ends first_hash ((6, a_taken_slot) ∷ []) (digits_a ∷ digits_b ∷ []) (ground arith)
      (omega arith)

normalize-format_pairing_code_example :
    normalize_pairing_code (format_pairing_code (generate_code digits_a))
    ≡ some (generate_code digits_a)
normalize-format_pairing_code_example = normalize-format_pairing_code digits_a refl (ground arith)

two_peers-Inv : Inv two_peers
two_peers-Inv = record {
  slots_unique = unfold Unique in unfold lookup in (refl, tt);
  bridges_unique = unfold Unique in unfold lookup in (refl, tt);
  connections_bound = omega arith;
  slots_bound = omega arith;
  accounts = λ id. unfold lookup in unfold total in ground arith;
}

expire_state_lem_example :
    let after = expire_state 400 two_peers in
    ((key : ℕ) (slot : Slot)
      → (lookup key after.slots ≡ some slot)
        ↔ ((lookup key two_peers.slots ≡ some slot) × (400 < slot.expires_at)))
    × ((key : ℕ) (b : Bridge)
        → (lookup key after.bridges ≡ some b)
          ↔ ((lookup key two_peers.bridges ≡ some b) × (400 < b.expires_at)))
    × ((id : ℕ)
        → lookup id after.connections
          ≡ Option.map
              (fewer_pairings (occurrences id (ended 400 two_peers)))
              (lookup id two_peers.connections))
expire_state_lem_example = expire_state_lem 400 two_peers two_peers-Inv

expired_slots_stay_counted_example :
    let after = expire_state 400 two_peers in
    All (λ (slot : Slot). slot.owner ≢ 1) (values after.slots)
    × (create_pairing_slot len_hash some_draws 1 8 0 60 after
        ≡ some (reject 1 (some 8) (codes "capacity") after))
expired_slots_stay_counted_example =
    expired_slots_stay_counted 400 some_draws 1 8 0 60 len_hash two_peers a_connection
      (unfold lookup in refl) (omega arith) ((λ own. omega arith), tt)

abbrev a_guesser : Connection
a_guesser = record { slots = 0; pairings = 0; attempts = 10 ∷ 970 ∷ 980 ∷ [] }

abbrev a_meeting : RelayState
a_meeting = record initial { connections = (1, a_connection) ∷ (2, a_guesser) ∷ [] }

abbrev after_opening : RelayState
after_opening = open_slot len_hash some_draws 1 8 77 60 (generate_code digits_a) a_meeting

resolve_pairing_code-open_slot_example :
    (after : RelayState) × (resolve_pairing_code len_hash some_draws 2 9
        (format_pairing_code (generate_code digits_a))
        after_opening
      ≡ some after)
    × (after.sent ≡ (2, pairing_slot_resolved 9 (codes "token") 77 1060) ∷ after_opening.sent)
    × (after.slots ≡ after_opening.slots)
unfolding lookup open_slot recent_attempts modify
resolve_pairing_code-open_slot_example =
    resolve_pairing_code-open_slot len_hash some_draws some_draws 1 2 8 9 77 60 digits_a a_meeting
      after_opening a_guesser refl (record { keeps = λ test slots. refl }) refl refl (ground arith)
      refl (omega arith) (omega arith)

-- The guess of the last event of the history is the one attempt on record.
abbrev guesses : List Event
guesses =
    command some_draws (connected 1)
    ∷ command some_draws (frame 1 (ClientFrame.resolve_pairing_code 9 (codes "12")))
    ∷ []

guesses-admissible : IsAdmissibleHistory len_hash guesses initial
unfolding lookup
guesses-admissible = (refl, λ a e. (rw (no_slots a e) refl, λ b e. tt))

abbrev a_newcomer : Connection
a_newcomer = record { slots = 0; pairings = 0; attempts = 1000 ∷ [] }

abbrev state_of : Option RelayState → RelayState
state_of none = initial
state_of (some st) = st

run_actor-attempts_example : length a_newcomer.attempts ≤ max_code_attempts
unfolding run_actor step lookup insert utf8 modify
run_actor-attempts_example =
    run_actor-attempts len_hash guesses (state_of (run_actor len_hash guesses initial)) 1 a_newcomer
      guesses-admissible refl refl
