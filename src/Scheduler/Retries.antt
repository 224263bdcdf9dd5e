-- ===== src/Scheduler/Retries.antt =====
-- packages/torchat-client-engine/src/actor/state/retry_scheduler.rs: when the engine wakes for a pending
-- cancellation of a pairing, and which one it then resumes. An `Instant` is a number of milliseconds.
use mathlib.Core.Path.{subst}
use t_orca.Base.{
  ℕ, ◌+◌, ◌-◌, ◌≡◌, ◌⊎◌, refl, Bool, true, false, not, ◌&&◌, ◌||◌, Option, none, some, List, [],
  ◌∷◌, retain, find, filter_map, is_some, is_some_and, unwrap_or, if◌then◌else◌, arith, All,
  Option-cases, Bool-cases, inl, inr,
}
use t_orca.Base.Int.{ℤ, pos, pos_part, neg_part, sub_ℕ, ltb_ℤ, leb_ℤ, ◌≤ℤ◌, i64_max, i64_min}
use t_orca.Operations.{OperationType, OperationState, DurableOperation}

unfoldable pub is_cancellation : DurableOperation → Bool
is_cancellation o = is_type o.operation_type
  where
    is_type : OperationType → Bool
    is_type OperationType.pairing_cancellation = true
    is_type _ = false

unfoldable pub durable_operation_deadline : DurableOperation → Option ℤ
durable_operation_deadline o = at_state o.state
  where
    at_state : OperationState → Option ℤ
    at_state OperationState.pending = some o.updated_at
    at_state OperationState.running = some o.updated_at
    at_state OperationState.waiting_for_retry = some (unwrap_or o.retry_at o.updated_at)
    at_state _ = none

-- `i64::checked_sub`.
unfoldable pub checked_sub : ℤ → ℤ → Option ℤ
checked_sub a b =
    let d = sub_ℕ (pos_part a + neg_part b) (neg_part a + pos_part b) in
    if ltb_ℤ i64_max d || ltb_ℤ d i64_min then none else some d

-- A negative difference has no positive part.
unfoldable pub monotonic_wakeup_at : ℤ → ℤ → ℕ → ℕ
unfolding checked_sub
monotonic_wakeup_at deadline_at_ms wall_now_ms monotonic_now =
    monotonic_now + pos_part (unwrap_or (checked_sub deadline_at_ms wall_now_ms) (pos 0))

-- `min()` of the deadlines.
unfoldable pub earliest_at : List ℤ → Option ℤ
earliest_at [] = none
earliest_at (d ∷ ds) = elim (earliest_at ds) [
  | none ↦ some d
  | some e ↦ some (if ltb_ℤ e d then e else d)
]

-- What a relay effect needs: a network, the Tor proxy, and a relay that can start an effect.
pub record Connectivity : Type 0 where
  pub network_online : Bool
  pub has_proxy : Bool
  pub can_start_effect : Bool

unfoldable pub is_ready : Connectivity → Bool
is_ready c = c.network_online && c.has_proxy && c.can_start_effect

abbrev pub retry_blocked_recheck : ℕ
retry_blocked_recheck = 5000

abbrev pub retry_offline_recheck : ℕ
retry_offline_recheck = 30000

unfoldable pub next_durable_operation_wakeup_at :
    Connectivity → List DurableOperation → ℤ → ℕ → Option ℕ
unfolding is_cancellation durable_operation_deadline monotonic_wakeup_at earliest_at is_ready
next_durable_operation_wakeup_at c operations wall_now_ms monotonic_now =
    elim (earliest_at (filter_map durable_operation_deadline (retain is_cancellation operations))) [
      | none ↦ none
      | some deadline ↦
          if not (is_ready c)
          then some (
              monotonic_now
              + (if c.network_online then retry_blocked_recheck else retry_offline_recheck))
          else some (monotonic_wakeup_at deadline wall_now_ms monotonic_now)
    ]

-- The operation that `resume_due_durable_operation` resumes, where the engine is connected.
unfoldable pub due_operation : Connectivity → List DurableOperation → ℤ → Option DurableOperation
unfolding is_cancellation durable_operation_deadline is_ready
due_operation c operations now_ms =
    if not (is_ready c)
    then none
    else find (λ o. is_some_and (λ deadline. leb_ℤ deadline now_ms) (durable_operation_deadline o))
        (retain is_cancellation operations)

-- The earliest of several deadlines is the first or the earliest of the others.
earliest_at-cons :
    (d e : ℤ) (ds : List ℤ)
    → earliest_at (d ∷ ds) ≡ some e
    → (e ≡ d) ⊎ ((earliest_at ds ≡ some e) × (e ≤ℤ d))
unfolding earliest_at
earliest_at-cons d e ds h = elim (Option-cases (earliest_at ds)) [
  | inl none_left ↦ inl (ground arith)
  | inr (e', later) ↦ elim (Bool-cases (ltb_ℤ e' d)) [
    | inl earlier ↦ inr (ground arith, ground arith)
    | inr first ↦ inl (ground arith)
  ]
]

-- A deadline that has come is that of an operation which is found.
find-earliest_at :
    (now e : ℤ) (operations : List DurableOperation)
    → earliest_at (filter_map durable_operation_deadline operations) ≡ some e
    → e ≤ℤ now
    → is_some (
        find
          (λ o. is_some_and (λ deadline. leb_ℤ deadline now) (durable_operation_deadline o))
          operations)
      ≡ true
unfolding earliest_at
find-earliest_at now e [] h k = cc
find-earliest_at now e (o ∷ operations) h k =
    go (durable_operation_deadline o) refl (λ h. find-earliest_at now e operations h k) h
  where
    test : DurableOperation → Bool
    test o = is_some_and (λ deadline. leb_ℤ deadline now) (durable_operation_deadline o)

    deadlines : List ℤ
    deadlines = filter_map durable_operation_deadline operations

    go :
        (m : Option ℤ)
        → durable_operation_deadline o ≡ m
        → (earliest_at deadlines ≡ some e → is_some (find test operations) ≡ true)
        → earliest_at (elim m [ none ↦ deadlines | some d ↦ d ∷ deadlines ]) ≡ some e
        → is_some (find test (o ∷ operations)) ≡ true
    go none at again h = rw at (again h)
    go (some d) at again h = elim (Bool-cases (leb_ℤ d now)) [
      | inl come ↦ rw at (rw come refl)
      | inr later ↦ elim (earliest_at-cons d e deadlines h) [
        | inl same ↦ absurd (ground arith)
        | inr (others, _) ↦ rw at (rw later (again others))
      ]
    ]

-- Its deadline, as an `i64`, is not after the last instant of its clock.
abbrev pub HasI64Deadline : DurableOperation → Type 0
HasI64Deadline o = unwrap_or (durable_operation_deadline o) (pos 0) ≤ℤ i64_max

earliest_at-le :
    (e : ℤ) (operations : List DurableOperation)
    → All HasI64Deadline operations
    → earliest_at (filter_map durable_operation_deadline operations) ≡ some e
    → e ≤ℤ i64_max
unfolding earliest_at
earliest_at-le e [] a h = cc
earliest_at-le e (o ∷ operations) (fits, rest) h =
    go (durable_operation_deadline o) refl (earliest_at-le e operations rest) h
  where
    deadlines : List ℤ
    deadlines = filter_map durable_operation_deadline operations

    go :
        (m : Option ℤ)
        → durable_operation_deadline o ≡ m
        → (earliest_at deadlines ≡ some e → e ≤ℤ i64_max)
        → earliest_at (elim m [ none ↦ deadlines | some d ↦ d ∷ deadlines ]) ≡ some e
        → e ≤ℤ i64_max
    go none at again h = again h
    go (some d) at again h = elim (earliest_at-cons d e deadlines h) [
      | inl same ↦ ground arith
      | inr (others, _) ↦ again others
    ]

All-retain :
    {A : Type 0} (P : A → Type 0) (test : A → Bool) (xs : List A)
    → All P xs
    → All P (retain test xs)
All-retain P test [] h = tt
All-retain P test (x ∷ xs) (p, ps) = elim (Bool-cases (test x)) [
  | inl e ↦ rw e (p, All-retain P test xs ps)
  | inr e ↦ rw e (All-retain P test xs ps)
]

monotonic_wakeup_at-reaches :
    (e later : ℤ) (wall mono : ℕ)
    → e ≤ℤ i64_max
    → pos (wall + (monotonic_wakeup_at e (pos wall) mono - mono)) ≤ℤ later
    → e ≤ℤ later
unfolding monotonic_wakeup_at checked_sub
monotonic_wakeup_at-reaches e later wall mono bound moved = ground arith

-- When a connected engine wakes for its pending cancellations, after 1970 and with deadlines that are
-- `i64`s, it finds one to resume if the wall clock has moved on by as much as the monotonic clock
-- since the wakeup was planned.
pub wakeup_finds :
    (c : Connectivity) (operations : List DurableOperation) (wall : ℕ) (later : ℤ) (mono t : ℕ)
    → is_ready c ≡ true
    → All HasI64Deadline operations
    → next_durable_operation_wakeup_at c operations (pos wall) mono ≡ some t
    → pos (wall + (t - mono)) ≤ℤ later
    → is_some (due_operation c operations later) ≡ true
unfolding next_durable_operation_wakeup_at due_operation
wakeup_finds c operations wall later mono t ready fits wakes moved =
    let pending = retain is_cancellation operations in
    elim (Option-cases (earliest_at (filter_map durable_operation_deadline pending))) [
      | inl none_left ↦ absurd (ground arith)
      | inr (e, earliest) ↦
          let bound =
            earliest_at-le e pending (All-retain _ is_cancellation operations fits) earliest in
          let at : t ≡ monotonic_wakeup_at e (pos wall) mono = ground arith in
          rw ready (
            find-earliest_at later e pending earliest (
              monotonic_wakeup_at-reaches e later wall mono bound
                (subst (λ t. pos (wall + (t - mono)) ≤ℤ later) at moved)))
    ]
