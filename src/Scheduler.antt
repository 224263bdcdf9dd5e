-- ===== src/Scheduler.antt =====
-- packages/torchat-client-engine/src/scheduler/plan.rs: the deadlines of the engine's timers. An
-- `Instant` is a number.
pub mod Due
pub mod Retries
use t_orca.Base.{ℕ, Bool, Option, none, some, List, [], ◌∷◌, leb, min, if◌then◌else◌, filter_map}

pub data EngineTimerKind : Type 0 where
  relay_poll peer_probe_round retry_due : EngineTimerKind

pub record EngineSchedulerPlan : Type 0 where
  pub generation : ℕ
  pub relay_poll_at : Option ℕ
  pub peer_probe_at : Option ℕ
  pub retry_at : Option ℕ

-- `flatten().min()`.
unfoldable pub earliest : List (Option ℕ) → Option ℕ
earliest [] = none
earliest (none ∷ deadlines) = earliest deadlines
earliest (some d ∷ deadlines) = elim (earliest deadlines) [
  | none ↦ some d
  | some e ↦ some (min d e)
]

unfoldable pub next_deadline : EngineSchedulerPlan → Option ℕ
unfolding earliest
next_deadline plan = earliest (plan.relay_poll_at ∷ plan.peer_probe_at ∷ plan.retry_at ∷ [])

-- `deadline.filter(|deadline| *deadline <= now).map(|_| kind)`.
unfoldable pub due : ℕ → Option ℕ → EngineTimerKind → Option EngineTimerKind
due now none kind = none
due now (some deadline) kind = if leb deadline now then some kind else none

unfoldable pub due_kinds : EngineSchedulerPlan → ℕ → List EngineTimerKind
unfolding due
due_kinds plan now =
    filter_map (λ kind. kind)
      (due now plan.relay_poll_at EngineTimerKind.relay_poll
        ∷ due now plan.peer_probe_at EngineTimerKind.peer_probe_round
        ∷ due now plan.retry_at EngineTimerKind.retry_due
        ∷ [])
