-- ===== src/Scheduler/Due.antt =====
-- The deadline that the engine sleeps to is the right one
-- (packages/torchat-client-engine/src/scheduler/plan.rs).
use t_orca.Base.{ℕ, ◌≡◌, not, leb, is_empty, is_some_and, arith}
use t_orca.Scheduler.{EngineSchedulerPlan, next_deadline, due_kinds}

-- At a given time some timer is due exactly where the next deadline has come: waking at that
-- deadline finds work, and waking before it finds none.
pub due_kinds-next_deadline :
    (plan : EngineSchedulerPlan) (now : ℕ)
    → not (is_empty (due_kinds plan now))
      ≡ is_some_and (λ deadline. leb deadline now) (next_deadline plan)
unfolding due_kinds next_deadline
due_kinds-next_deadline plan now = ground arith
