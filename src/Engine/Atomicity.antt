-- ===== src/Engine/Atomicity.antt =====
-- What an operation of the engine leaves, on every way out of its transaction.
use mathlib.Core.Path.{subst}
use t_orca.Base.{
  ◌≡◌, refl, sym, ap, ◌∙◌, ◌⊎◌, inl, inr, Option, none, List, [], ◌++◌, Text, RuntimeResult, ok,
  err, Result-cases, Option-cases, arith, Bool,
}
use t_orca.Client.Events.{RuntimeEvent}
use t_orca.Client.Session.{
  RuntimeSession, default_session, begin_transaction, commit_transaction, drain_events,
  pending_projection_changes,
}
use t_orca.Client.Action.{Client, Action}
use t_orca.Client.Stages.{Stages}
use t_orca.Client.Staging.{Staged}
use t_orca.Engine.Errors.{EngineError, EngineResult, FaultPoint, runtime_error}
use t_orca.Engine.State.{Host, Engine, ResponsePayload, IdempotencyCommitContext}
use t_orca.Engine.Transaction.{
  opened, seal, anchor_changes, projection_event, answer_with, finish, dispatch, committed,
  conclude, settle, with_runtime_internal,
}

-- Between two operations: no transaction is open, and no event waits.
pub record IsIdle (s : RuntimeSession) : Type 0 where
  pub closed : s.transaction_depth ≡ 0
  pub nothing_staged : s.staged_events ≡ []
  pub nothing_waits : s.events ≡ []

-- What an open transaction of an idle engine has: its own events only.
pub record IsOpen (s : RuntimeSession) : Type 0 where
  pub depth : s.transaction_depth ≡ 1
  pub nothing_waits : s.events ≡ []

pub default_session-IsIdle : IsIdle default_session
default_session-IsIdle = record { closed = refl; nothing_staged = refl; nothing_waits = refl }

begin_transaction-IsOpen : (s : RuntimeSession) → IsIdle s → IsOpen (begin_transaction s)
unfolding begin_transaction
begin_transaction-IsOpen s h = ground arith

-- The transaction of an idle engine is open.
opened-IsOpen :
    {S A : Type 0} (engine : Engine S A) → IsIdle engine.session → IsOpen ((opened engine).session)
unfolding opened
opened-IsOpen engine h = begin_transaction-IsOpen engine.session h

Stages-IsOpen : {s t : RuntimeSession} → Stages s t → IsOpen s → IsOpen t
Stages-IsOpen p h = record {
  depth = p.open_at ∙ h.depth;
  nothing_waits = p.delivered ∙ h.nothing_waits;
}

-- The commit delivers what was staged.
drain-commit :
    (s : RuntimeSession)
    → IsOpen s
    → ((drain_events (commit_transaction s)).0 ≡ s.staged_events)
      × IsIdle (drain_events (commit_transaction s)).1
unfolding drain_events commit_transaction
drain-commit s h = rw (h.depth) (rw (h.nothing_waits) (refl, ground arith))

module _ {S A : Type 0} (host : Host S A) where
  anchor_changes-keeps :
      (ids : List Text) (engine : Engine S A)
      → (((anchor_changes host ids engine).1).session ≡ engine.session)
        × (((anchor_changes host ids engine).1).database ≡ engine.database)
  unfolding anchor_changes
  anchor_changes-keeps ids engine = elim (Option-cases engine.mls_anchor) [
    | inl e ↦ rw e (refl, refl)
    | inr (a, e) ↦ rw e (refl, refl)
  ]

  anchor_free :
      (ids : List Text) (engine : Engine S A)
      → engine.mls_anchor ≡ none
      → anchor_changes host ids engine ≡ (ok tt, engine)
  unfolding anchor_changes
  anchor_free ids engine free = rw free refl

  module _ {R : Type 0} (op : Action S R) (idempotency : Option IdempotencyCommitContext)
      (response : R → EngineResult (Option ResponsePayload)) where
    -- Nothing of the operation is in the database, and it has no answer.
    pub record RolledBack (engine after : Engine S A) (r : EngineResult (R × List RuntimeEvent))
        : Type 0 where
      pub unchanged : after.database ≡ engine.database
      pub error : EngineError
      pub failed : r ≡ err error

    -- The result is this answer with these events, or an error.
    abbrev pub Answers : R → List RuntimeEvent → EngineResult (R × List RuntimeEvent) → Type 0
    Answers value events r = (r ≡ ok (value, events)) ⊎ ((e : EngineError) × (r ≡ err e))

    -- The operation, its projection revision and its kept answer are in the database together. If
    -- there is an answer, it is that of the operation, with the events that the operation pushed, in
    -- order, and then the projection event; and there is one unless the host fails after the commit,
    -- by its fault point or by the anchor.
    pub record Committed (engine after : Engine S A) (r : EngineResult (R × List RuntimeEvent))
        : Type 0 where
      pub value : R
      pub client : Client S
      pub performed : op (opened engine) ≡ (ok value, client)
      pub sealed :
          seal host idempotency
            (response value)
            (pending_projection_changes (client.session))
            (client.storage)
          ≡ ok after.database
      pub durable : (host.storage).commit after.database ≡ ok tt
      pub answered :
          Answers value
            ((client.session).staged_events
              ++ projection_event host (pending_projection_changes (client.session)) after)
            r
      pub answers :
          engine.mls_anchor ≡ none
          → host.faults FaultPoint.after_local_commit_before_dispatch ≡ ok tt
          → r
            ≡ ok (
              value,
              (client.session).staged_events
                  ++ projection_event host (pending_projection_changes (client.session)) after,
            )

    abbrev pub Outcome : Engine S A → EngineResult (R × List RuntimeEvent) × Engine S A → Type 0
    Outcome engine (r, after) =
        IsIdle after.session × (RolledBack engine after r ⊎ Committed engine after r)

    answer_with_lem :
        (value : R) (events : List RuntimeEvent) (changes : Bool × List Text)
        (anchored : EngineResult Unit × Engine S A)
        → let (r, after) = answer_with host value events changes anchored in
          (after.session ≡ (anchored.1).session)
          × (after.database ≡ (anchored.1).database)
          × Answers value (events ++ projection_event host changes after) r
    unfolding answer_with
    answer_with_lem value events changes (err e, engine) = (refl, refl, inr (e, refl))
    answer_with_lem value events changes (ok u, engine) = (refl, refl, inl refl)

    finish_lem :
        (value : R) (events : List RuntimeEvent) (changes : Bool × List Text) (engine : Engine S A)
        → let (r, after) = finish host value events changes engine in
          (after.session ≡ engine.session)
          × (after.database ≡ engine.database)
          × Answers value (events ++ projection_event host changes after) r
    unfolding finish
    finish_lem value events changes engine =
        let (session, database, told) =
          answer_with_lem value events changes (anchor_changes host changes.1 engine) in
        let (same_session, same_database) = anchor_changes-keeps changes.1 engine in
        (session ∙ same_session, database ∙ same_database, told)

    -- Without an anchor nothing fails after the fault point.
    finish-answers :
        (value : R) (events : List RuntimeEvent) (changes : Bool × List Text) (engine : Engine S A)
        → engine.mls_anchor ≡ none
        → let (r, after) = finish host value events changes engine in
          r ≡ ok (value, events ++ projection_event host changes after)
    unfolding finish answer_with
    finish-answers value events changes engine free =
        subst
          (λ anchored.
            let (r, after) = answer_with host value events changes anchored in
            r ≡ ok (value, events ++ projection_event host changes after))
          (sym (anchor_free changes.1 engine free)) refl

    module _ (engine : Engine S A) (value : R) (c : Client S)
        (performed : op (opened engine) ≡ (ok value, c)) (idle : IsIdle engine.session)
        (open_c : IsOpen c.session) where
      dispatch-Outcome :
          (tx : S) (fault : EngineResult Unit)
          → host.faults FaultPoint.after_local_commit_before_dispatch ≡ fault
          → seal host idempotency (response value) (pending_projection_changes c.session) c.storage
            ≡ ok tx
          → (host.storage).commit tx ≡ ok tt
          → Outcome engine (dispatch host value c tx engine fault)
      unfolding dispatch
      dispatch-Outcome tx (err e) met sealed durable = (
        default_session-IsIdle,
        inr (record {
          value = value;
          client = c;
          performed = performed;
          sealed = sealed;
          durable = durable;
          answered = inr (e, refl);
          answers = λ free clear. ground arith;
        }),
      )
      dispatch-Outcome tx (ok u) met sealed durable =
          let changes = pending_projection_changes c.session in
          let drained = drain_events (commit_transaction c.session) in
          let next : Engine S A = record engine {
            database = tx;
            session = drained.1;
            readings = c.readings;
          } in
          let (session, database, told) = finish_lem value drained.0 changes next in
          let (result, after) = finish host value drained.0 changes next in
          let (delivered, quiet) = drain-commit c.session open_c in
          (
            subst IsIdle (sym session) quiet,
            inr (record {
              value = value;
              client = c;
              performed = performed;
              sealed = sealed ∙ ap ok (sym database);
              durable = ap (host.storage).commit database ∙ durable;
              answered =
                  subst
                    (λ events. Answers value (events ++ projection_event host changes after) result)
                    delivered told;
              answers = λ free clear.
                  subst
                    (λ events. result ≡ ok (value, events ++ projection_event host changes after))
                    delivered (finish-answers value drained.0 changes next free);
            }),
          )

      committed-Outcome :
          (tx : S) (answer : RuntimeResult Unit)
          → seal host idempotency (response value) (pending_projection_changes c.session) c.storage
            ≡ ok tx
          → (host.storage).commit tx ≡ answer
          → Outcome engine (committed host value c tx engine answer)
      unfolding committed
      committed-Outcome tx (err e) sealed answer =
          (idle, inl (record { unchanged = refl; error = runtime_error e; failed = refl }))
      committed-Outcome tx (ok tt) sealed durable =
          dispatch-Outcome tx (host.faults FaultPoint.after_local_commit_before_dispatch) refl
            sealed durable

      conclude-Outcome :
          (sealing : EngineResult S)
          → seal host idempotency (response value) (pending_projection_changes c.session) c.storage
            ≡ sealing
          → Outcome engine (conclude host value c engine sealing)
      unfolding conclude
      conclude-Outcome (err e) sealed =
          (default_session-IsIdle, inl (record { unchanged = refl; error = e; failed = refl }))
      conclude-Outcome (ok tx) sealed = committed-Outcome tx ((host.storage).commit tx) sealed refl

    settle-Outcome :
        (engine : Engine S A) (answer : RuntimeResult R) (c : Client S)
        → op (opened engine) ≡ (answer, c)
        → IsIdle engine.session
        → IsOpen c.session
        → Outcome engine (settle host idempotency response engine (answer, c))
    unfolding settle
    settle-Outcome engine (err e) c performed idle open_c =
        (idle, inl (record { unchanged = refl; error = runtime_error e; failed = refl }))
    settle-Outcome engine (ok value) c performed idle open_c =
        conclude-Outcome engine value c performed idle open_c
          (seal host idempotency (response value) (pending_projection_changes c.session) c.storage)
          refl

    -- Whatever an idle engine performs in a transaction, if it only stages events: the engine is idle
    -- again, and either nothing of it is in the database and it fails, or all of it is, with the
    -- projection revision and the kept answer, and an answer comes with exactly the events that it
    -- pushed and at most one projection event.
    pub with_runtime_internal-Outcome :
        (engine : Engine S A)
        → Staged op
        → IsIdle engine.session
        → Outcome engine (with_runtime_internal host op idempotency response engine)
    unfolding with_runtime_internal
    with_runtime_internal-Outcome engine staged idle =
        elim (Result-cases ((host.storage).transaction engine.database)) [
          | inr (e, closed) ↦
              rw (closed, with_runtime_internal)
                (idle, inl (record { unchanged = refl; error = e; failed = refl }))
          | inl (u, begun) ↦
              let before = opened-IsOpen engine idle in
              rw (begun, with_runtime_internal)
                (settle-Outcome engine (op (opened engine)).0 (op (opened engine)).1 refl idle (
                  Stages-IsOpen (staged.at (opened engine) (rw (before.depth) (omega arith)))
                    before))
        ]
