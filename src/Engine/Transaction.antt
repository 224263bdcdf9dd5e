-- ===== src/Engine/Transaction.antt =====
-- packages/torchat-client-engine/src/actor/state/runtime_transaction.rs: an operation of the runtime in
-- one transaction of the database. The transaction works on a copy of the store, which takes its place
-- when the commit succeeds and is dropped otherwise. The MLS restore is a parameter.
use t_orca.Base.{
  ℕ, Bool, true, Option, none, some, List, [], ◌∷◌, ◌++◌, if◌then◌else◌, unwrap_or, Text,
  RuntimeResult, ok, err, ◌>>=◌, ◌>>◌,
}
use t_orca.AntiRollback.{AnchoredMlsCheckpoint}
use t_orca.Client.Events.{RuntimeEvent}
use t_orca.Client.Session.{
  default_session, begin_transaction, commit_transaction, drain_events, pending_projection_changes,
}
use t_orca.Client.Action.{Client, Action}
use t_orca.Engine.Errors.{EngineError, EngineResult, FaultPoint, runtime_error, from_runtime}
use t_orca.Engine.State.{ResponsePayload, IdempotencyCommitContext, Engine, Host}

-- A method of the transaction: on an error the transaction is dropped.
unfoldable pub in_transaction : {A S : Type 0} → RuntimeResult A × S → EngineResult (A × S)
unfolding runtime_error
in_transaction (ok a, s) = ok (a, s)
in_transaction (err e, s) = err (runtime_error e)

-- The client runtime of a transaction.
module _ {S A : Type 0} where
  unfoldable pub opened : Engine S A → Client S
  unfolding begin_transaction
  opened engine = record {
    storage = engine.database;
    session = begin_transaction engine.session;
    clock = engine.clock;
    readings = engine.readings;
  }

  -- An early return of `?` inside the transaction: `mem::take` has left the default session behind.
  unfoldable pub abandon : Client S → Engine S A → Engine S A
  abandon c engine = record engine { session = default_session; readings = c.readings }

module _ {S A : Type 0} (host : Host S A) where
  open host use {storage, anchor, restore_epoch, to_json, faults}

  -- The revision after the operation, and the transaction with it.
  unfoldable pub bump_revision : Bool × List Text → S → EngineResult (ℕ × S)
  unfolding in_transaction from_runtime
  bump_revision changes tx = do
    head ← from_runtime (storage.projection_head tx)
    if changes.0
        then (do
          bumped ← in_transaction (storage.bump_projection_revision changes.1 tx)
          ok ((bumped.0).1, bumped.1))
        else ok (head.1, tx)

  -- The answer of the command is kept for a replay.
  unfoldable pub save_answer :
      Option IdempotencyCommitContext
      → EngineResult (Option ResponsePayload)
      → ℕ × S
      → EngineResult S
  unfolding in_transaction
  save_answer none response (revision, tx) = ok tx
  save_answer (some context) response (revision, tx) = do
    payload ← response
    elim payload [
      | none ↦ ok tx
      | some payload ↦ do
        result_json ← to_json payload
        saved ← in_transaction (
            storage.save_processed_command context.command_id context.command_descriptor result_json
              revision tx)
        ok saved.1
    ]

  -- What is done between the operation and the commit.
  unfoldable pub seal :
      Option IdempotencyCommitContext
      → EngineResult (Option ResponsePayload)
      → Bool × List Text
      → S
      → EngineResult S
  unfolding bump_revision save_answer
  seal idempotency response changes tx = do
    bumped ← bump_revision changes tx
    sealed ← save_answer idempotency response bumped
    faults FaultPoint.before_local_commit
    ok sealed

  -- `anchor.record_checkpoint` for each conversation, until one fails.
  unfoldable pub record_checkpoints : List Text → S → A → EngineResult Unit × A
  record_checkpoints [] database a = (ok tt, a)
  record_checkpoints (id ∷ ids) database a =
      elim (storage.conversation_mls_checkpoint database id) [
        | err e ↦ (err e, a)
        | ok none ↦ record_checkpoints ids database a
        | ok (some found) ↦ elim (restore_epoch found.snapshot) [
          | err message ↦ (err (EngineError.storage message), a)
          | ok epoch ↦
              let checkpoint : AnchoredMlsCheckpoint = record {
                state_version = found.state_version;
                epoch = epoch;
                snapshot_hash = unwrap_or found.snapshot_hash [];
              } in
              let (answer, a') = anchor.record_checkpoint id checkpoint a in
              elim answer [ err e ↦ (err e, a') | ok u ↦ record_checkpoints ids database a' ]
        ]
      ]

  unfoldable pub anchor_changes : List Text → Engine S A → EngineResult Unit × Engine S A
  unfolding record_checkpoints
  anchor_changes ids engine = elim engine.mls_anchor [
    | none ↦ (ok tt, engine)
    | some a ↦
        let (answer, a') = record_checkpoints ids engine.database a in
        (answer, record engine { mls_anchor = some a' })
  ]

  unfoldable pub projection_event : Bool × List Text → Engine S A → List RuntimeEvent
  projection_event changes engine =
      if changes.0
      then elim (storage.database_head engine.database) [
        | err e ↦ []
        | ok (store_id, revision) ↦
            RuntimeEvent.projection_changed store_id engine.engine_session_id revision true
              changes.1
            ∷ []
      ]
      else []

  -- The answer with its events, once the checkpoints are recorded.
  unfoldable pub answer_with :
      {R : Type 0}
      → R
      → List RuntimeEvent
      → Bool × List Text
      → EngineResult Unit × Engine S A
      → EngineResult (R × List RuntimeEvent) × Engine S A
  unfolding projection_event
  answer_with value events changes (err e, engine) = (err e, engine)
  answer_with value events changes (ok u, engine) =
      (ok (value, events ++ projection_event changes engine), engine)

  -- What follows a successful commit and the delivery of the events.
  unfoldable pub finish :
      {R : Type 0}
      → R
      → List RuntimeEvent
      → Bool × List Text
      → Engine S A
      → EngineResult (R × List RuntimeEvent) × Engine S A
  unfolding anchor_changes answer_with
  finish value events changes engine =
      answer_with value events changes (anchor_changes changes.1 engine)

  -- The transaction `tx` is committed, and the fault point after it has answered.
  unfoldable pub dispatch :
      {R : Type 0}
      → R
      → Client S
      → S
      → Engine S A
      → EngineResult Unit
      → EngineResult (R × List RuntimeEvent) × Engine S A
  unfolding abandon commit_transaction drain_events pending_projection_changes finish
  dispatch value c tx engine (err e) = (err e, record (abandon c engine) { database = tx })
  dispatch value c tx engine (ok u) =
      let (events, session) = drain_events (commit_transaction c.session) in
      finish value events (pending_projection_changes c.session)
        (record engine { database = tx; session = session; readings = c.readings })

  -- The commit of `tx` has answered.
  unfoldable pub committed :
      {R : Type 0}
      → R
      → Client S
      → S
      → Engine S A
      → RuntimeResult Unit
      → EngineResult (R × List RuntimeEvent) × Engine S A
  unfolding dispatch runtime_error
  committed value c tx engine (err e) =
      (err (runtime_error e), record engine { readings = c.readings })
  committed value c tx engine (ok u) =
      dispatch value c tx engine (faults FaultPoint.after_local_commit_before_dispatch)

  -- The operation has succeeded with `value` in the state `c`, and the transaction is sealed.
  unfoldable pub conclude :
      {R : Type 0}
      → R
      → Client S
      → Engine S A
      → EngineResult S
      → EngineResult (R × List RuntimeEvent) × Engine S A
  unfolding abandon committed
  conclude value c engine (err e) = (err e, abandon c engine)
  conclude value c engine (ok tx) = committed value c tx engine (storage.commit tx)

  -- The operation has answered.
  unfoldable pub settle :
      {R : Type 0}
      → Option IdempotencyCommitContext
      → (R → EngineResult (Option ResponsePayload))
      → Engine S A
      → RuntimeResult R × Client S
      → EngineResult (R × List RuntimeEvent) × Engine S A
  unfolding pending_projection_changes seal conclude runtime_error
  settle idempotency response engine (err e, c) =
      (err (runtime_error e), record engine { readings = c.readings })
  settle idempotency response engine (ok value, c) =
      conclude value c engine
        (seal idempotency (response value) (pending_projection_changes c.session) c.storage)

  unfoldable pub with_runtime_internal :
      {R : Type 0}
      → Action S R
      → Option IdempotencyCommitContext
      → (R → EngineResult (Option ResponsePayload))
      → Engine S A
      → EngineResult (R × List RuntimeEvent) × Engine S A
  unfolding opened settle
  with_runtime_internal op idempotency response engine =
      elim (storage.transaction engine.database) [
        | err e ↦ (err e, engine)
        | ok u ↦ settle idempotency response engine (op (opened engine))
      ]
