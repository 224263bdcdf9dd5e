-- ===== src/Engine/Pipeline.antt =====
-- packages/torchat-client-engine/src/actor/command_pipeline/processor.rs: how the actor processes one
-- command, with the output of processing.rs. The contract of the command, from the generated table,
-- and its descriptor (`idempotency_descriptor`, a SHA-256 of the JSON) come with the envelope; the
-- trace of the stages is left out, with the three commands that wait for the relay, the connection
-- snapshot, and what a handler leaves in `pending_engine_events`.
use t_orca.Base.{
  ℕ, Bool, true, false, not, ◌&&◌, Option, none, some, List, [], ◌∷◌, ◌++◌, map, is_empty,
  is_some_and, if◌then◌else◌, Text, text_eq, codes, ok, err, ◌>>=◌,
}
use t_orca.Changes.{ChangeSet, no_changes}
use t_orca.Client.Events.{RuntimeEvent}
use t_orca.Client.Changes.{merge_events}
use t_orca.Client.Action.{Action}
use t_orca.Engine.Errors.{EngineError, EngineResult}
use t_orca.Engine.State.{Host, Engine, ResponsePayload, IdempotencyCommitContext}
use t_orca.Engine.Transaction.{with_runtime_internal}
use t_orca.Engine.Responses.{ResponseResult, error_response, failure_response}

-- The part of `CommandContract` that the pipeline reads.
pub record CommandContract : Type 0 where
  pub wire_name : Text
  pub requires_command_id : Bool
  pub idempotent : Bool

pub record EngineCommandEnvelope : Type 0 where
  pub request_id : Text
  pub command_id : Option Text
  pub command_type : Text
  pub contract : Option CommandContract
  pub descriptor : Text
  pub is_shutdown : Bool

pub data EngineEvent : Type 0 where
  runtime : RuntimeEvent → EngineEvent
  response : (request_id : Text) → ResponseResult → EngineEvent

-- `should_stop` is `control == Stop`.
pub record EngineProcessingResult : Type 0 where
  pub events : List EngineEvent
  pub changes : ChangeSet
  pub scheduler_plan_changed : Bool
  pub should_stop : Bool

unfoldable pub empty_result : EngineProcessingResult
unfolding no_changes
empty_result = record {
  events = [];
  changes = no_changes;
  scheduler_plan_changed = false;
  should_stop = false;
}

unfoldable pub extend_runtime_events :
    (ℕ → Text) → List RuntimeEvent → EngineProcessingResult → EngineProcessingResult
unfolding merge_events
extend_runtime_events uuid_text events r = record r {
  events = r.events ++ map EngineEvent.runtime events;
  changes = merge_events uuid_text r.changes events;
}

unfoldable pub respond : Text → ResponseResult → EngineProcessingResult → EngineProcessingResult
respond request_id result r = record r {
  events = r.events ++ EngineEvent.response request_id result ∷ [];
}

-- `command_error_result`.
unfoldable pub command_error_result : Text → EngineError → EngineProcessingResult
unfolding empty_result respond failure_response
command_error_result request_id error = respond request_id (failure_response error) empty_result

-- The result with which the processing of a known command starts.
unfoldable pub planned : EngineProcessingResult
unfolding empty_result
planned = record empty_result { scheduler_plan_changed = true }

-- The answer that is stored for a command id.
unfoldable pub replayed : (Text → Option ResponsePayload) → Text → Text → Text → ResponseResult
unfolding error_response
replayed parse_json descriptor stored_type result_json =
    if not (text_eq stored_type descriptor)
    then error_response (codes "idempotency_conflict")
        (codes "command id was already used for a different command")
    else elim (parse_json result_json) [
      | some payload ↦ ResponseResult.ok payload
      | none ↦
          error_response (codes "idempotency_corrupt") (codes "stored command result is invalid")
    ]

-- A handler of `handle_command`, with the context of an idempotent command.
abbrev pub Handler : Type 0 → Type 0 → Type 0
Handler S A =
    Option IdempotencyCommitContext
    → Engine S A
    → EngineResult (ResponsePayload × List RuntimeEvent) × Engine S A

module _ {S A : Type 0} (host : Host S A) (uuid_text : ℕ → Text)
    (parse_json : Text → Option ResponsePayload) where
  open host use {storage, to_json}

  -- A handler of actor/commands that runs one operation of the runtime and answers by its value.
  unfoldable pub runtime_handler :
      {R : Type 0} → Action S R → (R → EngineResult ResponsePayload) → Handler S A
  unfolding with_runtime_internal
  runtime_handler op payload_of idempotency engine =
      let (answer, engine') =
        with_runtime_internal host op idempotency
          (λ value. payload_of value >>= λ payload. ok (some payload)) engine in
      ((answer >>= λ told. payload_of told.0 >>= λ payload. ok (payload, told.1)), engine')

  unfoldable pub load_replay :
      CommandContract → Option Text → S → EngineResult (Option (Text × Text × ℕ))
  load_replay contract none database = ok none
  load_replay contract (some id) database =
      if contract.idempotent then storage.load_processed_command database id else ok none

  unfoldable pub commit_context :
      CommandContract → EngineCommandEnvelope → Option IdempotencyCommitContext
  commit_context contract envelope =
      if contract.idempotent
      then (elim envelope.command_id [
        | none ↦ none
        | some id ↦ some (record { command_id = id; command_descriptor = envelope.descriptor })
      ])
      else none

  -- The answer of a handler that has not kept it is kept now; what the database answers for the id.
  unfoldable pub keep_missing :
      Text
      → Text
      → ResponsePayload
      → EngineResult (Option (Text × Text × ℕ))
      → Engine S A
      → EngineResult Unit × Engine S A
  keep_missing id descriptor payload (err e) engine = (err e, engine)
  keep_missing id descriptor payload (ok (some (stored_type, json, revision))) engine =
      if text_eq stored_type descriptor then (ok tt, engine) else (
        err (
            EngineError.storage (
              codes "command id "
              ++ id
              ++ codes " was persisted for "
              ++ stored_type
              ++ codes " instead of "
              ++ descriptor)),
        engine,
      )
  keep_missing id descriptor payload (ok none) engine =
      elim (storage.database_head engine.database) [
        | err e ↦ (err e, engine)
        | ok (store_id, revision) ↦ elim (to_json payload) [
          | err e ↦ (err e, engine)
          | ok result_json ↦
              let (answer, database) =
                storage.save_processed id descriptor result_json revision engine.database in
              (answer, record engine { database = database })
        ]
      ]

  unfoldable pub keep_answer :
      Option IdempotencyCommitContext
      → ResponsePayload
      → Engine S A
      → EngineResult Unit × Engine S A
  unfolding keep_missing
  keep_answer none payload engine = (ok tt, engine)
  keep_answer (some context) payload engine =
      keep_missing context.command_id context.command_descriptor payload
        (storage.load_processed_command engine.database context.command_id) engine

  -- `if should_stop { result.control = Stop }`.
  unfoldable pub stop_if :
      Bool → EngineProcessingResult × Engine S A → EngineProcessingResult × Engine S A
  stop_if stop (r, engine) = (if stop then record r { should_stop = true } else r, engine)

  -- The handler has answered, and what it answered is kept. An early return does not stop the actor.
  unfoldable pub answered :
      EngineCommandEnvelope
      → ResponsePayload
      → List RuntimeEvent
      → EngineResult Unit × Engine S A
      → EngineProcessingResult × Engine S A
  unfolding command_error_result planned extend_runtime_events respond stop_if
  answered envelope payload events (err e, engine) =
      (command_error_result envelope.request_id e, engine)
  answered envelope payload events (ok u, engine) = stop_if envelope.is_shutdown (
    respond envelope.request_id (ResponseResult.ok payload)
        (extend_runtime_events uuid_text events planned),
    engine,
  )

  unfoldable pub handled :
      EngineCommandEnvelope
      → Option IdempotencyCommitContext
      → EngineResult (ResponsePayload × List RuntimeEvent) × Engine S A
      → EngineProcessingResult × Engine S A
  unfolding failure_response planned respond keep_answer answered stop_if
  handled envelope context (err e, engine) =
      stop_if envelope.is_shutdown
        (respond envelope.request_id (failure_response e) planned, engine)
  handled envelope context (ok (payload, events), engine) =
      answered envelope payload events (keep_answer context payload engine)

  -- The command is known and has its id; the stored answer of the id has been looked up.
  unfoldable pub execute :
      Handler S A
      → CommandContract
      → EngineCommandEnvelope
      → Engine S A
      → EngineResult (Option (Text × Text × ℕ))
      → EngineProcessingResult × Engine S A
  unfolding command_error_result replayed planned respond commit_context handled stop_if
  execute handle contract envelope engine (err e) =
      (command_error_result envelope.request_id e, engine)
  execute handle contract envelope engine (ok (some (stored_type, json, revision))) =
      stop_if envelope.is_shutdown (
        respond envelope.request_id (replayed parse_json envelope.descriptor stored_type json)
            planned,
        engine,
      )
  execute handle contract envelope engine (ok none) =
      let context = commit_context contract envelope in
      handled envelope context (handle context engine)

  unfoldable pub process_command_input :
      Handler S A → EngineCommandEnvelope → Engine S A → EngineProcessingResult × Engine S A
  unfolding command_error_result load_replay execute
  process_command_input handle envelope engine = elim envelope.contract [
    | none ↦ (
      command_error_result envelope.request_id (
          EngineError.invalid_command (
            codes "command type is not present in the generated contract: "
            ++ envelope.command_type)),
      engine,
    )
    | some contract ↦
        if contract.requires_command_id
          && not (is_some_and (λ (id : Text). not (is_empty id)) envelope.command_id)
        then (
          command_error_result envelope.request_id (
              EngineError.invalid_command
                (codes "durable command " ++ contract.wire_name ++ codes " requires commandId")),
          engine,
        )
        else execute handle contract envelope engine
            (load_replay contract envelope.command_id engine.database)
  ]
