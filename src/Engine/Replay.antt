-- ===== src/Engine/Replay.antt =====
-- What the stored answer of a command with an id makes of a repetition
-- (packages/torchat-client-engine/src/actor/command_pipeline/processor.rs).
use t_orca.Base.{
  ℕ, ◌≡◌, refl, inl, inr, true, false, ◌∙◌, Option, none, some, List, is_empty, if◌then◌else◌, Text,
  text_eq, text_eq_refl, codes, ok, ◌>>=◌, Bool-cases,
}
use t_orca.Client.Events.{RuntimeEvent}
use t_orca.Client.Action.{Action}
use t_orca.Client.Staging.{Staged}
use t_orca.Engine.Errors.{EngineResult}
use t_orca.Engine.State.{Host, Engine, ResponsePayload, IdempotencyCommitContext}
use t_orca.Engine.Transaction.{with_runtime_internal}
use t_orca.Engine.Atomicity.{IsIdle}
use t_orca.Engine.Responses.{ResponseResult, error_response}
use t_orca.Engine.Pipeline.{
  CommandContract, EngineCommandEnvelope, Handler, planned, respond, replayed,
  extend_runtime_events, runtime_handler, stop_if, process_command_input,
}
use t_orca.Engine.Kept.{KeepsAnswers, LeavesAnswers, answered-found}

module _ {S A : Type 0} (host : Host S A) (parse_json : Text → Option ResponsePayload)
    (keeps : KeepsAnswers host parse_json) where
  -- The answer to a repetition: the stored payload, or a conflict for another command.
  abbrev pub repeated : Text → Text → ResponsePayload → ResponseResult
  repeated descriptor other payload =
      if text_eq descriptor other
      then ResponseResult.ok payload
      else error_response (codes "idempotency_conflict")
          (codes "command id was already used for a different command")

  replayed_lem :
      (descriptor other result_json : Text) (payload : ResponsePayload)
      → parse_json result_json ≡ some payload
      → replayed parse_json other descriptor result_json ≡ repeated descriptor other payload
  unfolding replayed
  replayed_lem descriptor other json payload parsed = elim (Bool-cases (text_eq descriptor other)) [
    | inl e ↦ rw e (rw parsed refl)
    | inr e ↦ rw e refl
  ]

  module _ {R : Type 0} (uuid_text : ℕ → Text) (op : Action S R)
      (payload_of : R → EngineResult ResponsePayload) where
    handler_lem :
        (context : Option IdempotencyCommitContext) (engine after : Engine S A) (value : R)
        (events : List RuntimeEvent) (payload : ResponsePayload)
        → with_runtime_internal host op context
            (λ value. payload_of value >>= λ payload. ok (some payload))
            engine
          ≡ (ok (value, events), after)
        → payload_of value ≡ ok payload
        → runtime_handler host uuid_text parse_json op payload_of context engine
          ≡ (ok (payload, events), after)
    unfolding runtime_handler
    handler_lem context engine after value events payload ran made = rw ran (rw made refl)

    -- The stored answer is what a repetition gets, and its handler is not run.
    replay_lem :
        (again : Handler S A) (contract : CommandContract) (envelope : EngineCommandEnvelope)
        (id descriptor result_json : Text) (revision : ℕ) (payload : ResponsePayload)
        (engine : Engine S A)
        → envelope.contract ≡ some contract
        → contract.idempotent ≡ true
        → envelope.command_id ≡ some id
        → is_empty id ≡ false
        → (host.storage).load_processed_command engine.database id
          ≡ ok (some (descriptor, result_json, revision))
        → parse_json result_json ≡ some payload
        → process_command_input host uuid_text parse_json again envelope engine
          ≡ stop_if host uuid_text parse_json envelope.is_shutdown (
            respond envelope.request_id (repeated descriptor envelope.descriptor payload) planned,
            engine,
          )
    unfolding process_command_input
    replay_lem again contract envelope id descriptor json revision payload engine known idempotent
          named nonempty found parsed =
        rw (known, process_command_input)
          (rw (named, nonempty)
            (elim (Bool-cases contract.requires_command_id) [
              | inl e ↦ rw e (
                  rw (idempotent, found)
                    (rw (replayed_lem descriptor envelope.descriptor json payload parsed) refl))
              | inr e ↦ rw e (
                  rw (idempotent, found)
                    (rw (replayed_lem descriptor envelope.descriptor json payload parsed) refl))
            ]))

    -- A first performance: the answer of the operation, with its events.
    first_lem :
        (contract : CommandContract) (envelope : EngineCommandEnvelope) (id result_json : Text)
        (revision : ℕ) (engine after : Engine S A) (value : R) (events : List RuntimeEvent)
        (payload : ResponsePayload)
        → envelope.contract ≡ some contract
        → contract.idempotent ≡ true
        → envelope.command_id ≡ some id
        → is_empty id ≡ false
        → (host.storage).load_processed_command engine.database id ≡ ok none
        → runtime_handler host uuid_text parse_json op payload_of
            (some (record { command_id = id; command_descriptor = envelope.descriptor }))
            engine
          ≡ (ok (payload, events), after)
        → (host.storage).load_processed_command after.database id
          ≡ ok (some (envelope.descriptor, result_json, revision))
        → process_command_input host uuid_text parse_json
            (runtime_handler host uuid_text parse_json op payload_of)
            envelope
            engine
          ≡ stop_if host uuid_text parse_json envelope.is_shutdown (
            respond envelope.request_id
                (ResponseResult.ok payload)
                (extend_runtime_events uuid_text events planned),
            after,
          )
    unfolding process_command_input
    first_lem contract envelope id json revision engine after value events payload known idempotent
          named nonempty fresh ran found =
        rw (known, process_command_input)
          (rw (named, nonempty)
            (elim (Bool-cases contract.requires_command_id) [
              | inl e ↦ rw e (
                  rw (idempotent, fresh)
                    (rw ran (rw found (rw (text_eq_refl envelope.descriptor) refl))))
              | inr e ↦ rw e (
                  rw (idempotent, fresh)
                    (rw ran (rw found (rw (text_eq_refl envelope.descriptor) refl))))
            ]))

    -- A command with an id that the engine has not seen, whose operation only stages events, leaves
    -- the table of answers alone and is answered from an idle engine, is answered with its payload
    -- and events, and the answer is kept in the database. As long as the database still has the row
    -- that is kept for the id, whatever else has happened to the engine since, every idempotent
    -- command with the id, whatever its handler, leaves the engine as it is: it gets the same
    -- payload again if its descriptor is the same, and a conflict otherwise.
    pub process_once :
        (contract contract' : CommandContract) (envelope : EngineCommandEnvelope) (id : Text)
        (engine after later : Engine S A) (value : R) (events : List RuntimeEvent)
        (payload : ResponsePayload) (again : Handler S A) (other : EngineCommandEnvelope)
        → Staged op
        → LeavesAnswers host op
        → IsIdle engine.session
        → contract.idempotent ≡ true
        → is_empty id ≡ false
        → envelope.contract ≡ some contract
        → envelope.command_id ≡ some id
        → (host.storage).load_processed_command engine.database id ≡ ok none
        → with_runtime_internal host op
            (some (record { command_id = id; command_descriptor = envelope.descriptor }))
            (λ value. payload_of value >>= λ payload. ok (some payload))
            engine
          ≡ (ok (value, events), after)
        → payload_of value ≡ ok payload
        → (host.storage).load_processed_command later.database id
          ≡ (host.storage).load_processed_command after.database id
        → other.contract ≡ some contract'
        → contract'.idempotent ≡ true
        → other.command_id ≡ some id
        → (process_command_input host uuid_text parse_json
              (runtime_handler host uuid_text parse_json op payload_of)
              envelope
              engine
            ≡ stop_if host uuid_text parse_json envelope.is_shutdown (
              respond envelope.request_id
                  (ResponseResult.ok payload)
                  (extend_runtime_events uuid_text events planned),
              after,
            ))
          × (process_command_input host uuid_text parse_json again other later
              ≡ stop_if host uuid_text parse_json other.is_shutdown (
                respond other.request_id
                    (repeated envelope.descriptor other.descriptor payload)
                    planned,
                later,
              ))
    process_once contract contract' envelope id engine after later value events payload again other
          staged leaves idle idempotent nonempty known named fresh ran made still known' idempotent'
          named' =
        let context : IdempotencyCommitContext = record {
          command_id = id;
          command_descriptor = envelope.descriptor;
        } in
        let (json, revision, found, parsed) =
          answered-found host parse_json keeps op payload_of context engine after value events
            payload staged leaves idle fresh ran made in
        let performed = handler_lem (some context) engine after value events payload ran made in
        (
          first_lem contract envelope id json revision engine after value events payload known
              idempotent named nonempty fresh performed found,
          replay_lem again contract' other id envelope.descriptor json revision payload later known'
              idempotent' named' nonempty (still ∙ found) parsed,
        )
