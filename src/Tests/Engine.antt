-- ===== src/Tests/Engine.antt =====
-- Runs of the transactions and the command pipeline of the engine, over the storage of the runtime's
-- tests and a table of the kept answers.
use t_orca.Base.{
  ◌≡◌, refl, none, some, List, [], ◌∷◌, text_eq, trim, codes, RuntimeError, ok, err, ◌>>=◌, true,
  false,
}
use t_orca.Base.Int.{pos}
use t_orca.Client.Events.{RuntimeEvent}
use t_orca.Client.Session.{new_session}
use t_orca.Client.Action.{
  Action, on_session, pure, lift, query, store, publish, session_of, now_ms, choose,
}
use t_orca.Models.{ChatMessage}
use t_orca.Client.Incoming.{accept_incoming, incoming_message, receive_message_reply}
use t_orca.Client.Staging.Incoming.{receive_message_reply-Staged}
use t_orca.Client.Memory.{message_by_id, put_message, put_conversation}
use t_orca.Client.Calls.{RuntimeCall}
use t_orca.Engine.Errors.{EngineResult, runtime_error, technical_message}
use t_orca.Engine.State.{ResponsePayload, Engine}
use t_orca.Engine.Transaction.{with_runtime_internal}
use t_orca.Engine.Atomicity.{IsIdle}
use t_orca.Engine.Responses.{RuntimeErrorCategory, ResponseResult, from_error, failure_response}
use t_orca.Engine.Problems.{retryable_is_lost}
use t_orca.Operations.{RuntimeErrorCode}
use t_orca.Engine.Pipeline.{
  CommandContract, EngineCommandEnvelope, runtime_handler, process_command_input,
  extend_runtime_events, planned, respond, stop_if,
}
use t_orca.Engine.Replay.{repeated, process_once}
use t_orca.Tests.Client.{digit}
use t_orca.Tests.Disk.{
  Disk, a_disk, disk_storage, answer_of, disk, parse, a_host, disk-KeepsAnswers,
  receive_message_reply-LeavesAnswers,
}

abbrev an_engine : Engine Disk (Unit {0})
an_engine = record {
  database = a_disk;
  session = new_session;
  clock = λ n. pos 42;
  readings = 0;
  mls_anchor = none;
  engine_session_id = codes "session";
}

an_engine-IsIdle : IsIdle an_engine.session
an_engine-IsIdle = record { closed = refl; nothing_staged = refl; nothing_waits = refl }

abbrev some_calls : List RuntimeCall
some_calls =
    RuntimeCall.receive_message_reply (codes "peer-1") (codes " yo") 3 none
    ∷ RuntimeCall.foreground false
    ∷ RuntimeCall.retry_message (codes "7")
    ∷ []

-- A command that stores a message and answers with its text.
abbrev a_reception : Action Disk ChatMessage
a_reception = receive_message_reply disk_storage digit (codes "peer-1") (codes " yo") 3 none

abbrev body_of : ChatMessage → EngineResult ResponsePayload
body_of m = ok (ResponsePayload.json m.body)

abbrev a_contract : CommandContract
a_contract = record {
  wire_name = codes "message.receive";
  requires_command_id = true;
  idempotent = true;
}

abbrev an_envelope : EngineCommandEnvelope
an_envelope = record {
  request_id = codes "r1";
  command_id = some (codes "c1");
  command_type = codes "message.receive";
  contract = some a_contract;
  descriptor = codes "hash";
  is_shutdown = false;
}

abbrev a_result : EngineResult (ChatMessage × List RuntimeEvent) × Engine Disk (Unit {0})
a_result =
    with_runtime_internal (a_host disk) a_reception
      (some (record { command_id = codes "c1"; command_descriptor = codes "hash" }))
      (λ m. body_of m >>= λ payload. ok (some payload)) an_engine

abbrev an_after : Engine Disk (Unit {0})
an_after = a_result.1

-- The engine after it went on and counted a revision.
abbrev a_later : Engine Disk (Unit {0})
a_later = record an_after { database = record an_after.database { revision = 9 }; readings = 7 }

abbrev told : EngineResult (ChatMessage × List RuntimeEvent) → List RuntimeEvent
told (ok (m, events)) = events
told (err e) = []

abbrev a_payload : ResponsePayload
a_payload = ResponsePayload.json (codes "yo")

abbrev another : EngineCommandEnvelope
another = record an_envelope { request_id = codes "r2"; descriptor = codes "other" }

process_once_example :
    (process_command_input
        (a_host disk)
        digit
        parse
        (runtime_handler (a_host disk) digit parse a_reception body_of)
        an_envelope
        an_engine
      ≡ stop_if (a_host disk) digit parse false (
        respond
            (codes "r1")
            (ResponseResult.ok a_payload)
            (extend_runtime_events digit (told a_result.0) planned),
        an_after,
      ))
    × (process_command_input
          (a_host disk)
          digit
          parse
          (runtime_handler (a_host disk) digit parse a_reception body_of)
          another
          a_later
        ≡ stop_if (a_host disk) digit parse false (
          respond
              (codes "r2")
              (repeated
                (a_host disk)
                parse
                disk-KeepsAnswers
                (codes "hash")
                (codes "other")
                a_payload)
              planned,
          a_later,
        ))
unfolding with_runtime_internal receive_message_reply answer_of t_orca.Client.Action.◌>>=◌ query
    accept_incoming incoming_message message_by_id put_message put_conversation text_eq trim pure
    choose now_ms session_of store publish lift
process_once_example =
    process_once (a_host disk) parse disk-KeepsAnswers digit a_reception body_of a_contract
      a_contract an_envelope (codes "c1") an_engine an_after a_later
      (incoming_message (codes "3") (codes "peer-1") (codes "yo") none (pos 42)) (told a_result.0)
      a_payload (runtime_handler (a_host disk) digit parse a_reception body_of) another
      (receive_message_reply-Staged disk_storage digit (codes "peer-1") (codes " yo") 3 none)
      (receive_message_reply-LeavesAnswers digit (codes "peer-1") (codes " yo") 3 none)
      an_engine-IsIdle refl refl refl refl refl refl refl refl refl refl refl

retryable_is_lost_example :
    failure_response (runtime_error (RuntimeError.timeout (codes "no answer")))
    ≡ ResponseResult.error
        (codes "invalid_command")
        (codes "no answer")
        (record (from_error (RuntimeError.timeout (codes "no answer"))) {
          code = RuntimeErrorCode.invalid_input;
          category = RuntimeErrorCategory.validation;
          retryable = false;
        })
unfolding from_error technical_message
retryable_is_lost_example = retryable_is_lost (RuntimeError.timeout (codes "no answer")) refl
