-- ===== src/Engine/Responses.antt =====
-- The problems of packages/torchat-runtime/src/error.rs, and the answers of
-- packages/torchat-client-engine/src/event.rs that carry them.
use t_orca.Base.{
  Bool, true, false, ◌||◌, Option, none, some, if◌then◌else◌, Text, text_eq, codes, RuntimeError,
}
use t_orca.Operations.{RuntimeErrorCode}
use t_orca.Engine.Errors.{EngineError, error_code, technical_message}
use t_orca.Engine.State.{ResponsePayload}

pub data RuntimeErrorCategory : Type 0 where
  validation domain transport persistence : RuntimeErrorCategory
  security availability internal : RuntimeErrorCategory

pub record RuntimeProblem : Type 0 where
  pub code : RuntimeErrorCode
  pub category : RuntimeErrorCategory
  pub retryable : Bool
  pub operation_id : Option Text
  pub entity_id : Option Text
  pub diagnostic_context : Option Text

-- The code, the category and the retryability of a problem.
abbrev Kind : Type 0
Kind = RuntimeErrorCode × RuntimeErrorCategory × Bool

unfoldable pub problem_kind : RuntimeError → Kind
problem_kind (RuntimeError.invalid_command m) =
    (RuntimeErrorCode.invalid_input, RuntimeErrorCategory.validation, false)
problem_kind (RuntimeError.invalid_params m) =
    (RuntimeErrorCode.invalid_input, RuntimeErrorCategory.validation, false)
problem_kind (RuntimeError.not_found m) =
    (RuntimeErrorCode.not_found, RuntimeErrorCategory.domain, false)
problem_kind (RuntimeError.conflict m) =
    (RuntimeErrorCode.conflict, RuntimeErrorCategory.domain, false)
problem_kind (RuntimeError.timeout m) =
    (RuntimeErrorCode.temporarily_unavailable, RuntimeErrorCategory.availability, true)
problem_kind (RuntimeError.transport m) =
    (RuntimeErrorCode.transport_unavailable, RuntimeErrorCategory.transport, true)
problem_kind (RuntimeError.storage m) =
    (RuntimeErrorCode.storage_failed, RuntimeErrorCategory.persistence, false)
problem_kind (RuntimeError.crypto m) =
    (RuntimeErrorCode.crypto_failed, RuntimeErrorCategory.security, false)
problem_kind (RuntimeError.unavailable m) =
    (RuntimeErrorCode.temporarily_unavailable, RuntimeErrorCategory.availability, true)

unfoldable pub from_error : RuntimeError → RuntimeProblem
unfolding problem_kind technical_message
from_error error =
    let (code, category, retryable) = problem_kind error in
    record {
      code = code;
      category = category;
      retryable = retryable;
      operation_id = none;
      entity_id = none;
      diagnostic_context = some (technical_message error);
    }

unfoldable pub with_operation_id : Text → RuntimeProblem → RuntimeProblem
with_operation_id id problem = record problem { operation_id = some id }

unfoldable pub with_entity_id : Text → RuntimeProblem → RuntimeProblem
with_entity_id id problem = record problem { entity_id = some id }

unfoldable pub without_diagnostics : RuntimeProblem → RuntimeProblem
without_diagnostics problem = record problem { diagnostic_context = none }

pub data ResponseResult : Type 0 where
  ok : ResponsePayload → ResponseResult
  error : (code message : Text) → RuntimeProblem → ResponseResult

-- The `match` of `ResponseResult::error` on the words of the code.
unfoldable pub code_kind : Text → Kind
code_kind code =
    if text_eq code (codes "invalid_command") || text_eq code (codes "invalid_config")
    then (RuntimeErrorCode.invalid_input, RuntimeErrorCategory.validation, false)
    else if text_eq code (codes "idempotency_conflict")
    then (RuntimeErrorCode.conflict, RuntimeErrorCategory.domain, false)
    else if text_eq code (codes "closed") || text_eq code (codes "engine_closed")
    then (RuntimeErrorCode.temporarily_unavailable, RuntimeErrorCategory.availability, true)
    else if text_eq code (codes "transport")
    then (RuntimeErrorCode.transport_unavailable, RuntimeErrorCategory.transport, true)
    else if text_eq code (codes "storage")
    then (RuntimeErrorCode.storage_failed, RuntimeErrorCategory.persistence, false)
    else if text_eq code (codes "unsupported")
    then (RuntimeErrorCode.unsupported, RuntimeErrorCategory.availability, false)
    else (RuntimeErrorCode.internal, RuntimeErrorCategory.internal, false)

-- `ResponseResult::error`.
unfoldable pub error_response : Text → Text → ResponseResult
unfolding code_kind
error_response code message =
    let (stable_code, category, retryable) = code_kind code in
    ResponseResult.error code message (record {
      code = stable_code;
      category = category;
      retryable = retryable;
      operation_id = none;
      entity_id = none;
      diagnostic_context = some message;
    })

-- `EngineError::to_string`.
unfoldable pub error_message : EngineError → Text
error_message (EngineError.closed message) = message
error_message (EngineError.invalid_config message) = message
error_message (EngineError.invalid_command message) = message
error_message (EngineError.unsupported message) = message
error_message (EngineError.serialization message) = message
error_message (EngineError.storage message) = message
error_message (EngineError.transport message) = message

-- The answer to a command that has failed.
unfoldable pub failure_response : EngineError → ResponseResult
unfolding error_code error_message error_response
failure_response e = error_response (error_code e) (error_message e)
