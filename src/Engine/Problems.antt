-- ===== src/Engine/Problems.antt =====
-- What the answer to a failed command keeps of the runtime's error (actor/state.rs and event.rs of
-- packages/torchat-client-engine/src, packages/torchat-runtime/src/error.rs).
use t_orca.Base.{◌≡◌, refl, true, false, text_eq, codes, RuntimeError}
use t_orca.Operations.{RuntimeErrorCode}
use t_orca.Engine.Errors.{technical_message, runtime_error}
use t_orca.Engine.Responses.{RuntimeErrorCategory, ResponseResult, from_error, failure_response}

-- An error of the runtime whose own problem is retryable, a timeout, a transport failure or an
-- unavailability, is answered as invalid input that is not to be retried.
pub retryable_is_lost :
    (e : RuntimeError)
    → (from_error e).retryable ≡ true
    → failure_response (runtime_error e)
      ≡ ResponseResult.error
          (codes "invalid_command")
          (technical_message e)
          (record (from_error e) {
            code = RuntimeErrorCode.invalid_input;
            category = RuntimeErrorCategory.validation;
            retryable = false;
          })
unfolding failure_response runtime_error from_error text_eq
retryable_is_lost (RuntimeError.invalid_command m) h = cc
retryable_is_lost (RuntimeError.invalid_params m) h = cc
retryable_is_lost (RuntimeError.not_found m) h = cc
retryable_is_lost (RuntimeError.conflict m) h = cc
retryable_is_lost (RuntimeError.timeout m) h = refl
retryable_is_lost (RuntimeError.transport m) h = refl
retryable_is_lost (RuntimeError.storage m) h = cc
retryable_is_lost (RuntimeError.crypto m) h = cc
retryable_is_lost (RuntimeError.unavailable m) h = refl
