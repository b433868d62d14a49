-- ===== src/Core/Exceptions.antt =====
-- app/core/exceptions.py and app/api/error_handlers.py: the exceptions of the application, and the
-- response that each becomes.
pub mod Contract
use ject6_4th_ai_analyzer.Base.{
  ℕ, ◌+◌, ◌/◌, ◌++◌, max, Option, none, some, Text, codes, is_empty, if◌then◌else◌,
}

-- The subclasses of `AppException` that carry nothing more, and the class itself.
pub data Kind : Type 0 where
  app_exception not_found validation_error token_limit_exceeded llm_client_error : Kind
  external_service_error : Kind

-- Python's own exceptions, and those of the libraries.
pub data Builtin : Type 0 where
  key_error value_error type_error assertion_error json_decode_error other_error : Builtin
  openai_rate_limit_error openai_api_error redis_response_error : Builtin

-- `raised` has the message and the keyword `code`.
pub data Exception : Type 0 where
  raised : Kind → Text → Option Text → Exception
  rate_limit_exceeded : Text → ℕ → Exception
  builtin : Builtin → Text → Exception

-- `str(exc)`; a `KeyError` shows the key in quotes.
unfoldable pub exception_text : Exception → Text
exception_text (raised _ message _) = message
exception_text (rate_limit_exceeded message _) = message
exception_text (builtin key_error key) = codes "'" ++ key ++ codes "'"
exception_text (builtin _ message) = message

unfoldable pub class_code : Kind → Text
class_code app_exception = codes "INTERNAL_ERROR"
class_code not_found = codes "NOT_FOUND"
class_code validation_error = codes "VALIDATION_ERROR"
class_code token_limit_exceeded = codes "TOKEN_LIMIT_EXCEEDED"
class_code llm_client_error = codes "LLM_CLIENT_ERROR"
class_code external_service_error = codes "EXTERNAL_SERVICE_ERROR"

unfoldable pub class_status : Kind → ℕ
class_status app_exception = 500
class_status not_found = 404
class_status validation_error = 400
class_status token_limit_exceeded = 400
class_status llm_client_error = 502
class_status external_service_error = 502

-- `if code: self.code = code`
unfoldable pub instance_code : Kind → Option Text → Text
unfolding class_code
instance_code kind none = class_code kind
instance_code kind (some code) = if is_empty code then class_code kind else code

pub record Response : Type 0 where
  pub status_code : ℕ
  pub code : Text
  pub message : Text
  pub retry_after_ms : Option ℕ
  pub retry_after_header : Option ℕ

-- `max(1, (exc.retry_after_ms + 999) // 1000)`
unfoldable pub retry_after_sec : ℕ → ℕ
retry_after_sec ms = max 1 ((ms + 999) / 1000)

-- The handlers of `register_exception_handlers`, the one of the nearest class first.
unfoldable pub handle_exception : Exception → Response
unfolding retry_after_sec instance_code class_status
handle_exception (rate_limit_exceeded message ms) = record {
  status_code = 429;
  code = codes "RATE_LIMIT_EXCEEDED";
  message = message;
  retry_after_ms = some ms;
  retry_after_header = some (retry_after_sec ms);
}
handle_exception (raised kind message code) = record {
  status_code = class_status kind;
  code = instance_code kind code;
  message = message;
  retry_after_ms = none;
  retry_after_header = none;
}
handle_exception (builtin _ _) = record {
  status_code = 500;
  code = codes "INTERNAL_ERROR";
  message = codes "internal server error";
  retry_after_ms = none;
  retry_after_header = none;
}
