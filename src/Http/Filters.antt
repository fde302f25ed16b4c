-- ===== src/Http/Filters.antt =====
-- The answers of a request: src/common/filters/all-exceptions.filter.ts,
-- src/common/filters/local-validation-exception.filter.ts and
-- src/common/interceptors/response-envelope.interceptor.ts.
use nestjs_scaffold.Base.{
  ℕ, String, Bool, true, Option, none, some, ◌≡◌, refl, or_else, leb, if◌then◌else◌,
}
use nestjs_scaffold.Json.{Json, null, str, obj, Fields, prop, is_object}
use nestjs_scaffold.Env.{Env, World, TenantStore}
use nestjs_scaffold.Tenancy.{current_tenant}

-- What is thrown: an HttpException with its status and response, or anything else, by its text.
pub data Exception : Type 0 where
  http_exception : ℕ → Json → Exception
  unexpected : String → Exception

pub record ErrorBody : Type 0 where
  pub status_code : ℕ
  pub message : Json
  pub error : Option Json
  pub code : Option Json
  pub details : Option Json
  pub path : Option String
  pub method : Option String
  pub request_id : Option String
  pub tenant_id : Option String
  pub timestamp : ℕ

-- `exception.getStatus()` and `exception.getResponse()`, where it is an HttpException
abbrev pub status_of : Exception → ℕ
status_of (http_exception status response) = status
status_of (unexpected text) = 500

abbrev pub response_of : Exception → Option Json
response_of (http_exception status response) = some response
response_of (unexpected text) = none

abbrev pub payload_of : Option Json → Json
payload_of r = if is_object r then or_else r null else obj Fields.end

-- `v ?? default`
abbrev pub or_default : Option Json → Json → Json
or_default none d = d
or_default (some null) d = d
or_default (some v) d = v

abbrev pub message_of : Option Json → Json
message_of (some (str s)) = str s
message_of r = or_default (prop "message" (payload_of r)) (str "Internal server error")

abbrev pub store_request_id : Option TenantStore → Option String
store_request_id none = none
store_request_id (some s) = some s.request_id

module _ (env : Env) (url method : Option String) where
  -- `catch`: the body of the reply, and whether the exception is logged. The status of the reply is the
  -- body's.
  unfoldable pub answer : Exception → World env → ErrorBody × Bool
  answer exception w = (
    record {
      status_code = status_of exception;
      message = message_of (response_of exception);
      error = prop "error" (payload_of (response_of exception));
      code = prop "code" (payload_of (response_of exception));
      details = prop "details" (payload_of (response_of exception));
      path = url;
      method = method;
      request_id = store_request_id w.store;
      tenant_id = current_tenant env w;
      timestamp = w.now;
    },
    leb 500 (status_of exception),
  )

  -- `catch` of a BadRequestException with its response, on a response object with the method
  -- `status`; the status of the reply is 400.
  unfoldable pub answer_bad_request : Json → World env → ErrorBody
  answer_bad_request body w = record {
    status_code = 400;
    message = or_else (prop "message" body) (str "Validation failed");
    error = some (str "Bad Request");
    code = some (str "VALIDATION_FAILED");
    details = some body;
    path = url;
    method = method;
    request_id = store_request_id w.store;
    tenant_id = current_tenant env w;
    timestamp = w.now;
  }

  -- An exception that is no HttpException is logged and answered with status 500, a fixed message and
  -- nothing else of the exception; its text does not reach the client.
  pub unexpected_hidden :
      (text other : String) (w : World env)
      → (answer (unexpected text) w ≡ answer (unexpected other) w)
        × ((answer (unexpected text) w).1 ≡ true)
        × ((answer (unexpected text) w).0.status_code ≡ 500)
        × ((answer (unexpected text) w).0.message ≡ str "Internal server error")
  unfolding answer
  unexpected_hidden text other w = (refl, refl, refl, refl)

pub record Envelope (A : Type 0) : Type 0 where
  pub success : Bool
  pub request_id : Option String
  pub result : A

-- The answer of a method that returns.
abbrev pub intercept : {A : Type 0} → (env : Env) → World env → A → Envelope A
intercept env w a = record { success = true; request_id = store_request_id w.store; result = a }
