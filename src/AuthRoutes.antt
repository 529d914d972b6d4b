-- ===== src/AuthRoutes.antt =====
-- apps/gateway/rest/auth/auth_routes.py: the HTTP endpoints over the RPC calls.
-- `call_rpc` is the bus's; an empty or absent answer is `none`. The request's correlation ID is read
-- from its headers by the caller, and the body is already a model.
pub mod Statuses
use mmo_backend_server.Prelude.{
  ℕ, String, Bool, true, false, Option, none, some, List, [], ◌∷◌, ◌==◌, if◌then◌else◌, Exec, pure,
  ◌>>=◌, ◌>>◌,
}
use mmo_backend_server.Errors.{
  ErrorCode, value, internal_error, auth_user_exists, auth_refresh_invalid, rpc_timeout,
  get_http_status,
}
use mmo_backend_server.Names.Exchanges.{rpc}
use mmo_backend_server.Names.Queues.{
  auth_issue_token_rpc, auth_validate_token_rpc, auth_register_rpc, auth_refresh_token_rpc,
  auth_logout_rpc,
}

-- The keys of an answer that the routes read. The outer `none` is a key that is absent, the inner
-- one a null. `ok_flag` is the truth of "success", and of "valid" for the validation.
pub record Answer (A : Type 0) : Type 0 where
  pub ok_flag : Bool
  pub error_code : Option (Option String)
  pub message : Option (Option String)
  pub payload : Option A

-- What an endpoint ends in: `APIResponse(success=True, data=...)` or an `HTTPException`.
pub data Outcome (A : Type 0) : Type 0 where
  api_response : Option A → Outcome A
  http_exception : ℕ → Option String → Outcome A

-- `d.get(key, default)`
abbrev pub get_or : String → Option (Option String) → Option String
get_or default none = some default
get_or default (some v) = v

-- `get_http_status`, which a null also sends to 500.
abbrev pub status_of : Option String → ℕ
status_of none = 500
status_of (some error_code) = get_http_status error_code

-- `if not rpc_resp or not rpc_resp.get("success")`, with the code and the text of the endpoint.
abbrev pub answered_or : {A : Type 0} → ErrorCode → String → Option (Answer A) → Outcome A
answered_or code message none =
    http_exception (get_http_status (value rpc_timeout)) (some "Auth service timeout.")
answered_or code message (some rpc_resp) =
    if rpc_resp.ok_flag
    then api_response rpc_resp.payload
    else http_exception (status_of (get_or (value code) rpc_resp.error_code))
        (get_or message rpc_resp.message)

abbrev pub validated_or : {A : Type 0} → Option (Answer A) → Outcome A
validated_or none = http_exception 401 (some "Auth service timeout.")
validated_or (some rpc_resp) =
    if rpc_resp.ok_flag
    then api_response rpc_resp.payload
    else http_exception 401 (get_or "Invalid token" rpc_resp.message)

-- The header's parts: exactly two, the first of them "bearer" in any case.
abbrev pub bearer_token : (String → String) → List String → Option String
bearer_token lower (token_type ∷ token ∷ []) =
    if lower token_type == "bearer" then some token else none
bearer_token lower _ = none

module _ {S Payload A : Type 0}
    (call_rpc : String → String → Payload → Option String → Exec S (Option (Answer A))) where
  unfoldable pub login : Payload → Option String → Exec S (Outcome A)
  login body correlation_id = do
    rpc_resp ← call_rpc rpc auth_issue_token_rpc body correlation_id
    pure (answered_or internal_error "Login failed." rpc_resp)

  unfoldable pub register : Payload → Option String → Exec S (Outcome A)
  register body correlation_id = do
    rpc_resp ← call_rpc rpc auth_register_rpc body correlation_id
    pure (answered_or auth_user_exists "Registration failed." rpc_resp)

  unfoldable pub refresh : Payload → Option String → Exec S (Outcome A)
  refresh body correlation_id = do
    rpc_resp ← call_rpc rpc auth_refresh_token_rpc body correlation_id
    pure (answered_or auth_refresh_invalid "Failed to refresh token." rpc_resp)

  -- The answer is not read.
  unfoldable pub logout : Payload → Option String → Exec S (Unit {0})
  logout body correlation_id = call_rpc rpc auth_logout_rpc body correlation_id >> pure tt

  module _ (split : String → List String) (lower : String → String)
      (with_token : String → Payload) where
    abbrev validate_bearer : Option String → Option String → Exec S (Outcome A)
    validate_bearer correlation_id none =
        pure (http_exception 401 (some "Invalid authorization header format"))
    validate_bearer correlation_id (some token) = do
      rpc_resp ← call_rpc rpc auth_validate_token_rpc (with_token token) correlation_id
      pure (validated_or rpc_resp)

    unfoldable pub validate_token : String → Option String → Exec S (Outcome A)
    validate_token authorization correlation_id =
        validate_bearer correlation_id (bearer_token lower (split authorization))
