-- ===== src/Errors.antt =====
-- libs/app/errors.py: the error codes and their HTTP statuses.
pub mod Statuses
use mmo_backend_server.Prelude.{
  ℕ, String, Bool, false, true, Option, none, some, List, [], ◌∷◌, ◌==◌, if◌then◌else◌,
}

pub data ErrorCode : Type 0 where
  auth_invalid_credentials auth_token_expired auth_invalid_token auth_user_exists : ErrorCode
  auth_registration_disabled auth_forbidden auth_refresh_invalid auth_refresh_expired : ErrorCode
  rpc_timeout rpc_bad_response validation_failed not_implemented internal_error : ErrorCode

-- The text that the member of the `str` enumeration stands for.
unfoldable pub value : ErrorCode → String
value auth_invalid_credentials = "auth.invalid_credentials"
value auth_token_expired = "auth.token_expired"
value auth_invalid_token = "auth.invalid_token"
value auth_user_exists = "auth.user_exists"
value auth_registration_disabled = "auth.registration_disabled"
value auth_forbidden = "auth.forbidden"
value auth_refresh_invalid = "auth.refresh_invalid"
value auth_refresh_expired = "auth.refresh_expired"
value rpc_timeout = "rpc.timeout"
value rpc_bad_response = "rpc.bad_response"
value validation_failed = "validation.failed"
value not_implemented = "common.not_implemented"
value internal_error = "common.internal_error"

abbrev pub members : List ErrorCode
members =
    auth_invalid_credentials ∷ auth_token_expired ∷ auth_invalid_token ∷ auth_user_exists
    ∷ auth_registration_disabled ∷ auth_forbidden ∷ auth_refresh_invalid ∷ auth_refresh_expired
    ∷ rpc_timeout ∷ rpc_bad_response ∷ validation_failed ∷ not_implemented ∷ internal_error ∷ []

-- Python's call `ErrorCode(text)`: the first member with that value; `none` is the `ValueError`.
unfoldable pub member_of : List ErrorCode → String → Option ErrorCode
unfolding value
member_of [] text = none
member_of (c ∷ cs) text = if value c == text then some c else member_of cs text

-- `ERROR_CODE_TO_HTTP_STATUS.get(code)`
unfoldable pub error_code_to_http_status : ErrorCode → Option ℕ
error_code_to_http_status auth_invalid_credentials = some 401
error_code_to_http_status auth_token_expired = some 401
error_code_to_http_status auth_invalid_token = some 401
error_code_to_http_status auth_forbidden = some 403
error_code_to_http_status auth_user_exists = some 409
error_code_to_http_status auth_refresh_invalid = some 401
error_code_to_http_status auth_refresh_expired = some 401
error_code_to_http_status validation_failed = some 400
error_code_to_http_status rpc_timeout = some 504
error_code_to_http_status rpc_bad_response = some 502
error_code_to_http_status not_implemented = some 501
error_code_to_http_status internal_error = some 500
error_code_to_http_status auth_registration_disabled = none

abbrev status_or_500 : Option ErrorCode → ℕ
status_or_500 none = 500
status_or_500 (some code) = elim (error_code_to_http_status code) [ none ↦ 500 | some s ↦ s ]

unfoldable pub get_http_status : String → ℕ
get_http_status error_code = status_or_500 (member_of members error_code)
