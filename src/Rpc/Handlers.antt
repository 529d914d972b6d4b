-- ===== src/Rpc/Handlers.antt =====
-- apps/auth_svc/handlers/auth_{issue_token,register,refresh_token,logout}_rpc_handler.py.
use mmo_backend_server.Prelude.{ℕ, String, true, Option, none, some, Exec, pure, ◌>>=◌}
use mmo_backend_server.Errors.{ErrorCode, value}
use mmo_backend_server.Repository.{Account, RegisterRequest}
use mmo_backend_server.AuthService.{World, Service, TokenData, IssueTokenRequest, Reply}
use mmo_backend_server.AuthService.Login.{issue_token}
use mmo_backend_server.AuthService.Register.{register}
use mmo_backend_server.AuthService.Refresh.{refresh_token, logout}
use mmo_backend_server.Rpc.{RpcResponse, success_with, failure}

-- libs/domain/dto/auth.py
pub record RegisterResponse : Type 0 where
  pub account_id : ℕ
  pub email : String
  pub username : String

pub record RefreshTokenResponse : Type 0 where
  pub token : String
  pub refresh_token : String
  pub token_type : String
  pub expires_in : ℕ
  pub account_id : ℕ

-- `if error: ... return RpcResponse(success=True, data=token)`, whatever `token` is.
abbrev pub issue_response : Reply TokenData → RpcResponse TokenData
issue_response (token, some error) = failure (value error) "Failed to issue token."
issue_response (some token, none) = success_with token
issue_response (none, none) = record {
  success = true;
  payload = none;
  error_code = none;
  message = none;
  correlation_id = none;
}

abbrev pub refresh_response : Reply TokenData → RpcResponse RefreshTokenResponse
refresh_response (token_data, some error) = failure (value error) "Failed to refresh token."
refresh_response (some token_data, none) = success_with (record {
  token = token_data.token;
  refresh_token = token_data.refresh_token;
  token_type = "Bearer";
  expires_in = token_data.expires_in;
  account_id = token_data.account_id;
})
refresh_response (none, none) = failure "common.internal_error" "Unexpected error."

abbrev pub register_response : Reply Account → RpcResponse RegisterResponse
register_response (account, some error) = failure (value error) "Registration failed."
register_response (some account, none) =
    success_with
      (record { account_id = account.id; email = account.email; username = account.username })
register_response (none, none) = failure "auth.internal_error" "Account not created."

abbrev pub logout_response : Option ErrorCode → RpcResponse (Unit {0})
logout_response (some error) = failure (value error) "Logout failed."
logout_response none = success_with tt

module _ {Db Rd Raw : Type 0} (sv : Service Db Rd Raw) where
  unfoldable pub process_issue_token :
      ℕ → String → IssueTokenRequest → Exec (World Db Rd) (RpcResponse TokenData)
  process_issue_token now fresh_jti dto = do
    reply ← issue_token sv now fresh_jti dto
    pure (issue_response reply)

  unfoldable pub process_register :
      RegisterRequest → Exec (World Db Rd) (RpcResponse RegisterResponse)
  process_register dto = do reply ← register sv dto; pure (register_response reply)

  -- The request is its `refresh_token`.
  unfoldable pub process_refresh_token :
      ℕ → String → String → Exec (World Db Rd) (RpcResponse RefreshTokenResponse)
  process_refresh_token now fresh_jti token = do
    reply ← refresh_token sv now fresh_jti token
    pure (refresh_response reply)

  -- The data of a success is `LogoutResponse()`, which has no content of its own.
  unfoldable pub process_logout : ℕ → String → Exec (World Db Rd) (RpcResponse (Unit {0}))
  process_logout now token = do error ← logout sv now token; pure (logout_response error)
