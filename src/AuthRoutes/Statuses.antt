-- ===== src/AuthRoutes/Statuses.antt =====
-- The endpoints over the service's handlers: what the service answers, as the HTTP client sees it.
use mmo_backend_server.Prelude.{
  ℕ, String, ◌≡◌, ap, ◌∙◌, ◌&&◌, Option, none, some, ◌==◌, if◌then◌else◌, Exec, ok, pure, ◌>>=◌,
}
use mmo_backend_server.Errors.{
  error_code_to_http_status, internal_error, auth_refresh_invalid, auth_user_exists,
}
use mmo_backend_server.Errors.Statuses.{get_http_status-value, listed}
use mmo_backend_server.Repository.{Account, RegisterRequest}
use mmo_backend_server.AuthService.{World, Service, TokenData, IssueTokenRequest, Reply}
use mmo_backend_server.AuthService.Login.{issue_token}
use mmo_backend_server.AuthService.Register
use mmo_backend_server.AuthService.Refresh.{refresh_token}
use mmo_backend_server.Rpc.{RpcResponse}
use mmo_backend_server.Rpc.Handlers.{
  RefreshTokenResponse, RegisterResponse, process_issue_token, process_refresh_token,
  process_register, issue_response, refresh_response, register_response,
}
use mmo_backend_server.Names.Exchanges.{rpc}
use mmo_backend_server.Names.Queues.{
  auth_issue_token_rpc, auth_register_rpc, auth_refresh_token_rpc,
}
use mmo_backend_server.AuthRoutes.{
  Answer, Outcome, answered_or, api_response, http_exception, login, register, refresh,
}

-- An `RpcResponse` as the gateway reads its JSON: a dumped model has all its keys, unset ones null.
abbrev pub dumped : {A : Type 0} → RpcResponse A → Answer A
dumped r = record {
  ok_flag = r.success;
  error_code = some r.error_code;
  message = some r.message;
  payload = r.payload;
}

-- RPC calls where the queue of a handler is served, and no other: the handler has the payload of a call
-- to its queue and the call has the dumped response, and a call to any other queue has no answer.
abbrev pub served :
    {S Payload A : Type 0}
    → String
    → (Payload → Exec S (RpcResponse A))
    → String
    → String
    → Payload
    → Option String
    → Exec S (Option (Answer A))
served queue process exchange routing_key payload correlation_id =
    if exchange == rpc && routing_key == queue
    then (do response ← process payload; pure (some (dumped response)))
    else pure none

-- What the client gets for a reply of the service: what is made of its value, or an exception with the
-- status that the table gives the error code, 500 if it gives none, and the handler's text.
abbrev pub outcome : {A B : Type 0} → String → (A → B) → Outcome B → Reply A → Outcome B
outcome text shown missing (a, some code) =
    http_exception (listed (error_code_to_http_status code)) (some text)
outcome text shown missing (some a, none) = api_response (some (shown a))
outcome text shown missing (none, none) = missing

-- A call whose handler takes a reply of the service.
call_answered :
    {S Q A : Type 0} (m : Exec S Q) (response_of : Q → RpcResponse A)
    (outcome_of : Option (Answer A) → Outcome A) (s : S) {q : Q} {s' : S}
    → m s ≡ (ok q, s')
    → ((do response ← (m >>= λ q. pure (response_of q)); pure (some (dumped response)))
          >>= λ rpc_resp. pure (outcome_of rpc_resp))
        s
      ≡ (ok (outcome_of (some (dumped (response_of q)))), s')
call_answered {S} {Q} {A} m response_of outcome_of s e =
    ap
      (λ out.
        ((do
          response ← ((λ (_ : S). out) >>= λ q. pure (response_of q))
          pure (some (dumped response)))
            >>= λ rpc_resp. pure (outcome_of rpc_resp))
          s)
      e

abbrev pub pair_shown : TokenData → RefreshTokenResponse
pair_shown d = record {
  token = d.token;
  refresh_token = d.refresh_token;
  token_type = "Bearer";
  expires_in = d.expires_in;
  account_id = d.account_id;
}

abbrev pub account_shown : Account → RegisterResponse
account_shown a = record { account_id = a.id; email = a.email; username = a.username }

module _ {Db Rd Raw : Type 0} (sv : Service Db Rd Raw) where
  -- A login over the queue that the login's handler serves ends in what `issue_token` replies to the
  -- request, and leaves what that leaves. A pair is the data of the response. An error code is an
  -- exception with the status that the table gives the code, 500 if it gives none. Condition:
  -- `issue_token` returns.
  pub login-outcome :
      (now : ℕ) (fresh_jti : String) (body : IssueTokenRequest) (correlation_id : Option String)
      (w w' : World Db Rd) (reply : Reply TokenData)
      → issue_token sv now fresh_jti body w ≡ (ok reply, w')
      → login
          (served auth_issue_token_rpc (process_issue_token sv now fresh_jti))
          body
          correlation_id
          w
        ≡ (ok (outcome "Failed to issue token." (λ d. d) (api_response none) reply), w')
  unfolding login process_issue_token
  login-outcome now fresh_jti body correlation_id w w' (t, some code) e =
      call_answered (issue_token sv now fresh_jti body) issue_response
        (answered_or internal_error "Login failed.") w e
      ∙ ap (λ s. (ok (http_exception s (some "Failed to issue token.")), w'))
          (get_http_status-value code)
  login-outcome now fresh_jti body correlation_id w w' (some d, none) e =
      call_answered (issue_token sv now fresh_jti body) issue_response
        (answered_or internal_error "Login failed.") w e
  login-outcome now fresh_jti body correlation_id w w' (none, none) e =
      call_answered (issue_token sv now fresh_jti body) issue_response
        (answered_or internal_error "Login failed.") w e

  -- A refresh over the queue that the refresh's handler serves ends in what `refresh_token` replies to
  -- the request's token, and leaves what that leaves. A pair is the data of the response, with the
  -- token type "Bearer". An error code is an exception with the status that the table gives the code,
  -- 500 if it gives none. Condition: `refresh_token` returns.
  pub refresh-outcome :
      (now : ℕ) (fresh_jti token : String) (correlation_id : Option String) (w w' : World Db Rd)
      (reply : Reply TokenData)
      → refresh_token sv now fresh_jti token w ≡ (ok reply, w')
      → refresh
          (served auth_refresh_token_rpc (process_refresh_token sv now fresh_jti))
          token
          correlation_id
          w
        ≡ (
          ok (
              outcome "Failed to refresh token." pair_shown
                (http_exception 500 (some "Unexpected error."))
                reply),
          w',
        )
  unfolding refresh process_refresh_token mmo_backend_server.Errors.get_http_status
      mmo_backend_server.Errors.member_of mmo_backend_server.Errors.value error_code_to_http_status
  refresh-outcome now fresh_jti token correlation_id w w' (t, some code) e =
      call_answered (refresh_token sv now fresh_jti token) refresh_response
        (answered_or auth_refresh_invalid "Failed to refresh token.") w e
      ∙ ap (λ s. (ok (http_exception s (some "Failed to refresh token.")), w'))
          (get_http_status-value code)
  refresh-outcome now fresh_jti token correlation_id w w' (some d, none) e =
      call_answered (refresh_token sv now fresh_jti token) refresh_response
        (answered_or auth_refresh_invalid "Failed to refresh token.") w e
  refresh-outcome now fresh_jti token correlation_id w w' (none, none) e =
      call_answered (refresh_token sv now fresh_jti token) refresh_response
        (answered_or auth_refresh_invalid "Failed to refresh token.") w e

  -- A registration over the queue that the registration's handler serves ends in what the service's
  -- `register` replies to the request, and leaves what that leaves. The account's number, email and name
  -- are the data of the response. An error code is an exception with the status that the table gives
  -- the code, 500 if it gives none. Condition: the service's `register` returns.
  pub register-outcome :
      (body : RegisterRequest) (correlation_id : Option String) (w w' : World Db Rd)
      (reply : Reply Account)
      → Register.register sv body w ≡ (ok reply, w')
      → register (served auth_register_rpc (process_register sv)) body correlation_id w ≡ (
        ok (
            outcome "Registration failed." account_shown
              (http_exception 500 (some "Account not created."))
              reply),
        w',
      )
  unfolding register process_register mmo_backend_server.Errors.get_http_status
      mmo_backend_server.Errors.member_of mmo_backend_server.Errors.value error_code_to_http_status
  register-outcome body correlation_id w w' (t, some code) e =
      call_answered (Register.register sv body) register_response
        (answered_or auth_user_exists "Registration failed.") w e
      ∙ ap (λ s. (ok (http_exception s (some "Registration failed.")), w'))
          (get_http_status-value code)
  register-outcome body correlation_id w w' (some a, none) e =
      call_answered (Register.register sv body) register_response
        (answered_or auth_user_exists "Registration failed.") w e
  register-outcome body correlation_id w w' (none, none) e =
      call_answered (Register.register sv body) register_response
        (answered_or auth_user_exists "Registration failed.") w e
