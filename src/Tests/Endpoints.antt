-- ===== src/Tests/Endpoints.antt =====
-- The authentication service behind its listeners and the gateway's endpoints.
use mmo_backend_server.Prelude.{
  String, ◌≡◌, refl, Option, none, some, List, [], ◌∷◌, ◌++◌, Exec, ok,
}
use mmo_backend_server.Errors.{auth_invalid_credentials, auth_user_exists}
use mmo_backend_server.Names.{key_auth_ban, key_auth_failed_attempts}
use mmo_backend_server.Names.Queues.{
  auth_issue_token_rpc, auth_register_rpc, auth_refresh_token_rpc,
}
use mmo_backend_server.Jwt.{decode_token, create_access_token, create_refresh_token}
use mmo_backend_server.Repository.{
  RegisterRequest, get_by_username, get_refresh_token_by_jti, revoke_token,
}
use mmo_backend_server.AuthService.{IssueTokenRequest, refuse, TokenData, issue_token_pair}
use mmo_backend_server.AuthService.Login.{
  issue_token, issue_checked, login, finish_login, note_failure, ban_if_reached,
}
use mmo_backend_server.AuthService.Register
use mmo_backend_server.AuthService.Refresh.{refresh_token, refresh_claimed, rotate, exchange}
use mmo_backend_server.Rpc.{Body, Meta, RpcResponse}
use mmo_backend_server.Rpc.Handlers.{process_issue_token, process_refresh_token, process_register}
use mmo_backend_server.Rpc.Answers.{Answers, Publishes, Sent}
use mmo_backend_server.AuthRoutes
use mmo_backend_server.AuthRoutes.{http_exception, api_response}
use mmo_backend_server.AuthRoutes.Statuses.{
  served, outcome, pair_shown, account_shown, login-outcome, refresh-outcome, register-outcome,
}
use mmo_backend_server.Tests.AuthService.{sv, world, pair}

-- A bus whose state is what was sent.
abbrev Outbox : Type 0
Outbox = List (Sent (RpcResponse (Unit {0})))

abbrev publish : String → Body (RpcResponse (Unit {0})) → Option String → Exec Outbox (Unit {0})
publish to body id out =
    (ok tt, out ++ record { reply_to = to; body = body; correlation_id = id } ∷ [])

abbrev publishes : Publishes publish
publishes = record {
  sent = λ out. out;
  returns = λ to body id out. refl;
  adds = λ to body id out. refl;
}

abbrev meta : Meta
meta = record { reply_to = some "q"; correlation_id = some "c" }

abbrev guess : IssueTokenRequest
guess = record { username = some "ann"; password = some "x" }

refused :
    issue_token sv 100 "t2" guess world
    ≡ (ok (refuse auth_invalid_credentials), (issue_token sv 100 "t2" guess world).1)
unfolding issue_token issue_checked login finish_login note_failure ban_if_reached get_by_username
    key_auth_failed_attempts key_auth_ban
refused = refl

login-outcome_example :
    AuthRoutes.login
      (served auth_issue_token_rpc (process_issue_token sv 100 "t2"))
      guess
      none
      world
    ≡ (
      ok (
          outcome "Failed to issue token."
            (λ (d : TokenData). d)
            (api_response none)
            (refuse auth_invalid_credentials)),
      (issue_token sv 100 "t2" guess world).1,
    )
login-outcome_example =
    login-outcome sv 100 "t2" guess none world (issue_token sv 100 "t2" guess world).1
      (refuse auth_invalid_credentials) refused

refreshed :
    refresh_token sv 100 "t2" "t1" world
    ≡ (ok (some pair, none), (refresh_token sv 100 "t2" "t1" world).1)
unfolding refresh_token refresh_claimed rotate exchange decode_token get_refresh_token_by_jti
    revoke_token issue_token_pair create_access_token create_refresh_token
    mmo_backend_server.Repository.create_refresh_token
refreshed = refl

refresh-outcome_example :
    AuthRoutes.refresh
      (served auth_refresh_token_rpc (process_refresh_token sv 100 "t2"))
      "t1"
      none
      world
    ≡ (ok (api_response (some (pair_shown pair))), (refresh_token sv 100 "t2" "t1" world).1)
refresh-outcome_example =
    refresh-outcome sv 100 "t2" "t1" none world (refresh_token sv 100 "t2" "t1" world).1
      (some pair, none) refreshed

-- A name that has an account.
abbrev again : RegisterRequest
again = record { email = "a@c"; username = "ann"; password = "pw2" }

taken :
    Register.register sv again world
    ≡ (ok (refuse auth_user_exists), (Register.register sv again world).1)
unfolding Register.register Register.register_account get_by_username
taken = refl

register-outcome_example :
    AuthRoutes.register (served auth_register_rpc (process_register sv)) again none world ≡ (
      ok (
          outcome "Registration failed." account_shown
            (http_exception 500 (some "Account not created."))
            (refuse auth_user_exists)),
      (Register.register sv again world).1,
    )
register-outcome_example =
    register-outcome sv again none world (Register.register sv again world).1
      (refuse auth_user_exists) taken
