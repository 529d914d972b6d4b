-- ===== src/AuthService/Login.antt =====
-- apps/auth_svc/services/auth_service.py: `issue_token`, with its protection against guessing.
use Prim.Native.String.{◌++◌}
use mmo_backend_server.Prelude.{
  ℕ, String, Option, none, some, [], ◌∷◌, nat_eq, leb, if◌then◌else◌, connection_error, Result, ok,
  raised, Exec, pure, raise, lift, ◌>>=◌, ◌>>◌,
}
use mmo_backend_server.Errors.{auth_invalid_credentials, auth_forbidden}
use mmo_backend_server.Names.{key_auth_ban, key_auth_failed_attempts}
use mmo_backend_server.RedisClient
use mmo_backend_server.Repository.{Account, Credentials, get_by_username, set_last_login}
use mmo_backend_server.AuthService.{
  World, Service, TokenData, IssueTokenRequest, Reply, refuse, truthy, on_db, on_redis, in_session,
  issue_token_pair,
}

module _ {Db Rd Raw : Type 0} (sv : Service Db Rd Raw) where
  -- The test hook: a flag in Redis makes one call fail.
  unfoldable pub fail_once : String → Exec (World Db Rd) (Unit {0})
  fail_once username = do
    let fail_flag_key = "test:fail_once:auth.issue_token:" ++ username
    flagged ← on_redis (RedisClient.exists sv.redis sv.client (fail_flag_key ∷ []))
    if nat_eq flagged 0 then pure tt else do
      on_redis (RedisClient.delete sv.redis sv.client (fail_flag_key ∷ []))
      raise connection_error

  -- The bookkeeping of a failed attempt.
  unfoldable pub ban_if_reached : String → ℕ → Exec (World Db Rd) (Unit {0})
  ban_if_reached username attempts =
      if leb sv.bruteforce_max_attempts attempts
      then (do
        on_redis (
            RedisClient.set sv.redis sv.client (key_auth_ban username) "1"
              (some sv.bruteforce_lock_ttl_sec))
        on_redis (RedisClient.delete sv.redis sv.client (key_auth_failed_attempts username ∷ []))
        pure tt)
      else pure tt

  unfoldable pub note_failure : String → Exec (World Db Rd) (Unit {0})
  note_failure username =
      if sv.client.redis
      then (do
        attempts ← on_redis (sv.redis.incr (key_auth_failed_attempts username))
        if nat_eq attempts 1
            then on_redis
                (sv.redis.expire (key_auth_failed_attempts username) sv.bruteforce_window_ttl_sec)
            else pure tt
        ban_if_reached username attempts)
      else pure tt

  -- The account, if it has credentials and the password fits them.
  abbrev pub verified : String → Account → Option Credentials → Result (Option Account)
  verified password account none = ok none
  verified password account (some c) =
      elim (sv.password_manager.verify_password password c.password_hash) [
        | ok fits ↦ ok (if fits then some account else none)
        | raised e ↦ raised e
      ]

  abbrev pub check_password : String → Option Account → Result (Option Account)
  check_password password none = ok none
  check_password password (some account) = verified password account account.credentials

  unfoldable pub finish_login :
      ℕ → String → String → Option Account → Exec (World Db Rd) (Reply TokenData)
  finish_login now fresh_jti username none = do
    note_failure username
    pure (refuse auth_invalid_credentials)
  finish_login now fresh_jti username (some account) = do
    on_redis (RedisClient.delete sv.redis sv.client (key_auth_failed_attempts username ∷ []))
    response_data ← issue_token_pair sv now fresh_jti account
    on_db (set_last_login sv.orm account.id now)
    on_db sv.orm.commit
    pure (some response_data, none)

  unfoldable pub login : ℕ → String → String → String → Exec (World Db Rd) (Reply TokenData)
  login now fresh_jti username password = in_session sv.orm (do
    account ← on_db (get_by_username sv.orm username)
    checked ← lift (check_password password account)
    finish_login now fresh_jti username checked)

  unfoldable pub issue_checked :
      ℕ → String → Option String → Option String → Exec (World Db Rd) (Reply TokenData)
  issue_checked now fresh_jti none password = pure (refuse auth_invalid_credentials)
  issue_checked now fresh_jti (some username) none = pure (refuse auth_invalid_credentials)
  issue_checked now fresh_jti (some username) (some password) = do
    if sv.is_test then fail_once username else pure tt
    banned ← on_redis (RedisClient.exists sv.redis sv.client (key_auth_ban username ∷ []))
    if nat_eq banned 0 then login now fresh_jti username password else pure (refuse auth_forbidden)

  unfoldable pub issue_token : ℕ → String → IssueTokenRequest → Exec (World Db Rd) (Reply TokenData)
  issue_token now fresh_jti dto =
      issue_checked now fresh_jti (truthy dto.username) (truthy dto.password)
