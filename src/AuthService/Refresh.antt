-- ===== src/AuthService/Refresh.antt =====
-- apps/auth_svc/services/auth_service.py: `refresh_token` and `logout`.

use mmo_backend_server.Prelude.{
  ℕ, String, Option, none, some, ◌==◌, if◌then◌else◌, Exec, pure, lift, ◌>>=◌, ◌>>◌,
}
use mmo_backend_server.Errors.{ErrorCode, auth_refresh_invalid}
use mmo_backend_server.Jwt.{Claims, decode_token}
use mmo_backend_server.Repository.{RefreshToken, get_refresh_token_by_jti, revoke_token}
use mmo_backend_server.AuthService.{
  World, Service, TokenData, Reply, refuse, truthy, on_db, in_session, issue_token_pair,
}

-- `payload.get("jti")`, if there is a payload and the claim is not empty.
abbrev pub claimed_jti : Option Claims → Option String
claimed_jti none = none
claimed_jti (some claims) = truthy claims.jti

module _ {Db Rd Raw : Type 0} (sv : Service Db Rd Raw) where
  -- The old token is revoked and a new pair is made, in one transaction. `old_token.account` is loaded
  -- when it is read, if the session allows that, and raises if not.
  unfoldable pub exchange : ℕ → String → RefreshToken → Exec (World Db Rd) (Reply TokenData)
  exchange now fresh_jti old_token = do
    on_db (revoke_token sv.orm now old_token)
    account ← on_db (sv.orm.account_of old_token)
    response_data ← issue_token_pair sv now fresh_jti account
    on_db sv.orm.commit
    pure (some response_data, none)

  unfoldable pub rotate :
      ℕ → String → String → Option RefreshToken → Exec (World Db Rd) (Reply TokenData)
  rotate now fresh_jti refresh_token_str none = pure (refuse auth_refresh_invalid)
  rotate now fresh_jti refresh_token_str (some old_token) =
      if old_token.token_hash == sv.password_manager.hash_refresh_token refresh_token_str
      then exchange now fresh_jti old_token
      else pure (refuse auth_refresh_invalid)

  unfoldable pub refresh_claimed :
      ℕ → String → String → Option String → Exec (World Db Rd) (Reply TokenData)
  refresh_claimed now fresh_jti refresh_token_str none = pure (refuse auth_refresh_invalid)
  refresh_claimed now fresh_jti refresh_token_str (some claimed) = in_session sv.orm (do
    jti ← lift (sv.parse_uuid claimed)
    old_token ← on_db (get_refresh_token_by_jti sv.orm jti now)
    rotate now fresh_jti refresh_token_str old_token)

  unfoldable pub refresh_token : ℕ → String → String → Exec (World Db Rd) (Reply TokenData)
  refresh_token now fresh_jti refresh_token_str = do
    payload ← lift (decode_token sv.codec sv.show sv.jwt_manager refresh_token_str)
    refresh_claimed now fresh_jti refresh_token_str (claimed_jti payload)

  unfoldable pub revoke_found : ℕ → Option RefreshToken → Exec (World Db Rd) (Option ErrorCode)
  revoke_found now none = pure none
  revoke_found now (some token) = do
    on_db (revoke_token sv.orm now token)
    on_db sv.orm.commit
    pure none

  unfoldable pub logout_claimed : ℕ → Option String → Exec (World Db Rd) (Option ErrorCode)
  logout_claimed now none = pure (some auth_refresh_invalid)
  logout_claimed now (some claimed) = in_session sv.orm (do
    jti ← lift (sv.parse_uuid claimed)
    token_to_revoke ← on_db (get_refresh_token_by_jti sv.orm jti now)
    revoke_found now token_to_revoke)

  unfoldable pub logout : ℕ → String → Exec (World Db Rd) (Option ErrorCode)
  logout now refresh_token_str = do
    payload ← lift (decode_token sv.codec sv.show sv.jwt_manager refresh_token_str)
    logout_claimed now (claimed_jti payload)
