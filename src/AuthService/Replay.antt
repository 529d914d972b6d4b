-- ===== src/AuthService/Replay.antt =====
-- A refresh token that was logged out is worth nothing afterwards.
use mmo_backend_server.Prelude.{ℕ, ◌≤◌, String, ◌≡◌, ◌≢◌, sym, subst, none, some, ok}
use mmo_backend_server.Repository.Contract.{Contract}
use mmo_backend_server.AuthService.{World, Service, TokenData}
use mmo_backend_server.AuthService.Refresh.{refresh_token, logout}
use mmo_backend_server.AuthService.DeadKeys.{IsDead}
use mmo_backend_server.AuthService.Rotation.{Presents, refresh_token-of-IsDead}
use mmo_backend_server.AuthService.Revocation.{logout-IsDead}

module _ {Db Rd Raw : Type 0} (sv : Service Db Rd Raw) (law : Contract sv.orm) where
  -- After a logout that answered with no error, no refresh with a token of the same key, at that time
  -- or later, issues a pair on the stored rows that the logout left. The database meets its contract.
  pub refresh_token-after-logout :
      (now later : ℕ) (next_jti text again jti : String) (p : Presents sv text jti)
      (q : Presents sv again jti) (w v : World Db Rd) (d : TokenData)
      → now ≤ later
      → (logout sv now text w).0 ≡ ok none
      → law.stored v.db ≡ law.stored (logout sv now text w).1.db
      → (refresh_token sv later next_jti again v).0 ≢ ok (some d, none)
  refresh_token-after-logout now later next_jti text again jti p q w v d le e same =
      refresh_token-of-IsDead sv law later next_jti again jti q v d
        (subst (IsDead jti later) (sym same) (logout-IsDead sv law now later text jti p w le e))
