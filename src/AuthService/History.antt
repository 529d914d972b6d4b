-- ===== src/AuthService/History.antt =====
-- Sequences of calls of the service, and the refresh tokens that were used up before them.
use mmo_backend_server.Prelude.{ℕ, String, ◌≡◌, ◌≢◌, none, some, List, [], ◌∷◌, ok}
use mmo_backend_server.Repository.{RegisterRequest}
use mmo_backend_server.Repository.Contract.{Contract}
use mmo_backend_server.AuthService.{World, Service, TokenData, IssueTokenRequest}
use mmo_backend_server.AuthService.Register.{register}
use mmo_backend_server.AuthService.Login.{issue_token}
use mmo_backend_server.AuthService.Refresh.{refresh_token, logout}
use mmo_backend_server.AuthService.Rotation.{Presents, refresh_token-Spent, refresh_token-of-IsDead}
use mmo_backend_server.AuthService.Safety
use mmo_backend_server.AuthService.Safety.Refreshing.{refresh_token-Keeps, logout-Keeps}
use mmo_backend_server.AuthService.Safety.Registering.{register-Keeps}
use mmo_backend_server.AuthService.Safety.Logins.{issue_token-Keeps}

-- A call of the service, with the time that it reads, the key that it draws and its argument.
pub data Call : Type 0 where
  register_call : RegisterRequest → Call
  issue_token_call : ℕ → String → IssueTokenRequest → Call
  refresh_token_call : ℕ → String → String → Call
  logout_call : ℕ → String → Call

module _ {Db Rd Raw : Type 0} (sv : Service Db Rd Raw) where
  -- What a call leaves, whatever it returns or raises.
  unfoldable pub after_call : Call → World Db Rd → World Db Rd
  after_call (register_call dto) w = (register sv dto w).1
  after_call (issue_token_call now fresh_jti dto) w = (issue_token sv now fresh_jti dto w).1
  after_call (refresh_token_call now fresh_jti text) w = (refresh_token sv now fresh_jti text w).1
  after_call (logout_call now text) w = (logout sv now text w).1

  unfoldable pub after_calls : List Call → World Db Rd → World Db Rd
  after_calls [] w = w
  after_calls (call ∷ calls) w = after_calls calls (after_call call w)

module _ {Db Rd Raw : Type 0} (sv : Service Db Rd Raw) (law : Contract sv.orm) where
  after_call-Out :
      (jti : String) (later : ℕ) (call : Call) (w : World Db Rd)
      → Safety.Out sv law jti later w
      → Safety.Out sv law jti later (after_call sv call w)
  unfolding after_call
  after_call-Out jti later (register_call dto) = register-Keeps sv law jti later dto
  after_call-Out jti later (issue_token_call now fresh_jti dto) =
      issue_token-Keeps sv law jti later now fresh_jti dto
  after_call-Out jti later (refresh_token_call now fresh_jti text) =
      refresh_token-Keeps sv law jti later now fresh_jti text
  after_call-Out jti later (logout_call now text) = logout-Keeps sv law jti later now text

  after_calls-Out :
      (jti : String) (later : ℕ) (calls : List Call) (w : World Db Rd)
      → Safety.Out sv law jti later w
      → Safety.Out sv law jti later (after_calls sv calls w)
  unfolding after_calls
  after_calls-Out jti later [] w h = h
  after_calls-Out jti later (call ∷ calls) w h =
      after_calls-Out jti later calls (after_call sv call w) (after_call-Out jti later call w h)

  -- A refresh token is used up for good: once `refresh_token` has issued a pair for it, any sequence
  -- of further calls of the service (registrations, logins, refreshes and logouts, one after the
  -- other, each with any arguments and whether it returns or raises) ends where a refresh with a token
  -- of the same key issues no pair, at any time. The database meets its contract.
  pub refresh_token-never_again :
      (now later : ℕ) (fresh_jti next_jti text again jti : String) (p : Presents sv text jti)
      (q : Presents sv again jti) (calls : List Call) (w : World Db Rd) (d d' : TokenData)
      → (refresh_token sv now fresh_jti text w).0 ≡ ok (some d, none)
      → (refresh_token sv later next_jti again
          (after_calls sv calls (refresh_token sv now fresh_jti text w).1)).0
        ≢ ok (some d', none)
  refresh_token-never_again now later fresh_jti next_jti text again jti p q calls w d d' e =
      let used : World Db Rd = (refresh_token sv now fresh_jti text w).1 in
      refresh_token-of-IsDead sv law later next_jti again jti q (after_calls sv calls used) d'
        (after_calls-Out jti later calls used
          (refresh_token-Spent sv law now later fresh_jti text jti p w d e)).1
