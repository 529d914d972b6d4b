-- ===== src/AuthService/Safety/Logins.antt =====
-- `issue_token` keeps a used-up key used up, however it ends.
use mmo_backend_server.Prelude.{
  ℕ, String, Option, none, some, [], ◌∷◌, nat_eq, leb, if◌then◌else◌, Exec, lift, pure, raise,
  ◌>>=◌, Keeps, Keeps-bind, Keeps-if, connection_error, raise, Triple,
}
use mmo_backend_server.Repository.{Account, has_username, get_by_username, set_last_login}
use mmo_backend_server.Repository.Contract.{Contract}
use mmo_backend_server.AuthService.{
  World, Service, TokenData, Reply, refuse, IssueTokenRequest, truthy, on_db, on_redis,
  issue_token_pair,
}
use mmo_backend_server.Errors.{auth_invalid_credentials, auth_forbidden}
use mmo_backend_server.AuthService.Safety
use mmo_backend_server.AuthService.Login.{
  fail_once, ban_if_reached, note_failure, check_password, finish_login, login, issue_checked,
  issue_token,
}
use mmo_backend_server.RedisClient
use mmo_backend_server.Names.{key_auth_ban, key_auth_failed_attempts}
use Prim.Native.String.{◌++◌}

module _ {Db Rd Raw : Type 0} (sv : Service Db Rd Raw) (law : Contract sv.orm) (jti : String)
    (later : ℕ) where
  abbrev Out : World Db Rd → Type 0
  Out = Safety.Out sv law jti later

  abbrev In : World Db Rd → Type 0
  In = Safety.In sv law jti later

  abbrev Safe : {A : Type 0} → Exec (World Db Rd) A → Type 0
  Safe m = Triple In In Out m

  fail_once-Keeps : (username : String) → Keeps Out (fail_once sv username)
  unfolding fail_once
  fail_once-Keeps username =
      let key : String = "test:fail_once:auth.issue_token:" ++ username in
      let k2 : ℕ → Exec (World Db Rd) (Unit {0}) = λ _. raise connection_error in
      let drop : Exec (World Db Rd) ℕ =
        on_redis (RedisClient.delete sv.redis sv.client (key ∷ [])) in
      let k1 : ℕ → Exec (World Db Rd) (Unit {0}) =
        λ flagged. if nat_eq flagged 0 then pure tt else (drop >>= k2) in
      Keeps-bind Out (on_redis (RedisClient.exists sv.redis sv.client (key ∷ []))) k1 (λ w h. h)
        (λ flagged.
          Keeps-if Out (nat_eq flagged 0) (pure tt) (drop >>= k2) (λ w h. h)
            (Keeps-bind Out drop k2 (λ w h. h) (λ _ w h. h)))

  ban_if_reached-Safe : (username : String) (n : ℕ) → Safe (ban_if_reached sv username n)
  unfolding ban_if_reached
  ban_if_reached-Safe username n =
      let set_ban : Exec Rd (Unit {0}) =
        RedisClient.set sv.redis sv.client (key_auth_ban username) "1"
          (some sv.bruteforce_lock_ttl_sec) in
      let drop : Exec Rd ℕ =
        RedisClient.delete sv.redis sv.client (key_auth_failed_attempts username ∷ []) in
      let k2 : ℕ → Exec (World Db Rd) (Unit {0}) = λ _. pure tt in
      let k1 : Unit {0} → Exec (World Db Rd) (Unit {0}) = λ _. on_redis drop >>= k2 in
      Safety.if-Safe sv law jti later (leb sv.bruteforce_max_attempts n) (on_redis set_ban >>= k1)
        (pure tt)
        (Safety.Safe-bind sv law jti later (on_redis set_ban) k1
          (Safety.on_redis-Safe sv law jti later set_ban)
          (λ _.
            Safety.Safe-bind sv law jti later (on_redis drop) k2
              (Safety.on_redis-Safe sv law jti later drop) (λ _ w h. h)))
        (λ w h. h)

  note_failure-Safe : (username : String) → Safe (note_failure sv username)
  unfolding note_failure
  note_failure-Safe username =
      let key : String = key_auth_failed_attempts username in
      let expire : Exec Rd (Unit {0}) = sv.redis.expire key sv.bruteforce_window_ttl_sec in
      let window : ℕ → Exec (World Db Rd) (Unit {0}) =
        λ n. if nat_eq n 1 then on_redis expire else pure tt in
      let k2 : ℕ → Unit {0} → Exec (World Db Rd) (Unit {0}) = λ n _. ban_if_reached sv username n in
      let k1 : ℕ → Exec (World Db Rd) (Unit {0}) = λ n. window n >>= k2 n in
      Safety.if-Safe sv law jti later sv.client.redis (on_redis (sv.redis.incr key) >>= k1)
        (pure tt)
        (Safety.Safe-bind sv law jti later (on_redis (sv.redis.incr key)) k1
          (Safety.on_redis-Safe sv law jti later (sv.redis.incr key))
          (λ n.
            Safety.Safe-bind sv law jti later (window n) (k2 n)
              (Safety.if-Safe sv law jti later (nat_eq n 1) (on_redis expire) (pure tt)
                (Safety.on_redis-Safe sv law jti later expire) (λ w h. h))
              (λ _. ban_if_reached-Safe username n)))
        (λ w h. h)

  finish_login-Safe :
      (now : ℕ) (fresh_jti username : String) (checked : Option Account)
      → Safe (finish_login sv now fresh_jti username checked)
  unfolding finish_login
  finish_login-Safe now fresh_jti username none =
      let k1 : Unit {0} → Exec (World Db Rd) (Reply TokenData) =
        λ _. pure (refuse auth_invalid_credentials) in
      Safety.Safe-bind sv law jti later (note_failure sv username) k1 (note_failure-Safe username)
        (λ _ w h. h)
  finish_login-Safe now fresh_jti username (some account) =
      let drop : Exec Rd ℕ =
        RedisClient.delete sv.redis sv.client (key_auth_failed_attempts username ∷ []) in
      let k4 : TokenData → Unit {0} → Exec (World Db Rd) (Reply TokenData) =
        λ d _. pure (some d, none) in
      let k3 : TokenData → Unit {0} → Exec (World Db Rd) (Reply TokenData) =
        λ d _. on_db sv.orm.commit >>= k4 d in
      let k2 : TokenData → Exec (World Db Rd) (Reply TokenData) =
        λ d. on_db (set_last_login sv.orm account.id now) >>= k3 d in
      let k1 : ℕ → Exec (World Db Rd) (Reply TokenData) =
        λ _. issue_token_pair sv now fresh_jti account >>= k2 in
      Safety.Safe-bind sv law jti later (on_redis drop) k1
        (Safety.on_redis-Safe sv law jti later drop)
        (λ _.
          Safety.Safe-bind sv law jti later (issue_token_pair sv now fresh_jti account) k2
            (Safety.issue_token_pair-Safe sv law jti later now fresh_jti account)
            (λ d.
              Safety.Safe-bind sv law jti later (on_db (set_last_login sv.orm account.id now))
                (k3 d) (Safety.set_last_login-Safe sv law jti later account.id now)
                (λ _.
                  Safety.Safe-bind sv law jti later (on_db sv.orm.commit) (k4 d)
                    (Safety.commit-Safe sv law jti later) (λ _ w h. h))))

  login-Keeps :
      (now : ℕ) (fresh_jti username password : String)
      → Keeps Out (login sv now fresh_jti username password)
  unfolding login get_by_username
  login-Keeps now fresh_jti username password =
      let find : Exec Db (Option Account) = sv.orm.select_account (has_username username) in
      let k2 : Option Account → Exec (World Db Rd) (Reply TokenData) =
        finish_login sv now fresh_jti username in
      let k1 : Option Account → Exec (World Db Rd) (Reply TokenData) =
        λ account. lift (check_password sv password account) >>= k2 in
      Safety.in_session-Safe sv law jti later (on_db find >>= k1) (
        Safety.Safe-bind sv law jti later (on_db find) k1
          (Safety.select_account-Safe sv law jti later (has_username username))
          (λ account.
            Safety.Safe-bind sv law jti later (lift (check_password sv password account)) k2
              (Safety.lift-Safe sv law jti later (check_password sv password account))
              (finish_login-Safe now fresh_jti username)))

  issue_checked-Keeps :
      (now : ℕ) (fresh_jti : String) (username password : Option String)
      → Keeps Out (issue_checked sv now fresh_jti username password)
  unfolding issue_checked
  issue_checked-Keeps now fresh_jti none password = λ w h. h
  issue_checked-Keeps now fresh_jti (some username) none = λ w h. h
  issue_checked-Keeps now fresh_jti (some username) (some password) =
      let attempt : Exec (World Db Rd) (Reply TokenData) =
        login sv now fresh_jti username password in
      let k2 : ℕ → Exec (World Db Rd) (Reply TokenData) =
        λ n. if nat_eq n 0 then attempt else pure (refuse auth_forbidden) in
      let ask : Exec (World Db Rd) ℕ =
        on_redis (RedisClient.exists sv.redis sv.client (key_auth_ban username ∷ [])) in
      let k1 : Unit {0} → Exec (World Db Rd) (Reply TokenData) = λ _. ask >>= k2 in
      Keeps-bind Out (if sv.is_test then fail_once sv username else pure tt) k1
        (Keeps-if Out sv.is_test (fail_once sv username) (pure tt) (fail_once-Keeps username)
          (λ w h. h))
        (λ _.
          Keeps-bind Out ask k2 (λ w h. h)
            (λ n.
              Keeps-if Out (nat_eq n 0) attempt (pure (refuse auth_forbidden))
                (login-Keeps now fresh_jti username password) (λ w h. h)))

  pub issue_token-Keeps :
      (now : ℕ) (fresh_jti : String) (dto : IssueTokenRequest)
      → Keeps Out (issue_token sv now fresh_jti dto)
  unfolding issue_token
  issue_token-Keeps now fresh_jti dto =
      issue_checked-Keeps now fresh_jti (truthy dto.username) (truthy dto.password)
