-- ===== src/AuthService.antt =====
-- apps/auth_svc/services/auth_service.py: registration, login, rotation and logout.
-- `World` is the database and the Redis server; `Service` is the object with its collaborators.
-- One call reads the clock once, as `now`, and draws at most one UUID, `fresh_jti`.
pub mod Sessions
pub mod Register
pub mod Login
pub mod Refresh
pub mod DeadKeys
pub mod Exchange
pub mod Rotation
pub mod Revocation
pub mod LazyAccount
pub mod Replay
pub mod Spent
pub mod Safety
pub mod History
pub mod Counting
pub mod Guessing
pub mod Password
use Prim.Native.String.{◌++◌}
use mmo_backend_server.Prelude.{
  ℕ, ◌+◌, String, Bool, true, false, not, ◌&&◌, ◌||◌, Option, none, some, List, [], ◌∷◌, ◌==◌,
  nat_eq, ltb, leb, is_some, if◌then◌else◌, Exception, integrity_error, unique_violation,
  connection_error, Result, ok, raised, Exec, pure, raise, lift, gets, ◌>>=◌, ◌>>◌, try_except,
  try_finally, finish,
}
use mmo_backend_server.Errors.{
  ErrorCode, auth_user_exists, internal_error, auth_invalid_credentials, auth_forbidden,
  auth_refresh_invalid,
}
use mmo_backend_server.Names.{key_auth_ban, key_auth_failed_attempts}
use mmo_backend_server.RedisClient
use mmo_backend_server.RedisClient.{Redis, Client}
use mmo_backend_server.Jwt
use mmo_backend_server.Jwt.{Codec, JwtManager, Claims, create_access_token, decode_token}
use mmo_backend_server.Repository.{
  Account, NewAccount, RefreshToken, Credentials, Orm, RegisterRequest, get_by_username,
  get_by_email, create_account, set_last_login, create_refresh_token, get_refresh_token_by_jti,
  revoke_token,
}

pub record World (Db Rd : Type 0) : Type 0 where
  pub db : Db
  pub redis : Rd

-- bcrypt and SHA-256, of apps/auth_svc/utils/password_manager.py.
pub record PasswordManager : Type 0 where
  pub hash_password : String → Result String
  pub verify_password : String → String → Result Bool
  pub hash_refresh_token : String → String

pub record Service (Db Rd Raw : Type 0) : Type 0 where
  pub orm : Orm Db
  pub redis : Redis Rd Raw
  pub client : Client
  pub codec : Codec
  pub jwt_manager : JwtManager
  pub password_manager : PasswordManager
  -- `str` of a number, `str.lower`, the comparison of CITEXT, `uuid.UUID`
  pub show : ℕ → String
  pub lower : String → String
  pub same_email : String → String → Bool
  pub parse_uuid : String → Result String
  pub access_token_expires : ℕ
  pub refresh_token_expires : ℕ
  pub bruteforce_max_attempts : ℕ
  pub bruteforce_lock_ttl_sec : ℕ
  pub bruteforce_window_ttl_sec : ℕ
  -- `"pytest" in os.environ.get("ENV_TYPE", "")`
  pub is_test : Bool

-- The dictionary that is returned to the client.
pub record TokenData : Type 0 where
  pub token : String
  pub refresh_token : String
  pub expires_in : ℕ
  pub account_id : ℕ

-- libs/domain/dto/auth.py: the fields of `IssueTokenRequest` that the service reads.
pub record IssueTokenRequest : Type 0 where
  pub username : Option String
  pub password : Option String

-- Python's truth of an optional text.
abbrev pub truthy : Option String → Option String
truthy none = none
truthy (some s) = if s == "" then none else some s

-- `tuple[A | None, ErrorCode | None]`
abbrev pub Reply : Type 0 → Type 0
Reply A = Option A × Option ErrorCode

abbrev pub refuse : {A : Type 0} → ErrorCode → Reply A
refuse code = (none, some code)

abbrev pub on_db : {Db Rd A : Type 0} → Exec Db A → Exec (World Db Rd) A
on_db call w = let (r, db') = call w.db in (r, record w { db = db' })

abbrev pub on_redis : {Db Rd A : Type 0} → Exec Rd A → Exec (World Db Rd) A
on_redis call w = let (r, redis') = call w.redis in (r, record w { redis = redis' })

-- `async with self.session_factory() as session`
abbrev pub in_session : {Db Rd A : Type 0} → Orm Db → Exec (World Db Rd) A → Exec (World Db Rd) A
in_session orm block = on_db orm.begin >> try_finally block (on_db orm.close)

module _ {Db Rd Raw : Type 0} (sv : Service Db Rd Raw) where
  unfoldable pub issue_token_pair : ℕ → String → Account → Exec (World Db Rd) TokenData
  issue_token_pair now fresh_jti account =
      let access_token =
        create_access_token sv.codec sv.show sv.jwt_manager now account.id account.username
          sv.access_token_expires in
      let (refresh_token_str, jti) =
        Jwt.create_refresh_token sv.codec sv.show sv.jwt_manager now fresh_jti account.id
          sv.refresh_token_expires in
      do
        on_db (
            create_refresh_token sv.orm account.id jti
              (sv.password_manager.hash_refresh_token refresh_token_str)
              (now + sv.refresh_token_expires) none none)
        pure (record {
          token = access_token;
          refresh_token = refresh_token_str;
          expires_in = sv.access_token_expires;
          account_id = account.id;
        })
