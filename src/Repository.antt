-- ===== src/Repository.antt =====
-- apps/auth_svc/db/auth_repository.py over the rows of libs/domain/orm/auth/*.py.
-- SQLAlchemy and PostgreSQL are the parameter `Orm`, over a state `Db` that holds the session and
-- the database. A `select` is given its `where` clauses as a test on rows. Columns that the service
-- neither reads nor writes are left out. Times are numbers; UUIDs are texts.
pub mod Contract
use mmo_backend_server.Prelude.{
  ℕ, String, Bool, true, false, not, ◌&&◌, Option, none, some, List, [], ◌∷◌, ◌==◌, nat_eq, ltb,
  is_some, if◌then◌else◌, Exec, pure, ◌>>=◌, ◌>>◌,
}

pub data AccountStatus : Type 0 where
  active banned deleted : AccountStatus

pub data AccountRole : Type 0 where
  user admin : AccountRole

pub record Credentials : Type 0 where
  pub password_hash : String
  pub last_login_at : Option ℕ

pub record Account : Type 0 where
  pub id : ℕ
  pub username : String
  pub email : String
  pub status : AccountStatus
  pub role : AccountRole
  pub credentials : Option Credentials

pub record RefreshToken : Type 0 where
  pub account_id : ℕ
  pub jti : String
  pub token_hash : String
  pub user_agent : Option String
  pub ip : Option String
  pub expires_at : ℕ
  pub revoked_at : Option ℕ

-- A new row before the database gives it its identity.
pub record NewAccount : Type 0 where
  pub username : String
  pub email : String
  pub status : AccountStatus
  pub role : AccountRole
  pub credentials : Option Credentials

-- libs/domain/dto/auth.py: `RegisterRequest`
pub record RegisterRequest : Type 0 where
  pub email : String
  pub username : String
  pub password : String

pub record Orm (Db : Type 0) : Type 0 where
  -- `session_factory()` and what leaving its `async with` does
  pub begin : Exec Db (Unit {0})
  pub close : Exec Db (Unit {0})
  pub commit : Exec Db (Unit {0})
  pub rollback : Exec Db (Unit {0})
  -- `session.execute(select(...).where(...))` with `scalar_one_or_none()`
  pub select_account : (Account → Bool) → Exec Db (Option Account)
  pub select_token : (RefreshToken → Bool) → Exec Db (Option RefreshToken)
  pub select_credentials : ℕ → Exec Db (Option Credentials)
  -- `session.add`, whose row is in the database, with its `id`, once it is flushed
  pub add_account : NewAccount → Exec Db (Unit {0})
  pub added_account : NewAccount → Exec Db Account
  pub add_token : RefreshToken → Exec Db (Unit {0})
  -- assignments to attributes of loaded rows
  pub set_revoked_at : RefreshToken → ℕ → Exec Db (Unit {0})
  pub set_last_login_at : ℕ → ℕ → Exec Db (Unit {0})
  -- reading the relationship attribute `token.account`, which is loaded when it is read; it may raise
  -- instead
  pub account_of : RefreshToken → Exec Db Account

abbrev pub has_username : String → Account → Bool
has_username username a = a.username == username

-- The where clauses of `get_refresh_token_by_jti`.
abbrev pub is_live : String → ℕ → RefreshToken → Bool
is_live jti now t = t.jti == jti && not (is_some t.revoked_at) && ltb now t.expires_at

module _ {Db : Type 0} (orm : Orm Db) where
  unfoldable pub get_by_username : String → Exec Db (Option Account)
  get_by_username username = orm.select_account (has_username username)

  -- The column is CITEXT: the comparison of the database is the argument `same_email`.
  unfoldable pub get_by_email : (String → String → Bool) → String → Exec Db (Option Account)
  get_by_email same_email email = orm.select_account (λ a. same_email a.email email)

  unfoldable pub create_account : (String → String) → RegisterRequest → String → Exec Db NewAccount
  create_account lower dto password_hash =
      let new_account : NewAccount = record {
        username = dto.username;
        email = lower dto.email;
        status = active;
        role = user;
        credentials = some (record { password_hash = password_hash; last_login_at = none });
      } in
      orm.add_account new_account >> pure new_account

  unfoldable pub set_last_login : ℕ → ℕ → Exec Db (Unit {0})
  set_last_login account_id login_time = do
    credentials ← orm.select_credentials account_id
    if is_some credentials then orm.set_last_login_at account_id login_time else pure tt

  unfoldable pub create_refresh_token :
      ℕ → String → String → ℕ → Option String → Option String → Exec Db RefreshToken
  create_refresh_token account_id jti token_hash expires_at user_agent ip =
      let new_token : RefreshToken = record {
        account_id = account_id;
        jti = jti;
        token_hash = token_hash;
        user_agent = user_agent;
        ip = ip;
        expires_at = expires_at;
        revoked_at = none;
      } in
      orm.add_token new_token >> pure new_token

  unfoldable pub get_refresh_token_by_jti : String → ℕ → Exec Db (Option RefreshToken)
  get_refresh_token_by_jti jti now = orm.select_token (is_live jti now)

  unfoldable pub revoke_token : ℕ → RefreshToken → Exec Db (Unit {0})
  revoke_token now token = orm.set_revoked_at token now
