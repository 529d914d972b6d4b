-- ===== src/Tests/AuthService.antt =====
-- A service with one account, whose tokens are texts that name their key.
use mmo_backend_server.Prelude.{
  ◌+◌, ◌≤◌, String, ◌≡◌, ◌≢◌, refl, false, Option, none, some, [], ◌∷◌, ◌==◌, if◌then◌else◌, arith,
  jwt_invalid, other_error, Result, ok, raised, replicate,
}
use mmo_backend_server.Errors.{auth_invalid_credentials, auth_forbidden}
use mmo_backend_server.Names.{key_auth_ban, key_auth_failed_attempts}
use mmo_backend_server.RedisClient.{connected}
use mmo_backend_server.Jwt.{
  Codec, Claims, absent, decode_token, create_access_token, create_refresh_token,
}
use mmo_backend_server.Repository.{
  Account, RefreshToken, active, user, get_refresh_token_by_jti, revoke_token, get_by_username,
  set_last_login,
}
use mmo_backend_server.AuthService.{World, Service, TokenData, refuse, issue_token_pair}
use mmo_backend_server.AuthService.Refresh.{
  refresh_token, refresh_claimed, rotate, exchange, logout, logout_claimed, revoke_found,
}
use mmo_backend_server.AuthService.Login.{
  issue_token, issue_checked, login, finish_login, note_failure, ban_if_reached,
}
use mmo_backend_server.AuthService.Rotation.{Presents}
use mmo_backend_server.AuthService.LazyAccount.{refresh_token-futile}
use mmo_backend_server.AuthService.Replay.{refresh_token-after-logout}
use mmo_backend_server.AuthService.History.{
  refresh_token_call, logout_call, after_calls, refresh_token-never_again,
}
use mmo_backend_server.AuthService.Guessing.{
  Guess, attempt, run_attempts, AllInvalid, guesses-bounded, attempt-locks,
}
use mmo_backend_server.AuthService.Password.{Verified, issue_token-Verified}
use mmo_backend_server.Tests.Store.{Db, orm, contract, orm_with, contract_with}
use mmo_backend_server.Tests.Server.{Rd, redis, redis_contract}

abbrev claims_for : String → Claims
claims_for jti = record {
  sub = none;
  username = none;
  scope = none;
  iat = none;
  exp = none;
  iss = none;
  aud = absent;
  jti = some jti;
}

abbrev text_of : Option String → String
text_of none = "access"
text_of (some jti) = jti

abbrev codec : Codec
codec = record {
  encode = λ c secret. text_of c.jti;
  decode =
      λ t secret auds iss required. if t == "access" then raised jwt_invalid else ok (claims_for t);
}

abbrev pub sv : Service Db Rd String
sv = record {
  orm = orm;
  redis = redis;
  client = connected;
  codec = codec;
  jwt_manager = record { secret = "s"; issuer = "auth"; audience = "game_clients" };
  password_manager = record {
    hash_password = λ p. ok p;
    verify_password = λ p h. ok (p == h);
    hash_refresh_token = λ t. t;
  };
  show = λ n. "1";
  lower = λ s. s;
  same_email = λ a b. a == b;
  parse_uuid = λ t. ok t;
  access_token_expires = 60;
  refresh_token_expires = 600;
  bruteforce_max_attempts = 3;
  bruteforce_lock_ttl_sec = 900;
  bruteforce_window_ttl_sec = 900;
  is_test = false;
}

abbrev account : Account
account = record {
  id = 1;
  username = "ann";
  email = "a@b";
  status = active;
  role = user;
  credentials = some (record { password_hash = "pw"; last_login_at = none });
}

abbrev token : RefreshToken
token = record {
  account_id = 1;
  jti = "t1";
  token_hash = "t1";
  user_agent = none;
  ip = none;
  expires_at = 500;
  revoked_at = none;
}

abbrev pub world : World Db Rd
world = record {
  db = record {
    stored = record { accounts = account ∷ []; tokens = token ∷ [] };
    seen = record { accounts = []; tokens = [] };
  };
  redis = record { has = λ k. false; count = λ k. 0 };
}

presents : Presents sv "t1" "t1"
unfolding decode_token
presents = record {
  payload = some (claims_for "t1");
  claimed = "t1";
  decoded = refl;
  has_claim = refl;
  parsed = refl;
}

abbrev pub pair : TokenData
pair = record { token = "access"; refresh_token = "t2"; expires_in = 60; account_id = 1 }

pub refreshes : (refresh_token sv 100 "t2" "t1" world).0 ≡ ok (some pair, none)
unfolding refresh_token refresh_claimed rotate exchange decode_token get_refresh_token_by_jti
    revoke_token issue_token_pair create_access_token create_refresh_token
    mmo_backend_server.Repository.create_refresh_token
refreshes = refl

refresh_token-never_again_example :
    (refresh_token sv 200 "t3" "t1" (
      after_calls sv
        (refresh_token_call 150 "t4" "t2" ∷ logout_call 160 "t1" ∷ [])
        (refresh_token sv 100 "t2" "t1" world).1)).0
    ≢ ok (some pair, none)
refresh_token-never_again_example =
    refresh_token-never_again sv contract 100 200 "t2" "t3" "t1" "t1" "t1" presents presents
      (refresh_token_call 150 "t4" "t2" ∷ logout_call 160 "t1" ∷ []) world pair pair refreshes

logs_out : (logout sv 100 "t1" world).0 ≡ ok none
unfolding logout logout_claimed revoke_found decode_token get_refresh_token_by_jti revoke_token
logs_out = refl

refresh_token-after-logout_example :
    (refresh_token sv 200 "t3" "t1" (logout sv 100 "t1" world).1).0 ≢ ok (some pair, none)
refresh_token-after-logout_example =
    refresh_token-after-logout sv contract 100 200 "t3" "t1" "t1" "t1" presents presents world
      (logout sv 100 "t1" world).1 pair (omega arith) logs_out refl

logs_in :
    (issue_token sv 100 "t2" (record { username = some "ann"; password = some "pw" }) world).0
    ≡ ok (some pair, none)
unfolding issue_token issue_checked login finish_login note_failure ban_if_reached get_by_username
    set_last_login issue_token_pair create_access_token create_refresh_token
    mmo_backend_server.Repository.create_refresh_token
logs_in = refl

issue_token-Verified_example :
    (username : String) × (password : String) × (some "ann" ≡ some username)
    × (some "pw" ≡ some password)
    × Verified sv 100 "t2" username password (contract.stored world.db).accounts pair
issue_token-Verified_example =
    issue_token-Verified sv contract 100 "t2"
      (record { username = some "ann"; password = some "pw" }) world pair logs_in

abbrev wrong : Guess
wrong = record { now = 100; fresh_jti = "t2"; password = "x" }

abbrev right : Guess
right = record { now = 101; fresh_jti = "t2"; password = "pw" }

wrong_is_refused :
    (attempt sv redis_contract refl "ann" wrong world).0 ≡ ok (refuse auth_invalid_credentials)
unfolding issue_token issue_checked login finish_login note_failure ban_if_reached get_by_username
    key_auth_failed_attempts key_auth_ban
wrong_is_refused = refl

three_wrong :
    AllInvalid sv redis_contract refl refl "ann" refl
      (run_attempts sv redis_contract refl refl "ann" refl (replicate 3 wrong) world).0
unfolding issue_token issue_checked login finish_login note_failure ban_if_reached get_by_username
    key_auth_failed_attempts key_auth_ban
three_wrong = (refl, (refl, (refl, tt)))

guesses-bounded_example : 3 + 0 ≤ 3
guesses-bounded_example =
    guesses-bounded sv redis_contract refl refl "ann" refl (replicate 3 wrong) world
      (refl, (refl, (refl, tt))) (omega arith) three_wrong

-- Two failures were counted before.
abbrev tried_twice : World Db Rd
tried_twice = record world { redis = record { has = λ k. false; count = λ k. 2 } }

third_is_refused :
    (attempt sv redis_contract refl "ann" wrong tried_twice).0
    ≡ ok (refuse auth_invalid_credentials)
unfolding issue_token issue_checked login finish_login note_failure ban_if_reached get_by_username
    key_auth_failed_attempts key_auth_ban
third_is_refused = refl

attempt-locks_example :
    attempt sv redis_contract refl "ann" right
      (attempt sv redis_contract refl "ann" wrong tried_twice).1
    ≡ (ok (refuse auth_forbidden), (attempt sv redis_contract refl "ann" wrong tried_twice).1)
attempt-locks_example =
    attempt-locks sv redis_contract refl refl "ann" refl wrong right tried_twice refl refl
      (omega arith) third_is_refused

-- The same service where the account of a token cannot be read.
abbrev unreadable : RefreshToken → Db → Result Account
unreadable t db = raised other_error

abbrev lazy_sv : Service Db Rd String
lazy_sv = record sv { orm = orm_with unreadable }

refresh_token-futile_example :
    ((contract_with unreadable).stored (refresh_token lazy_sv 100 "t2" "t1" world).1.db
      ≡ (contract_with unreadable).stored world.db)
    × ((d : TokenData) → (refresh_token lazy_sv 100 "t2" "t1" world).0 ≢ ok (some d, none))
refresh_token-futile_example =
    refresh_token-futile lazy_sv (contract_with unreadable) other_error (λ t db. refl) 100 "t2" "t1"
      world
