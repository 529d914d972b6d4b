-- ===== src/Tests/Containers.antt =====
-- Containers whose clients fail to close, and a token of a container's service.
use mmo_backend_server.Prelude.{
  ℕ, ◌+◌, String, ◌≡◌, refl, true, false, none, some, [], arith, runtime_error, ok, raised,
}
use mmo_backend_server.Jwt.{Codec, Claims, one, create_access_token}
use mmo_backend_server.AuthService.{Service}
use mmo_backend_server.Rpc.Validation.{validate_token}
use mmo_backend_server.Containers.{
  Clients, AuthServiceSettings, AuthContainer, Container, wired, shutdown_auth_container, shutdown,
}
use mmo_backend_server.Containers.Shutdown.{shutdown_lem}
use mmo_backend_server.Containers.Tokens.{ReadsAt, Validates, validate_token-access}
use mmo_backend_server.Tests.Store.{Db}
use mmo_backend_server.Tests.Server.{Rd}
use mmo_backend_server.Tests.AuthService.{sv}

-- Every close raises, and counts.
abbrev clients : Clients ℕ
clients = record {
  connect_bus = λ dsn s. (ok tt, s);
  close_bus = λ s. (raised runtime_error, s + 1);
  connect_redis = λ url password s. (ok tt, s);
  close_redis = λ s. (raised runtime_error, s + 10);
  dispose_engine = λ s. (raised runtime_error, s + 100);
}

abbrev auth_container : AuthContainer Db Rd String
auth_container = record { bus = true; redis = true; auth_service = sv }

-- The Redis client was never set.
abbrev half_container : Container ℕ
half_container = record { outer = 0; bus = true; redis = false }

shutdown_lem_example :
    (shutdown_auth_container clients auth_container 0 ≡ (ok tt, 11))
    × (shutdown clients half_container ≡ (ok tt, 101))
shutdown_lem_example = shutdown_lem clients auth_container half_container 0

abbrev settings : AuthServiceSettings
settings = record {
  jwt_secret = "s";
  auth_access_ttl = 60;
  auth_refresh_ttl = 600;
  auth_jwt_iss = "core-auth";
  auth_jwt_aud = "game-clients";
  rabbitmq_dsn = "amqp://";
  redis_url = "redis://";
  redis_password = none;
}

-- The access token of account 1 that was issued at 100.
abbrev written : Claims
written = record {
  sub = some "1";
  username = some "ann";
  scope = none;
  iat = some 100;
  exp = some 160;
  iss = some "core-auth";
  aud = one "game-clients";
  jti = none;
}

abbrev codec : Codec
codec = record { encode = λ c secret. "t"; decode = λ t secret audiences iss required. ok written }

abbrev parts : Service Db Rd String
parts = record sv { codec = codec; show = λ n. "1" }

reads_written : ReadsAt codec 120 written
reads_written = record { reads = λ secret audiences iat exp i e since before listed. refl }

validate_token-access_example :
    Validates
      (validate_token codec "s" "game-clients"
        (λ t. some 1)
        (λ t. [])
        (record {
          access_token =
              create_access_token codec
                (λ n. "1")
                (wired clients parts settings).jwt_manager
                100
                1
                "ann"
                60;
          expected_aud = none;
          expected_iss = none;
        }))
      1
      "game-clients"
      160
validate_token-access_example =
    validate_token-access clients parts (λ t. some 1) (λ t. []) settings 100 120 1 "ann"
      reads_written (omega arith) (omega arith) refl
