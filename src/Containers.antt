-- ===== src/Containers.antt =====
-- The containers: libs/containers/auth_container.py, libs/containers/gateway_container.py and
-- libs/infra/di.py. What connects and closes is a parameter over a state `S`: the bus, by its DSN, the
-- Redis client, by its URL and password, and the database engine.
pub mod Shutdown
pub mod Tokens
use mmo_backend_server.Prelude.{
  ℕ, String, Bool, true, false, Option, none, some, if◌then◌else◌, Exception, value_error, Result,
  ok, raised, Exec, pure, raise, modify, lift, ◌>>=◌, ◌>>◌, try_except,
}
use mmo_backend_server.Connections.{Manager, empty}
use mmo_backend_server.Jwt.{JwtManager}
use mmo_backend_server.AuthService.{Service, truthy}

pub record Clients (S : Type 0) : Type 0 where
  pub connect_bus : String → Exec S (Unit {0})
  pub close_bus : Exec S (Unit {0})
  pub connect_redis : String → Option String → Exec S (Unit {0})
  pub close_redis : Exec S (Unit {0})
  pub dispose_engine : Exec S (Unit {0})

-- apps/auth_svc/config/settings_auth.py, of the fields that the container reads.
pub record AuthServiceSettings : Type 0 where
  pub jwt_secret : String
  pub auth_access_ttl : ℕ
  pub auth_refresh_ttl : ℕ
  pub auth_jwt_iss : String
  pub auth_jwt_aud : String
  pub rabbitmq_dsn : String
  pub redis_url : String
  pub redis_password : Option String

-- Whether the bus and the Redis client are set, and the service.
pub record AuthContainer (Db Rd Raw : Type 0) : Type 0 where
  pub bus : Bool
  pub redis : Bool
  pub auth_service : Service Db Rd Raw

pub record GatewayContainer : Type 0 where
  pub bus : Bool
  pub client_connection_manager : Manager

-- `gather` of two calls, which both run; the first exception is raised.
abbrev pub first_raised : Result (Unit {0}) → Result (Unit {0}) → Result (Unit {0})
first_raised (raised e) other = raised e
first_raised (ok _) other = other

abbrev pub gather_two : {S : Type 0} → Exec S (Unit {0}) → Exec S (Unit {0}) → Exec S (Unit {0})
gather_two m k s = let (r, s') = m s in let (r', s'') = k s' in (first_raised r r', s'')

abbrev pub if_set : {S : Type 0} → Bool → Exec S (Unit {0}) → Exec S (Unit {0})
if_set set m = if set then m else pure tt

abbrev pub swallow : {S : Type 0} → Exec S (Unit {0}) → Exec S (Unit {0})
swallow m = try_except m (λ e. pure tt)

module _ {S : Type 0} (clients : Clients S) where
  module _ {Db Rd Raw : Type 0} (parts : Service Db Rd Raw) where
    -- `parts` is a service of which `create` sets what comes from the settings.
    abbrev pub wired : AuthServiceSettings → Service Db Rd Raw
    wired settings = record parts {
      jwt_manager = record {
        secret = settings.jwt_secret;
        issuer = settings.auth_jwt_iss;
        audience = settings.auth_jwt_aud;
      };
      access_token_expires = settings.auth_access_ttl;
      refresh_token_expires = settings.auth_refresh_ttl;
    }

    unfoldable pub create_auth_container : AuthServiceSettings → Exec S (AuthContainer Db Rd Raw)
    create_auth_container settings = do
      gather_two (clients.connect_bus settings.rabbitmq_dsn)
          (clients.connect_redis settings.redis_url settings.redis_password)
      pure (record { bus = true; redis = true; auth_service = wired settings })

  -- `gather` with `return_exceptions`.
  unfoldable pub shutdown_auth_container :
      {Db Rd Raw : Type 0} → AuthContainer Db Rd Raw → Exec S (Unit {0})
  shutdown_auth_container c =
      swallow (if_set c.bus clients.close_bus) >> swallow (if_set c.redis clients.close_redis)

  connect_or_fail : Option String → Exec S (Unit {0})
  connect_or_fail none = raise value_error
  connect_or_fail (some dsn) = clients.connect_bus dsn

  -- The variable RABBITMQ_DSN of the environment.
  unfoldable pub create_gateway_container : Option String → Exec S GatewayContainer
  unfolding connect_or_fail
  create_gateway_container amqp_url = do
    connect_or_fail (truthy amqp_url)
    pure (record { bus = true; client_connection_manager = empty })

  unfoldable pub shutdown_gateway_container : GatewayContainer → Exec S (Unit {0})
  shutdown_gateway_container c = if_set c.bus clients.close_bus

-- `Container` of libs/infra/di.py: whether its bus and its Redis client are set, beside the state.
pub record Container (S : Type 0) : Type 0 where
  pub outer : S
  pub bus : Bool
  pub redis : Bool

abbrev pub on_outer : {S A : Type 0} → Exec S A → Exec (Container S) A
on_outer call c = let (r, s) = call c.outer in (r, record c { outer = s })

module _ {S : Type 0} (clients : Clients S) where
  init_redis : Option String → Option String → Exec (Container S) (Unit {0})
  init_redis none password = raise value_error
  init_redis (some url) password =
      modify (λ c. record c { redis = true }) >> on_outer (clients.connect_redis url password)

  init_bus : Option String → Option String → Option String → Exec (Container S) (Unit {0})
  init_bus none redis_url redis_pwd = raise value_error
  init_bus (some dsn) redis_url redis_pwd = do
    modify (λ c. record c { bus = true })
    on_outer (clients.connect_bus dsn)
    init_redis redis_url redis_pwd

  -- The variables RABBITMQ_DSN, REDIS_URL and REDIS_PASSWORD of the environment.
  unfoldable pub init :
      Option String → Option String → Option String → Exec (Container S) (Unit {0})
  unfolding init_bus init_redis
  init amqp_url redis_url redis_pwd = init_bus (truthy amqp_url) (truthy redis_url) redis_pwd

  unfoldable pub shutdown : Container S → Result (Unit {0}) × S
  shutdown c =
      (swallow (if_set c.bus clients.close_bus)
          >> swallow (if_set c.redis clients.close_redis)
          >> swallow clients.dispose_engine)
        c.outer
