-- ===== src/Lib.antt =====
-- Verification library of the MMO backend server: an authentication service and a gateway, which
-- talk over RabbitMQ and keep their state in PostgreSQL and Redis.
--
-- A client's HTTP request or WebSocket goes to the gateway, which calls the authentication service
-- by RPC: a message to a queue of the service, whose listener validates it, has a handler process it
-- and answers to the reply address. The handler calls the service, which reads and writes accounts
-- and refresh tokens in the database, counts failed logins in Redis and makes tokens. A message that
-- fails is retried over a retry queue, and goes to a dead-letter queue at last. The gateway keeps a
-- registry of WebSocket connections, over which backends reach their clients.
--
-- Which file models which part:
--   Connections: apps/gateway/gateway/client_connection_manager.py, every method.
--   IdleChecker: apps/gateway/gateway_main.py, `idle_connection_checker`: one round of it, and the loop
--     in IdleChecker/Loop.
--   Listener: libs/messaging/base_listener.py, `_on_message`, `_move_to_dlq`, `start`, `stop`,
--     `run_forever`.
--   Names, Topology: libs/messaging/rabbitmq_names.py, libs/utils/redis_keys.py,
--     libs/messaging/rabbitmq_topology.py.
--   MessageBus: libs/messaging/rabbitmq_message_bus.py: the table of futures and `_on_rpc_reply`;
--     with MessageBus/Interface the interface of libs/messaging/i_message_bus.py, MessageBus/Connecting
--     `connect`, `close` and `_ensure`, MessageBus/Operations the operations on a channel, and
--     MessageBus/Requests `call_rpc` once there is a channel.
--   Bootstrap: libs/app/bootstrap.py, `service_lifespan`. Health: libs/app/health.py, with the checks
--     that `create_service_app` gives it.
--   Transactions: libs/utils/transactional_decorator.py, libs/infra/worker_db_utils.py and the
--     sessions of libs/infra/db.py.
--   Containers: libs/containers/auth_container.py, libs/containers/gateway_container.py and
--     libs/infra/di.py.
--   Schema: libs/domain/orm/base.py with the classes of libs/domain/orm/auth (Schema/Declared), and
--     migrations/versions/0002_create_auth_tables.py (Schema/Migrated).
--   Middleware: libs/app/logging_middleware.py, libs/app/security_middleware.py, libs/utils/ids.py.
--   Passwords: apps/auth_svc/utils/password_manager.py.
--   Errors: libs/app/errors.py.
--   RedisClient: libs/infra/central_redis_client.py.
--   Repository: apps/auth_svc/db/auth_repository.py and the rows of libs/domain/orm/auth.
--   Jwt: apps/auth_svc/utils/jwt_manager.py.
--   AuthService: apps/auth_svc/services/auth_service.py, with `register` in AuthService/Register,
--     `issue_token` in AuthService/Login, `refresh_token` and `logout` in AuthService/Refresh.
--   Rpc: apps/auth_svc/listeners and apps/auth_svc/handlers.
--   AuthRoutes: apps/gateway/rest/auth/auth_routes.py.
--   Ws: apps/gateway/ws/unified_ws.py.
--   Outbound: apps/gateway/gateway/websocket_outbound_dispatcher.py, apps/gateway/listeners/__init__.py
--     and apps/gateway/listeners/event_listener.py.
-- The other files under a component's name hold its lemmas and theorems; Prelude has what all of
-- them share, and Tests the runs and the applications of the theorems at concrete inputs.
--
-- A call that may raise is a function of type `Exec S A`: from a state to a result, which is a
-- value or an exception, and the state after it. Code outside the repository is a parameter: the
-- database session (Repository.Orm), the Redis driver (RedisClient.Redis), PyJWT (Jwt.Codec),
-- bcrypt and SHA-256 (Passwords.Hashing, which fills AuthService.PasswordManager), the sockets
-- (Connections.Network), the broker (Listener.Port), and aio-pika with the clock
-- (MessageBus.Broker.AioPika). What a theorem relies on of them is a record of laws that it
-- takes: Repository.Contract, RedisClient.Contract, Jwt.Separation.CodecLaw,
-- Listener.Verdicts.IsUp, Rpc.Answers.Publishes, and those of MessageBus.Broker.Laws,
-- Bootstrap.Cleanup.Observed, Jwt.Separation.DecodesAt, Containers.Tokens.ReadsAt,
-- Listener.Retries.Redelivery, Passwords.HashingLaw, AuthService.LazyAccount.Refuses. A concrete
-- instance of each stands under Tests.
--
-- Times are natural numbers, and keys and UUIDs texts. A call of the service reads the clock
-- once. All recursion is structural: on the list of messages, clients, steps or texts, and for
-- the life of a retried message on a number of deliveries that is one more than its retries can
-- be. Only the loop that connects to RabbitMQ may turn for ever, so it runs on fuel, with `none`
-- where the fuel runs out (Prelude.Runs); with a connect timeout one turn for each of its
-- milliseconds, and one more, are enough.
--
-- Not modelled: the construction of the applications and of the database engine, logging, the
-- checks that pydantic makes, and of the schema the defaults, the index and the downgrade. A call
-- runs to its end before the next begins, but for the futures of RPC calls, whose steps come in
-- any order.
pub mod Prelude
pub mod Connections
pub mod IdleChecker
pub mod Names
pub mod Topology
pub mod Listener
pub mod Errors
pub mod RedisClient
pub mod Repository
pub mod Jwt
pub mod AuthService
pub mod MessageBus
pub mod Outbound
pub mod Rpc
pub mod AuthRoutes
pub mod Ws
pub mod Tests
pub mod Health
pub mod Transactions
pub mod Bootstrap
pub mod Schema
pub mod Containers
pub mod Middleware
pub mod Passwords
