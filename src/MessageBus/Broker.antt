-- ===== src/MessageBus/Broker.antt =====
-- What the message bus uses of aio-pika, of the clock and of JSON, and the state of the bus.
-- aio-pika's connections, channels, queues and exchanges are named by numbers, its state is `Br`.
-- Times are whole milliseconds.
pub mod Laws
use mmo_backend_server.Prelude.{ℕ, String, Bool, Option, none, some, [], Exec, Result}
use mmo_backend_server.Prelude.Dict.{Dict}
use mmo_backend_server.MessageBus.{Futures, Argument, no_futures}

pub data DeliveryMode : Type 0 where
  persistent not_persistent : DeliveryMode

-- `aio_pika.Message`, of the properties that the bus sets.
pub record AmqpMessage : Type 0 where
  pub body : String
  pub content_type : String
  pub delivery_mode : DeliveryMode
  pub message_id : Option String
  pub correlation_id : Option String
  pub reply_to : Option String
  pub headers : Dict String

-- The callback of a consumer: the bus's `_on_rpc_reply`, or a handler of the program.
pub data Consumer : Type 0 where
  rpc_replies : Consumer
  handler : ℕ → Consumer

pub record AioPika (Br : Type 0) : Type 0 where
  pub connect_robust : String → Exec Br ℕ
  -- the connection, and whether publishing is confirmed
  pub open_channel : ℕ → Bool → Exec Br ℕ
  pub is_conn_closed : ℕ → Br → Bool
  pub close_conn : ℕ → Exec Br (Unit {0})
  pub is_chan_closed : ℕ → Br → Bool
  pub close_chan : ℕ → Exec Br (Unit {0})
  -- the channel and the name
  pub get_queue : ℕ → String → Exec Br ℕ
  pub get_exchange : ℕ → String → Exec Br ℕ
  pub default_exchange : ℕ → ℕ
  -- the channel, the name, the type and the durability
  pub declare_exchange : ℕ → String → String → Bool → Exec Br (Unit {0})
  -- the channel, the name, durable, exclusive, auto_delete and the arguments
  pub declare_queue : ℕ → String → Bool → Bool → Bool → Option (Dict Argument) → Exec Br (Unit {0})
  pub set_qos : ℕ → ℕ → Exec Br (Unit {0})
  -- the queue, the callback and `no_ack`, answered by a consumer tag
  pub queue_consume : ℕ → Consumer → Bool → Exec Br String
  pub queue_cancel : ℕ → String → Exec Br (Unit {0})
  -- the queue, the exchange and the routing key
  pub queue_bind : ℕ → ℕ → String → Exec Br (Unit {0})
  -- the exchange, the message, the routing key and `mandatory`
  pub exchange_publish : ℕ → AmqpMessage → String → Bool → Exec Br (Unit {0})
  -- `aio_pika.ExchangeType(type_)`
  pub exchange_type : String → Result String
  -- `time.monotonic()` and `asyncio.sleep`
  pub monotonic : Br → ℕ
  pub sleep : ℕ → Br → Br

-- `json.dumps` and `json.loads`.
pub record JsonCodec (Json : Type 0) : Type 0 where
  pub dumps : Json → Result String
  pub loads : String → Result Json

-- The bus: what it is constructed with, and the environment variables that it reads.
pub record Config : Type 0 where
  pub dsn : String
  pub publisher_confirms : Bool
  pub reconnect_backoff : ℕ
  pub rabbitmq_connect_timeout : ℕ
  pub rpc_timeout_ms : ℕ

pub record Bus (Br Json : Type 0) : Type 0 where
  pub broker : Br
  pub conn : Option ℕ
  pub chan : Option ℕ
  pub closing : Bool
  pub reply_to_consumer_tag : Option String
  pub futures : Futures Json

-- A bus that has been constructed.
abbrev pub new_bus : {Br Json : Type 0} → Br → Bus Br Json
new_bus br = record {
  broker = br;
  conn = none;
  chan = none;
  closing = Bool.false;
  reply_to_consumer_tag = none;
  futures = no_futures;
}

-- A call of aio-pika, or of the table of futures, on the state of the bus.
abbrev pub on_broker : {Br Json A : Type 0} → Exec Br A → Exec (Bus Br Json) A
on_broker call s = let (r, br) = call s.broker in (r, record s { broker = br })
