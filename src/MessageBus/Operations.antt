-- ===== src/MessageBus/Operations.antt =====
-- libs/messaging/rabbitmq_message_bus.py: the operations on a channel, and `call_rpc`.
pub mod Ending
use mmo_backend_server.Prelude.{
  ℕ, String, Bool, true, false, Option, none, some, [], if◌then◌else◌, ok, Exec, pure, lift,
}
use mmo_backend_server.Prelude.Dict.{Dict}
use mmo_backend_server.Prelude.Runs.{Run, ended, ◌>>=◌, ◌>>◌}
use mmo_backend_server.AuthService.{truthy}
use mmo_backend_server.MessageBus.{Argument, queue_arguments}
use mmo_backend_server.MessageBus.Interface.{IMessageBus}
use mmo_backend_server.MessageBus.Broker.{
  AioPika, JsonCodec, Config, Bus, AmqpMessage, handler, DeliveryMode, on_broker,
}
use mmo_backend_server.MessageBus.Requests.{or_drawn, call_on}
use mmo_backend_server.MessageBus.Connecting
use mmo_backend_server.MessageBus.Connecting.{ensure}

abbrev pub or_empty : Option (Dict String) → Dict String
or_empty none = []
or_empty (some headers) = headers

abbrev pub response_message : String → Option String → AmqpMessage
response_message body correlation_id = record {
  body = body;
  content_type = "application/json";
  delivery_mode = DeliveryMode.not_persistent;
  message_id = none;
  correlation_id = correlation_id;
  reply_to = none;
  headers = [];
}

module _ {Br Json : Type 0} (aio : AioPika Br) (json : JsonCodec Json) (cfg : Config)
    (wait_for : ℕ → ℕ → Exec (Bus Br Json) Json) (fuel : ℕ) where
  abbrev broker : {A : Type 0} → Exec Br A → Run (Bus Br Json) A
  broker call = ended (on_broker call)

  unfoldable pub declare_exchange : String → String → Bool → Run (Bus Br Json) (Unit {0})
  declare_exchange name type durable = do
    ch ← ensure aio cfg fuel
    exchange_type ← ended (lift (aio.exchange_type type))
    broker (aio.declare_exchange ch name exchange_type durable)

  unfoldable pub declare_queue :
      String
      → Bool
      → Bool
      → Bool
      → Option (Dict Argument)
      → Option String
      → Option String
      → Option ℕ
      → Run (Bus Br Json) (Unit {0})
  declare_queue name durable exclusive auto_delete arguments dead_letter_exchange
        dead_letter_routing_key max_priority =
      do
        ch ← ensure aio cfg fuel
        broker (
            aio.declare_queue ch name durable exclusive auto_delete
              (queue_arguments arguments dead_letter_exchange dead_letter_routing_key max_priority))

  unfoldable pub bind_queue : String → String → String → Run (Bus Br Json) (Unit {0})
  bind_queue queue_name exchange_name routing_key = do
    ch ← ensure aio cfg fuel
    q ← broker (aio.get_queue ch queue_name)
    ex ← broker (aio.get_exchange ch exchange_name)
    broker (aio.queue_bind q ex routing_key)

  unfoldable pub publish :
      String
      → String
      → Json
      → Option String
      → Option String
      → Option String
      → Option (Dict String)
      → Bool
      → Run (Bus Br Json) (Unit {0})
  publish exchange_name routing_key message message_id correlation_id reply_to headers persistent =
      do
        ch ← ensure aio cfg fuel
        ex ← broker (aio.get_exchange ch exchange_name)
        body ← ended (lift (json.dumps message))
        let props : AmqpMessage = record {
          body = body;
          content_type = "application/json";
          delivery_mode =
              if persistent then DeliveryMode.persistent else DeliveryMode.not_persistent;
          message_id = message_id;
          correlation_id = correlation_id;
          reply_to = reply_to;
          headers = or_empty headers;
        }
        broker (aio.exchange_publish ex props routing_key true)

  unfoldable pub consume : String → ℕ → ℕ → Run (Bus Br Json) (Unit {0})
  consume queue_name message_handler prefetch = do
    ch ← ensure aio cfg fuel
    broker (aio.set_qos ch prefetch)
    q ← broker (aio.get_queue ch queue_name)
    broker (aio.queue_consume q (handler message_handler) false)
    ended (pure tt)

  unfoldable pub publish_rpc_response : String → Json → Option String → Run (Bus Br Json) (Unit {0})
  publish_rpc_response reply_to response correlation_id = do
    ch ← ensure aio cfg fuel
    body ← ended (lift (json.dumps response))
    broker (
        aio.exchange_publish (aio.default_exchange ch) (response_message body correlation_id)
          reply_to true)

  unfoldable pub call_rpc :
      String → ℕ → String → String → Json → Option String → Run (Bus Br Json) (Option Json)
  call_rpc drawn future exchange_name routing_key payload correlation_id = do
    ch ← ensure aio cfg fuel
    ended (
        call_on aio json cfg wait_for ch (or_drawn (truthy correlation_id) drawn) future
          exchange_name routing_key payload)

  -- The class fills the interface.
  abbrev pub rabbitmq_message_bus : IMessageBus (Bus Br Json) Json
  rabbitmq_message_bus = record {
    is_connected = λ s. some (ok (Connecting.is_connected aio cfg s), s);
    connect = Connecting.connect aio cfg fuel;
    close = ended (Connecting.close aio cfg);
    declare_exchange = declare_exchange;
    declare_queue = declare_queue;
    bind_queue = bind_queue;
    publish = publish;
    consume = consume;
    publish_rpc_response = publish_rpc_response;
    call_rpc = call_rpc;
  }
