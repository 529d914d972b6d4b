-- ===== src/MessageBus/Requests.antt =====
-- libs/messaging/rabbitmq_message_bus.py: `call_rpc` once there is a channel.
pub mod Replies
use mmo_backend_server.Prelude.{
  ℕ, String, true, Option, none, some, [], Exec, pure, lift, modify, try_except, try_finally, ◌>>=◌,
  ◌>>◌,
}
use mmo_backend_server.MessageBus.{start_call, end_call}
use mmo_backend_server.MessageBus.Broker.{
  AioPika, JsonCodec, Config, Bus, AmqpMessage, DeliveryMode, on_broker,
}

abbrev pub request_message : String → String → AmqpMessage
request_message body corr_id = record {
  body = body;
  content_type = "application/json";
  delivery_mode = DeliveryMode.persistent;
  message_id = none;
  correlation_id = some corr_id;
  reply_to = some "amq.rabbitmq.reply-to";
  headers = [];
}

abbrev pub or_drawn : Option String → String → String
or_drawn (some corr_id) drawn = corr_id
or_drawn none drawn = drawn

-- `wait_for` is `asyncio.wait_for` of a future with a timeout: what other tasks do to the bus in the
-- meantime is its effect on the state.
module _ {Br Json : Type 0} (aio : AioPika Br) (json : JsonCodec Json) (cfg : Config)
    (wait_for : ℕ → ℕ → Exec (Bus Br Json) Json) where
  -- The `try` block of `call_rpc`.
  unfoldable pub request : ℕ → String → String → Json → String → ℕ → Exec (Bus Br Json) Json
  request ch exchange_name routing_key payload corr_id future = do
    body ← lift (json.dumps payload)
    ex ← on_broker (aio.get_exchange ch exchange_name)
    on_broker (aio.exchange_publish ex (request_message body corr_id) routing_key true)
    wait_for future cfg.rpc_timeout_ms

  abbrev pub reply_or_none : Exec (Bus Br Json) Json → Exec (Bus Br Json) (Option Json)
  reply_or_none block = try_except (block >>= λ body. pure (some body)) (λ e. pure none)

  -- The call once there is a channel.
  unfoldable pub call_on :
      ℕ → String → ℕ → String → String → Json → Exec (Bus Br Json) (Option Json)
  call_on ch corr_id future exchange_name routing_key payload =
      modify (λ s. record s { futures = start_call corr_id future s.futures })
      >> try_finally (reply_or_none (request ch exchange_name routing_key payload corr_id future))
          (modify (λ s. record s { futures = end_call corr_id s.futures }))
