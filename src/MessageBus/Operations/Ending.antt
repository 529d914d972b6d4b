-- ===== src/MessageBus/Operations/Ending.antt =====
-- Every operation of the bus ends.
use mmo_backend_server.Prelude.{
  ℕ, suc, ◌≤◌, String, ◌≡◌, refl, Bool, true, false, Option, some, is_some, if◌then◌else◌, Exec,
  pure, lift,
}
use mmo_backend_server.Prelude.Runs.{Run, ended, Terminates, Terminates-bind, ◌>>=◌}
use mmo_backend_server.MessageBus.{queue_arguments}
use mmo_backend_server.MessageBus.Interface.{AlwaysEnds}
use mmo_backend_server.MessageBus.Broker.{
  AioPika, JsonCodec, Config, Bus, handler, DeliveryMode, on_broker,
}
use mmo_backend_server.Prelude.Dict.{Dict}
use mmo_backend_server.AuthService.{truthy}
use mmo_backend_server.MessageBus.Requests.{call_on, or_drawn}
use mmo_backend_server.MessageBus.Broker.Laws.{Clock}
use mmo_backend_server.MessageBus.Connecting.{ensure, connect, channel, is_open}
use mmo_backend_server.MessageBus.Connecting.Termination.{connect-Terminates}
use mmo_backend_server.MessageBus.Operations.{
  declare_exchange, declare_queue, bind_queue, publish, consume, publish_rpc_response, call_rpc,
  rabbitmq_message_bus, or_empty, response_message,
}

module _ {Br Json : Type 0} (aio : AioPika Br) (law : Clock aio) (json : JsonCodec Json)
    (cfg : Config) (wait_for : ℕ → ℕ → Exec (Bus Br Json) Json) (n : ℕ)
    (waits : 1 ≤ cfg.reconnect_backoff) (limited : 1 ≤ cfg.rabbitmq_connect_timeout)
    (enough : cfg.rabbitmq_connect_timeout ≤ n) where
  connects : (s : Bus Br Json) → Terminates (connect aio cfg (suc n)) s
  connects s = connect-Terminates aio law cfg n s waits limited enough

  ensure-Terminates : (s : Bus Br Json) → Terminates (ensure aio cfg (suc n)) s
  unfolding ensure
  ensure-Terminates s = either (is_open aio.is_chan_closed s.broker s.chan)
    where
      either :
          (b : Bool)
          → is_some (
              if b
              then some (channel aio cfg s)
              else (connect aio cfg (suc n) >>= λ _. ended (channel aio cfg)) s)
            ≡ true
      either true = refl
      either false =
          Terminates-bind (connect aio cfg (suc n)) (λ _. ended (channel aio cfg)) s (connects s)
            (λ _ v. refl)

  -- What goes on from a channel ends if the rest does.
  on_channel-Terminates :
      {A : Type 0} (f : ℕ → Run (Bus Br Json) A)
      → ((ch : ℕ) (v : Bus Br Json) → Terminates (f ch) v)
      → (s : Bus Br Json) → Terminates (ensure aio cfg (suc n) >>= f) s
  on_channel-Terminates f ends s =
      Terminates-bind (ensure aio cfg (suc n)) f s (ensure-Terminates s) ends

  ended_then-Terminates :
      {A B : Type 0} (m : Exec (Bus Br Json) A) (f : A → Run (Bus Br Json) B)
      → ((a : A) (v : Bus Br Json) → Terminates (f a) v)
      → (s : Bus Br Json) → Terminates (ended m >>= f) s
  ended_then-Terminates m f ends s = Terminates-bind (ended m) f s refl ends

  declare_exchange-Terminates :
      (name type : String) (durable : Bool) (s : Bus Br Json)
      → Terminates (declare_exchange aio json cfg wait_for (suc n) name type durable) s
  unfolding declare_exchange
  declare_exchange-Terminates name type durable =
      let k : ℕ → String → Run (Bus Br Json) (Unit {0}) =
        λ ch t. ended (on_broker (aio.declare_exchange ch name t durable)) in
      on_channel-Terminates (λ ch. ended (lift (aio.exchange_type type)) >>= k ch)
        (λ ch. ended_then-Terminates (lift (aio.exchange_type type)) (k ch) (λ t v. refl))

  bind_queue-Terminates :
      (queue exchange routing_key : String) (s : Bus Br Json)
      → Terminates (bind_queue aio json cfg wait_for (suc n) queue exchange routing_key) s
  unfolding bind_queue
  bind_queue-Terminates queue exchange routing_key =
      let k2 : ℕ → ℕ → Run (Bus Br Json) (Unit {0}) =
        λ q ex. ended (on_broker (aio.queue_bind q ex routing_key)) in
      let k1 : ℕ → ℕ → Run (Bus Br Json) (Unit {0}) =
        λ ch q. ended (on_broker (aio.get_exchange ch exchange)) >>= k2 q in
      on_channel-Terminates (λ ch. ended (on_broker (aio.get_queue ch queue)) >>= k1 ch)
        (λ ch. ended_then-Terminates (on_broker (aio.get_queue ch queue)) (k1 ch) (λ q.
          ended_then-Terminates (on_broker (aio.get_exchange ch exchange)) (k2 q) (λ ex v. refl)))

  publish-Terminates :
      (exchange routing_key : String) (message : Json)
      (message_id correlation_id reply_to : Option String) (headers : Option (Dict String))
      (persistent : Bool) (s : Bus Br Json)
      → Terminates
          (publish aio json cfg wait_for
            (suc n)
            exchange
            routing_key
            message
            message_id
            correlation_id
            reply_to
            headers
            persistent)
          s
  unfolding publish
  publish-Terminates exchange routing_key message message_id correlation_id reply_to headers
        persistent =
      let k2 : ℕ → String → Run (Bus Br Json) (Unit {0}) = λ ex body. ended (
        on_broker (
          aio.exchange_publish ex
            (record {
              body = body;
              content_type = "application/json";
              delivery_mode =
                  if persistent then DeliveryMode.persistent else DeliveryMode.not_persistent;
              message_id = message_id;
              correlation_id = correlation_id;
              reply_to = reply_to;
              headers = or_empty headers;
            })
            routing_key true)) in
      let k1 : ℕ → Run (Bus Br Json) (Unit {0}) =
        λ ex. ended (lift (json.dumps message)) >>= k2 ex in
      on_channel-Terminates (λ ch. ended (on_broker (aio.get_exchange ch exchange)) >>= k1)
        (λ ch.
          ended_then-Terminates (on_broker (aio.get_exchange ch exchange)) k1
            (λ ex. ended_then-Terminates (lift (json.dumps message)) (k2 ex) (λ body v. refl)))

  consume-Terminates :
      (queue : String) (message_handler prefetch : ℕ) (s : Bus Br Json)
      → Terminates (consume aio json cfg wait_for (suc n) queue message_handler prefetch) s
  unfolding consume
  consume-Terminates queue message_handler prefetch =
      let k3 : String → Run (Bus Br Json) (Unit {0}) = λ _. ended (pure tt) in
      let k2 : ℕ → Run (Bus Br Json) (Unit {0}) =
        λ q. ended (on_broker (aio.queue_consume q (handler message_handler) false)) >>= k3 in
      let k1 : ℕ → Unit {0} → Run (Bus Br Json) (Unit {0}) =
        λ ch _. ended (on_broker (aio.get_queue ch queue)) >>= k2 in
      on_channel-Terminates (λ ch. ended (on_broker (aio.set_qos ch prefetch)) >>= k1 ch)
        (λ ch. ended_then-Terminates (on_broker (aio.set_qos ch prefetch)) (k1 ch) (λ _.
          ended_then-Terminates (on_broker (aio.get_queue ch queue)) k2 (λ q.
            ended_then-Terminates (on_broker (aio.queue_consume q (handler message_handler) false))
              k3 (λ tag v. refl))))

  publish_rpc_response-Terminates :
      (reply_to : String) (response : Json) (correlation_id : Option String) (s : Bus Br Json)
      → Terminates
          (publish_rpc_response aio json cfg wait_for (suc n) reply_to response correlation_id)
          s
  unfolding publish_rpc_response
  publish_rpc_response-Terminates reply_to response correlation_id =
      let k1 : ℕ → String → Run (Bus Br Json) (Unit {0}) = λ ch body. ended (
        on_broker (
          aio.exchange_publish (aio.default_exchange ch) (response_message body correlation_id)
            reply_to true)) in
      on_channel-Terminates (λ ch. ended (lift (json.dumps response)) >>= k1 ch)
        (λ ch. ended_then-Terminates (lift (json.dumps response)) (k1 ch) (λ body v. refl))

  -- Every operation of the bus ends, by returning or by raising, in any state and with any arguments,
  -- when RABBITMQ_CONNECT_TIMEOUT is positive. Conditions: the backoff is at least a millisecond, the
  -- fuel is more than the timeout has milliseconds, the clock does not go back, and a sleep lasts at
  -- least as long as it should; the single calls of aio-pika, and waiting with a timeout, end.
  pub rabbitmq_message_bus-AlwaysEnds :
      AlwaysEnds (rabbitmq_message_bus aio json cfg wait_for (suc n))
  unfolding declare_queue call_rpc
  rabbitmq_message_bus-AlwaysEnds = record {
    is_connected_ends = λ s. refl;
    connect_ends = connects;
    close_ends = λ s. refl;
    declare_exchange_ends = declare_exchange-Terminates;
    declare_queue_ends =
        λ name durable exclusive auto_delete arguments exchange routing_key max_priority.
          on_channel-Terminates
            (λ ch. ended (
              on_broker (
                aio.declare_queue ch name durable exclusive auto_delete
                  (queue_arguments arguments exchange routing_key max_priority))))
            (λ ch v. refl);
    bind_queue_ends = bind_queue-Terminates;
    publish_ends = publish-Terminates;
    consume_ends = consume-Terminates;
    publish_rpc_response_ends = publish_rpc_response-Terminates;
    call_rpc_ends = λ drawn future exchange routing_key payload correlation_id.
        on_channel-Terminates
          (λ ch. ended (
            call_on aio json cfg wait_for ch (or_drawn (truthy correlation_id) drawn) future
              exchange routing_key payload))
          (λ ch v. refl);
  }
