-- ===== src/Tests/Broker.antt =====
-- A broker that accepts connections from a given time on, and the bus that connects to it.
use mmo_backend_server.Prelude.{
  ℕ, ◌+◌, String, ◌≡◌, ◌≢◌, refl, true, false, Bool, Option, none, some, List, [], ◌∷◌, ◌++◌, arith,
  leb, if◌then◌else◌, connection_closed, connection_error, ok, raised,
}
use mmo_backend_server.Prelude.Dict.{lookup}
use mmo_backend_server.MessageBus.Calls.{starts, replies, ends, Step}
use mmo_backend_server.MessageBus.Broker.{AioPika, JsonCodec, Config, Bus, new_bus}
use mmo_backend_server.MessageBus.Interface.{AlwaysEnds}
use mmo_backend_server.MessageBus.Operations.{rabbitmq_message_bus}
use mmo_backend_server.MessageBus.Operations.Ending.{rabbitmq_message_bus-AlwaysEnds}
use mmo_backend_server.MessageBus.Broker.Laws.{Clock, Reachable, Closes, Consuming}
use mmo_backend_server.MessageBus.Connecting.{
  connect, connect_loop, connect_once, setup_reply_to_consumer, is_connected, close,
}
use mmo_backend_server.MessageBus.Connecting.Liveness.{connect-Returns}
use mmo_backend_server.MessageBus.Connecting.Closing.{close-is_connected}
use mmo_backend_server.MessageBus.Connecting.Reconnecting.{connect-Answering}
use mmo_backend_server.MessageBus.Requests.{call_on}
use mmo_backend_server.MessageBus.Requests.Replies.{
  call_on-lookup, call_on-first_reply, wait_through,
}

pub record Rabbit : Type 0 where
  pub now : ℕ
  pub closed : Bool
  pub taking : Bool

abbrev at_start : Rabbit
at_start = record { now = 10; closed = false; taking = false }

abbrev later : Rabbit → Rabbit
later br = record br { now = br.now + 1 }

-- Each call takes a millisecond.
abbrev rabbit : ℕ → AioPika Rabbit
rabbit up = record {
  connect_robust = λ dsn br. (if leb up br.now then ok 1 else raised connection_closed, later br);
  open_channel = λ c b br. (ok 2, record br { now = br.now + 1; taking = false });
  is_conn_closed = λ c br. br.closed;
  close_conn = λ c br. (ok tt, record br { closed = true });
  is_chan_closed = λ c br. br.closed;
  close_chan = λ c br. (raised connection_error, br);
  get_queue = λ c name br. (ok c, later br);
  get_exchange = λ c name br. (ok 4, later br);
  default_exchange = λ c. 5;
  declare_exchange = λ c name type durable br. (ok tt, later br);
  declare_queue = λ c name durable exclusive auto_delete arguments br. (ok tt, later br);
  set_qos = λ c n br. (ok tt, later br);
  queue_consume = λ q k no_ack br. (ok "ctag", record br { now = br.now + 1; taking = true });
  queue_cancel = λ q tag br. (ok tt, br);
  queue_bind = λ q x key br. (ok tt, later br);
  exchange_publish = λ x m key mandatory br. (ok tt, later br);
  exchange_type = λ t. ok t;
  monotonic = λ br. br.now;
  sleep = λ b br. record br { now = br.now + b };
}

clocked : (up : ℕ) → Clock (rabbit up)
clocked up = record {
  sleep_least = λ b br. omega arith;
  connect_robust_clock = λ dsn br. omega arith;
  open_channel_clock = λ c b br. omega arith;
  get_queue_clock = λ c name br. omega arith;
  queue_consume_clock = λ q k no_ack br. omega arith;
}

reachable : (up : ℕ) → Reachable (rabbit up) up 1 0
reachable up = record {
  sleep_most = λ b br. omega arith;
  connect_robust_up = λ dsn br h. (1, ground arith);
  open_channel_up = λ c b br h. (2, refl);
  get_queue_up = λ c name br h. (c, refl);
  queue_consume_up = λ q k no_ack br h. ("ctag", refl);
  connect_robust_most = λ dsn br. omega arith;
  open_channel_most = λ c b br. omega arith;
  get_queue_most = λ c name br. omega arith;
  queue_consume_most = λ q k no_ack br. omega arith;
}

closes : (up : ℕ) → Closes (rabbit up)
closes up c br e = refl

consuming : (up : ℕ) → Consuming (rabbit up)
consuming up = record {
  consumes = λ ch br. br.taking;
  channel_of = λ q. q;
  open_channel_new = λ c b br ch e. refl;
  get_queue_channel = λ ch name br q e. cc;
  queue_consume_starts = λ q br tag e. refl;
}

abbrev config : Config
config = record {
  dsn = "amqp://";
  publisher_confirms = true;
  reconnect_backoff = 2;
  rabbitmq_connect_timeout = 20;
  rpc_timeout_ms = 50;
}

abbrev bus : Bus Rabbit String
bus = new_bus at_start

-- The broker comes up at 15.
connect-Returns_example :
    (s' : Bus Rabbit String) × (connect (rabbit 15) config 6 bus ≡ some (ok tt, s'))
connect-Returns_example =
    connect-Returns (rabbit 15) (clocked 15) config 15 1 0 (reachable 15) 5 bus (omega arith) refl
      (omega arith)

abbrev open_bus : Bus Rabbit String
open_bus = record bus { conn = some 1; chan = some 2; reply_to_consumer_tag = some "ctag" }

close-is_connected_example :
    is_connected (rabbit 0) config (close (rabbit 0) config open_bus).1 ≡ false
close-is_connected_example = close-is_connected (rabbit 0) config (closes 0) open_bus refl

-- The bus lost its channel, and its consumer's tag is set.
abbrev lost_bus : Bus Rabbit String
lost_bus = record open_bus { broker = record at_start { closed = true } }

abbrev connected_again : Bus Rabbit String
connected_again = record lost_bus { broker = record { now = 12; closed = true; taking = false } }

connects_again : connect (rabbit 0) config 3 lost_bus ≡ some (ok tt, connected_again)
unfolding connect connect_loop connect_once setup_reply_to_consumer
connects_again = refl

connect-Answering_example : (ch : ℕ) × (some 2 ≡ some ch) × (connected_again.broker.taking ≡ false)
unfolding consuming
connect-Answering_example =
    connect-Answering (rabbit 0) (consuming 0) config 3 lost_bus connected_again connects_again

abbrev texts : JsonCodec String
texts = record { dumps = λ t. ok t; loads = λ t. ok t }

abbrev before_reply : List (Step String)
before_reply = starts "b" 2 ∷ replies (some "b") (ok "other") ∷ []

abbrev after_reply : List (Step String)
after_reply = replies (some "a") (ok "late") ∷ ends "b" ∷ []

call_on-lookup_example :
    ((o : Option String) × ((call_on
          (rabbit 0)
          texts
          config
          (wait_through [])
          2
          "a"
          1
          "rpc"
          "q"
          "body"
          bus).0
        ≡ ok o))
    × (lookup "a"
          (call_on
            (rabbit 0)
            texts
            config
            (wait_through [])
            2
            "a"
            1
            "rpc"
            "q"
            "body"
            bus).1.futures.rpc_futures
        ≡ none)
call_on-lookup_example =
    call_on-lookup (rabbit 0) texts config (wait_through []) 2 "a" 1 "rpc" "q" "body" bus

no_entry : (k : String) → lookup k bus.futures.rpc_futures ≢ some 1
unfolding lookup
no_entry k e = cc

call_on-first_reply_example :
    (call_on
      (rabbit 0)
      texts
      config
      (wait_through (before_reply ++ replies (some "a") (ok "answer") ∷ after_reply))
      2
      "a"
      1
      "rpc"
      "q"
      "body"
      bus).0
    ≡ ok (some "answer")
call_on-first_reply_example =
    call_on-first_reply (rabbit 0) texts config before_reply after_reply (ok "answer") 2 "a" 1 4
      "rpc" "q" "body" "body" bus refl no_entry refl refl refl refl ((refl, refl), (refl, tt))

-- A broker that comes up too late.
rabbitmq_message_bus-AlwaysEnds_example :
    AlwaysEnds (rabbitmq_message_bus (rabbit 100) texts config (wait_through []) 21)
rabbitmq_message_bus-AlwaysEnds_example =
    rabbitmq_message_bus-AlwaysEnds (rabbit 100) (clocked 100) texts config (wait_through []) 20
      (omega arith) (omega arith) (omega arith)
