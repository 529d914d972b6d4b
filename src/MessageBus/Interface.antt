-- ===== src/MessageBus/Interface.antt =====
-- libs/messaging/i_message_bus.py: what the program uses of a message bus.
use mmo_backend_server.Prelude.{ℕ, String, Bool, Option}
use mmo_backend_server.Prelude.Dict.{Dict}
use mmo_backend_server.Prelude.Runs.{Run, Terminates}
use mmo_backend_server.MessageBus.{Argument}

-- `S` is the state of the bus. `call_rpc` is also given the UUID that it may draw and the future
-- that it creates.
pub record IMessageBus (S Json : Type 0) : Type 0 where
  pub is_connected : Run S Bool
  pub connect : Run S (Unit {0})
  pub close : Run S (Unit {0})
  -- name, type and durable
  pub declare_exchange : String → String → Bool → Run S (Unit {0})
  -- name, durable, exclusive, auto_delete, arguments, dead_letter_exchange,
  -- dead_letter_routing_key and max_priority
  pub declare_queue :
      String
      → Bool
      → Bool
      → Bool
      → Option (Dict Argument)
      → Option String
      → Option String
      → Option ℕ
      → Run S (Unit {0})
  -- queue, exchange and routing key
  pub bind_queue : String → String → String → Run S (Unit {0})
  -- exchange, routing key, message, message_id, correlation_id, reply_to, headers and persistent
  pub publish :
      String
      → String
      → Json
      → Option String
      → Option String
      → Option String
      → Option (Dict String)
      → Bool
      → Run S (Unit {0})
  -- queue, handler and prefetch
  pub consume : String → ℕ → ℕ → Run S (Unit {0})
  -- reply_to, response and correlation_id
  pub publish_rpc_response : String → Json → Option String → Run S (Unit {0})
  -- exchange, routing key, payload and correlation_id
  pub call_rpc : String → ℕ → String → String → Json → Option String → Run S (Option Json)

-- Each operation ends, in any state of the bus and with any arguments.
pub record AlwaysEnds {S Json : Type 0} (bus : IMessageBus S Json) : Type 0 where
  pub is_connected_ends : (s : S) → Terminates bus.is_connected s
  pub connect_ends : (s : S) → Terminates bus.connect s
  pub close_ends : (s : S) → Terminates bus.close s
  pub declare_exchange_ends :
      (name type : String) (durable : Bool) (s : S)
      → Terminates (bus.declare_exchange name type durable) s
  pub declare_queue_ends :
      (name : String) (durable exclusive auto_delete : Bool) (arguments : Option (Dict Argument))
      (exchange routing_key : Option String) (max_priority : Option ℕ) (s : S)
      → Terminates
          (bus.declare_queue name durable exclusive auto_delete arguments exchange routing_key
            max_priority)
          s
  pub bind_queue_ends :
      (queue exchange routing_key : String) (s : S)
      → Terminates (bus.bind_queue queue exchange routing_key) s
  pub publish_ends :
      (exchange routing_key : String) (message : Json)
      (message_id correlation_id reply_to : Option String) (headers : Option (Dict String))
      (persistent : Bool) (s : S)
      → Terminates
          (bus.publish exchange routing_key message message_id correlation_id reply_to headers
            persistent)
          s
  pub consume_ends :
      (queue : String) (message_handler prefetch : ℕ) (s : S)
      → Terminates (bus.consume queue message_handler prefetch) s
  pub publish_rpc_response_ends :
      (reply_to : String) (response : Json) (correlation_id : Option String) (s : S)
      → Terminates (bus.publish_rpc_response reply_to response correlation_id) s
  pub call_rpc_ends :
      (drawn : String) (future : ℕ) (exchange routing_key : String) (payload : Json)
      (correlation_id : Option String) (s : S)
      → Terminates (bus.call_rpc drawn future exchange routing_key payload correlation_id) s
