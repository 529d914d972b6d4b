-- ===== src/Outbound/Subscribing.antt =====
-- Where the gateway takes messages from: `start_listening_for_outbound_messages` of
-- apps/gateway/gateway/websocket_outbound_dispatcher.py, and the listener factory of
-- apps/gateway/listeners/__init__.py. `S` is the state of the bus.
use Prim.Native.String.{◌++◌}
use mmo_backend_server.Prelude.{ℕ, String, true, false, none, pure}
use mmo_backend_server.Prelude.Runs.{Run, ended, ◌>>◌}
use mmo_backend_server.Names.Queues
use mmo_backend_server.Names.Exchanges
use mmo_backend_server.MessageBus.Interface.{IMessageBus}

-- `EventBroadcastListener`, of what its factory gives it.
pub record EventListener : Type 0 where
  pub name : String
  pub queue_name : String
  pub prefetch : ℕ

module _ {S Json : Type 0} (bus : IMessageBus S Json) where
  -- `handler` stands for `_handle_outbound_message`.
  unfoldable pub start_listening_for_outbound_messages : ℕ → Run S (Unit {0})
  start_listening_for_outbound_messages handler = bus.consume Queues.gateway_ws_outbound handler 64

  abbrev pub broadcast_queue : String → String
  broadcast_queue drawn = "gateway.events.broadcast." ++ drawn

  -- The factory, with the UUID that it draws.
  unfoldable pub create_event_broadcast_listener : String → Run S EventListener
  create_event_broadcast_listener drawn = do
    bus.declare_queue (broadcast_queue drawn) false true true none none none none
    bus.bind_queue (broadcast_queue drawn) Exchanges.events "#"
    ended (
        pure (record {
          name = "gateway.event_broadcast";
          queue_name = broadcast_queue drawn;
          prefetch = 128;
        }))
