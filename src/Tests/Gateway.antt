-- ===== src/Tests/Gateway.antt =====
-- The gateway's endpoints and calls at concrete inputs.
use mmo_backend_server.Prelude.{
  ℕ, ◌≡◌, refl, false, none, some, [], ◌∷◌, ◌==◌, eq_iff, arith, ok, websocket_disconnect,
}
use mmo_backend_server.Prelude.Dict.{lookup}
use mmo_backend_server.Outbound.{BackendOutboundEnvelope, handle_outbound_message}
use mmo_backend_server.Outbound.Delivery.{handle_outbound_message-account}
use mmo_backend_server.Connections.{Network, Gateway, empty}
use mmo_backend_server.MessageBus.{Futures, start_call, on_rpc_reply}
use mmo_backend_server.MessageBus.Calls.{IsWaiting, start_call-replaces}
use mmo_backend_server.Ws.{serve}
use mmo_backend_server.Ws.Cleanup.{serve-lookup}

abbrev network : Network ℕ
network = record {
  is_disconnected = λ ws net. false;
  close = λ ws code net. (ok tt, net);
  send_text = λ ws t net. (ok tt, net);
}

abbrev gateway : Gateway ℕ
gateway = record { manager = empty; net = 0 }

serve-lookup_example :
    lookup "ws_1_a"
      (serve network
        (λ t. t == "ping")
        "pong"
        "hello"
        7
        "ws_1_a"
        5
        (("ping", 6) ∷ [])
        websocket_disconnect
        gateway).1.manager.active_connections
    ≡ none
serve-lookup_example =
    serve-lookup network (λ t. t == "ping") "pong" "hello" 7 "ws_1_a" 5 (("ping", 6) ∷ [])
      websocket_disconnect gateway "ws_1_a"

-- One call, with the future 1, under the ID "a".
abbrev waiting : Futures ℕ
waiting = record { rpc_futures = ("a", 1) ∷ []; outcome = λ f. none }

waiting-IsWaiting : IsWaiting "a" 1 waiting
unfolding lookup
waiting-IsWaiting = record {
  found = refl;
  own = λ k ne e. ground (arith, ne, e, eq_iff "a" k, eq_iff k "a");
  pending = refl;
}

start_call-replaces_example :
    ((on_rpc_reply (some "a") (ok 8) (start_call "a" 2 waiting)).outcome 1 ≡ none)
    × ((on_rpc_reply (some "a") (ok 8) (start_call "a" 2 waiting)).outcome 2 ≡ some (ok 8))
start_call-replaces_example =
    start_call-replaces "a" 1 2 (ok 8) waiting refl waiting-IsWaiting refl refl

-- A backend's message for the account 1, which has a connection under its own ID.
abbrev for_account : BackendOutboundEnvelope ℕ
for_account = record {
  event = "moved";
  status = "ok";
  payload = 0;
  recipient = some (record { account_id = some 1; connection_id = none });
  final = false;
  error = none;
  request_id = none;
  tick = none;
  state_version = none;
}

abbrev connected : Gateway ℕ
connected = record {
  manager = record {
    active_connections = ("ws_1_a", (7, 5)) ∷ [];
    client_types = ("ws_1_a", "PLAYER") ∷ [];
  };
  net = 0;
}

one_is_absent : lookup "1" connected.manager.active_connections ≡ none
unfolding lookup
one_is_absent = refl

handle_outbound_message-account_example :
    handle_outbound_message network
      (λ n. "1")
      (λ e id. "error")
      (λ env status. status)
      (ok for_account)
      connected
    ≡ (ok tt, connected)
handle_outbound_message-account_example =
    handle_outbound_message-account network (λ n. "1") (λ e id. "error") (λ env status. status)
      for_account 1 connected refl one_is_absent
