-- ===== src/Tests/Connections.antt =====
-- A gateway with three clients, one of them on a socket that has gone.
use mmo_backend_server.Prelude.{
  ℕ, String, ◌≡◌, refl, List, [], ◌∷◌, nat_eq, if◌then◌else◌, websocket_disconnect, ok, raised,
  some, none, arith,
}
use mmo_backend_server.Prelude.Dict.{lookup, insert, erase}
use mmo_backend_server.Connections.{
  Network, Gateway, empty, connect, disconnect, send_message_to_client_type, send_message_to_client,
  disconnect_all, broadcast_loop, broadcast_one,
}
use mmo_backend_server.Connections.Consistency.{
  Call, IsConsistent, empty-IsConsistent, run_calls, run_calls-IsConsistent,
}
use mmo_backend_server.Connections.Delivery.{Delivered, send_message_to_client-Delivered}
use mmo_backend_server.Connections.Broadcast.{Ends, send_message_to_client_type_lem}
use mmo_backend_server.IdleChecker.Loop.{
  Turn, idle_connection_checker, idle_connection_checker-drops,
}
use mmo_backend_server.IdleChecker.{check_round, check_round_lem, expire}

-- The state is the texts sent, newest first; socket 7 is closed and sends to socket 8 fail.
abbrev network : Network (List (ℕ × String))
network = record {
  is_disconnected = λ ws _. nat_eq ws 7;
  close = λ ws code net. (ok tt, net);
  send_text = λ ws text net.
      if nat_eq ws 8 then (raised websocket_disconnect, net) else (ok tt, (ws, text) ∷ net);
}

abbrev calls : List Call
calls =
    Call.connect 5 "ws_1_a" "PLAYER" 10
    ∷ Call.connect 7 "ws_2_b" "PLAYER" 20
    ∷ Call.connect 8 "ws_3_c" "PLAYER" 30
    ∷ Call.connect 6 "ws_4_d" "ADMIN" 40
    ∷ []

abbrev start : Gateway (List (ℕ × String))
start = record { manager = empty; net = [] }

run_calls-IsConsistent_example : IsConsistent (run_calls network calls start).manager
run_calls-IsConsistent_example = run_calls-IsConsistent network calls start empty-IsConsistent

abbrev players : Gateway (List (ℕ × String))
players = record {
  manager = record {
    active_connections =
        ("ws_1_a", (5, 10)) ∷ ("ws_2_b", (7, 20)) ∷ ("ws_3_c", (8, 30)) ∷ ("ws_4_d", (6, 40)) ∷ [];
    client_types =
        ("ws_1_a", "PLAYER")
        ∷ ("ws_2_b", "PLAYER")
        ∷ ("ws_3_c", "PLAYER")
        ∷ ("ws_4_d", "ADMIN")
        ∷ [];
  };
  net = [];
}

run_calls_builds : run_calls network calls start ≡ players
unfolding run_calls connect lookup insert
run_calls_builds = refl

-- Two of the three players are found broken.
broadcast_players : (send_message_to_client_type network "PLAYER" "hi" players).0 ≡ ok 1
unfolding send_message_to_client_type broadcast_loop broadcast_one disconnect_all lookup disconnect
    erase
broadcast_players = refl

send_message_to_client_type_example :
    Ends network "PLAYER" "hi" players (send_message_to_client_type network "PLAYER" "hi" players)
send_message_to_client_type_example = send_message_to_client_type_lem network "PLAYER" "hi" players

send_message_to_client-Delivered_example :
    Delivered "ws_2_b" players (send_message_to_client network "ws_2_b" "hi" players)
send_message_to_client-Delivered_example =
    send_message_to_client-Delivered network "ws_2_b" "hi" players

check_round_example :
    ((closed_count : ℕ) × ((check_round network 120 145 players).0 ≡ ok closed_count))
    × ((k : String)
        → lookup k (check_round network 120 145 players).1.manager.active_connections
          ≡ expire 120 145 (lookup k players.manager.active_connections))
check_round_example = check_round_lem network 120 145 players

-- One connection, last active at 10.
abbrev one_client : Gateway (List (ℕ × String))
one_client = record {
  manager = record { active_connections = ("a", (5, 10)) ∷ []; client_types = [] };
  net = [];
}

abbrev quiet : ℕ → Turn (List (ℕ × String))
quiet now = record { others = λ g. g; now = now }

abbrev three_turns : List (Turn (List (ℕ × String)))
three_turns = quiet 12 ∷ quiet 13 ∷ quiet 14 ∷ []

registered : lookup "a" one_client.manager.active_connections ≡ some (5, 10)
unfolding lookup
registered = refl

idle_connection_checker-drops_example :
    ((idle_connection_checker network 1 3 three_turns one_client).0 ≡ ok tt)
    × (lookup "a"
          (idle_connection_checker network 1 3 three_turns one_client).1.manager.active_connections
        ≡ none)
idle_connection_checker-drops_example =
    idle_connection_checker-drops network 1 3 "a" 5 10 11 three_turns one_client (omega arith)
      registered (λ g. refl, (λ g. refl, (λ g. refl, tt)))
      (omega arith, (omega arith, (omega arith, tt))) (omega arith) (omega arith)
