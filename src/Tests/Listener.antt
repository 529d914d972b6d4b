-- ===== src/Tests/Listener.antt =====
-- A listener whose bodies are numbers: 0 does not parse, 1 is processed, 2 fails to be processed
-- every time, and 3 is refused by the envelope model.
use mmo_backend_server.Prelude.{
  ℕ, ◌+◌, ◌≡◌, ◌≢◌, refl, All, false, none, some, [], ◌∷◌, ◌++◌, replicate, nat_eq, if◌then◌else◌,
  arith, json_error, validation_error, connection_error, ok, raised,
}
use mmo_backend_server.Names.{get_dlq_name, key_auth_ban, key_auth_failed_attempts}
use mmo_backend_server.Names.Distinct.{key_auth_ban-ne-key_auth_failed_attempts}
use mmo_backend_server.Topology.{declare_auth_topology}
use mmo_backend_server.Topology.Routing.{
  HasRetryCycle, rpc_queues, declare_auth_topology-HasRetryCycle,
}
use mmo_backend_server.Listener.{
  Death, Message, DeathHeader, ack, nack, Port, Session, retry_count, on_message, attempt, recover,
  move_to_dlq, start, stop,
}
use mmo_backend_server.Listener.ExactlyOnce.{SettlesOnce, on_message-SettlesOnce}
use mmo_backend_server.Listener.Verdicts.{IsUp, Carried, judge, on_message-Carried}
use mmo_backend_server.Listener.Retries.{
  Redelivery, rejected, deliveries, life, life_ends, deliveries-unparsed,
}

abbrev port : Port ℕ ℕ ℕ
port = record {
  loads = λ b. if nat_eq b 0 then raised json_error else ok b;
  validate = some (λ j. if nat_eq j 3 then raised validation_error else ok j);
  process_message = λ j msg w. if nat_eq j 2 then (raised connection_error, w) else (ok tt, w + 1);
  publish = λ p w. (ok tt, w);
  settle = λ how w. (ok tt, w);
}

port-IsUp : IsUp port
port-IsUp = record { publishes = λ p w. refl; settles = λ how w. refl; parses = λ b. ground arith }

retry_count-table : (n : ℕ) → retry_count (DeathHeader.entries (Death.table (some n) ∷ [])) ≡ n
unfolding retry_count
retry_count-table n = refl

abbrev redelivery : Redelivery ℕ
redelivery = record {
  redeliver = λ m. record m {
    death_headers = DeathHeader.entries (Death.table (some (retry_count m.death_headers + 1)) ∷ []);
  };
  same_body = λ m. refl;
  counts = λ m. retry_count-table (retry_count m.death_headers + 1);
}

abbrev message : ℕ → Message ℕ
message b = record { body = b; death_headers = DeathHeader.entries []; correlation_id = none }

abbrev session : Session ℕ ℕ
session = record { world = 0; published = []; settled = [] }

on_message-SettlesOnce_example : SettlesOnce [] (on_message port 3 "q" (message 2) session)
on_message-SettlesOnce_example = on_message-SettlesOnce port 3 "q" (message 2) session

on_message-Carried_example :
    Carried port "q"
      (message 3)
      session
      (judge port 3 (message 3) 0)
      (on_message port 3 "q" (message 3) session)
on_message-Carried_example = on_message-Carried port port-IsUp "q" (message 3) 3 session

life_ends_example :
    (s' : Session ℕ ℕ) × (life port redelivery 3 "q" 4 (message 2) session ≡ some s')
    × (rejected s'.settled ≡ false)
life_ends_example =
    life_ends port redelivery 3 "q" port-IsUp 3 (message 2) session 2 refl (omega arith)

deliveries-unparsed_example :
    ((deliveries port redelivery 3 "q" 9 (message 0) session).published ≡ [])
    × ((deliveries port redelivery 3 "q" 9 (message 0) session).settled
        ≡ [] ++ replicate 9 (nack false))
deliveries-unparsed_example =
    deliveries-unparsed port redelivery 3 "q" port-IsUp 9 (message 0) session json_error refl

-- Three rejections, then the dead letter.
life_of_failing :
    life port redelivery 3 "q" 4 (message 2) session
    ≡ some (record {
      world = 0;
      published =
          record {
            exchange_name = "core.dlx.v1";
            routing_key = "q.dlq";
            message = 2;
            correlation_id = none;
          }
          ∷ [];
      settled = nack false ∷ nack false ∷ nack false ∷ ack ∷ [];
    })
unfolding life on_message attempt recover move_to_dlq retry_count get_dlq_name
life_of_failing = refl

-- A listener that is stopped and started again asks for its consumers a second time.
restart :
    (start
      (λ (w : ℕ). (ok tt, w))
      2
      (stop
        (start
          (λ (w : ℕ). (ok tt, w))
          2
          (record {
            started = false;
            stop_requested = false;
            subscriptions = 0;
            world = 0;
          })).1).1).1.subscriptions
    ≡ 4
unfolding start stop
restart = refl

topology_example :
    All (HasRetryCycle (λ pattern key. false) (declare_auth_topology 5000) 5000) rpc_queues
topology_example = declare_auth_topology-HasRetryCycle (λ pattern key. false) 5000

keys_example : key_auth_ban "rate" ≢ key_auth_failed_attempts "ban"
keys_example = key_auth_ban-ne-key_auth_failed_attempts "rate" "ban"
