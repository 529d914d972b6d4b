-- ===== src/Topology.antt =====
-- libs/messaging/rabbitmq_topology.py: the calls that declare exchanges, queues and bindings.
-- The bus is a service outside the program, so a declarator is the list of calls that it makes on
-- `IMessageBus`, in order. RPC_RETRY_DELAY_MS comes from the environment and is an argument.
pub mod Routing
use mmo_backend_server.Prelude.{
  ℕ, String, Bool, true, false, Option, none, some, List, [], ◌∷◌, ◌++◌,
}
use mmo_backend_server.Names.{get_retry_queue_name, get_dlq_name}
use mmo_backend_server.Names.Exchanges
use mmo_backend_server.Names.Queues

-- The `arguments` of a queue, of those that the program sets.
pub record Arguments : Type 0 where
  pub message_ttl : Option ℕ
  pub dead_letter_exchange : Option String
  pub dead_letter_routing_key : Option String

abbrev pub no_arguments : Arguments
no_arguments = record {
  message_ttl = none;
  dead_letter_exchange = none;
  dead_letter_routing_key = none;
}

pub data Declaration : Type 0 where
  -- name, type and durability
  exchange : String → String → Bool → Declaration
  -- name, durability and arguments
  queue : String → Bool → Arguments → Declaration
  -- queue, exchange and routing key
  binding : String → String → String → Declaration

unfoldable pub declare_rpc_queue_with_retry : ℕ → String → String → String → List Declaration
declare_rpc_queue_with_retry retry_delay_ms base_queue_name rpc_exchange dlx_exchange =
    let retry_queue_name = get_retry_queue_name base_queue_name in
    let dlq_name = get_dlq_name base_queue_name in
    Declaration.queue dlq_name true no_arguments
    ∷ Declaration.binding dlq_name dlx_exchange dlq_name
    ∷ Declaration.queue retry_queue_name true (record {
      message_ttl = some retry_delay_ms;
      dead_letter_exchange = some rpc_exchange;
      dead_letter_routing_key = some base_queue_name;
    })
    ∷ Declaration.binding retry_queue_name dlx_exchange retry_queue_name
    ∷ Declaration.queue base_queue_name true (record {
      message_ttl = none;
      dead_letter_exchange = some dlx_exchange;
      dead_letter_routing_key = some retry_queue_name;
    })
    ∷ Declaration.binding base_queue_name rpc_exchange base_queue_name
    ∷ []

abbrev pub declare_rpc : ℕ → String → List Declaration
declare_rpc retry_delay_ms base_queue_name =
    declare_rpc_queue_with_retry retry_delay_ms base_queue_name Exchanges.rpc Exchanges.dlx

abbrev pub declare_exchanges : List Declaration
declare_exchanges =
    Declaration.exchange Exchanges.rpc "direct" true
    ∷ Declaration.exchange Exchanges.events "topic" true
    ∷ Declaration.exchange Exchanges.dlx "direct" true
    ∷ []

unfoldable pub declare_auth_topology : ℕ → List Declaration
unfolding declare_rpc_queue_with_retry
declare_auth_topology retry_delay_ms =
    declare_exchanges
    ++ (declare_rpc retry_delay_ms Queues.auth_issue_token_rpc
        ++ (declare_rpc retry_delay_ms Queues.auth_validate_token_rpc
            ++ (declare_rpc retry_delay_ms Queues.auth_register_rpc
                ++ (declare_rpc retry_delay_ms Queues.auth_refresh_token_rpc
                    ++ declare_rpc retry_delay_ms Queues.auth_logout_rpc))))

unfoldable pub declare_gateway_topology : List Declaration
declare_gateway_topology =
    declare_exchanges ++ Declaration.queue Queues.gateway_ws_outbound true no_arguments ∷ []
