-- ===== src/Names/Queues.antt =====
-- libs/messaging/rabbitmq_names.py: class `Queues`.
use mmo_backend_server.Prelude.{String}

abbrev pub auth_issue_token_rpc : String
auth_issue_token_rpc = "core.auth.rpc.issue_token.v1"

abbrev pub auth_validate_token_rpc : String
auth_validate_token_rpc = "core.auth.rpc.validate_token.v1"

abbrev pub auth_register_rpc : String
auth_register_rpc = "core.auth.rpc.register.v1"

abbrev pub auth_refresh_token_rpc : String
auth_refresh_token_rpc = "core.auth.rpc.refresh_token.v1"

abbrev pub auth_logout_rpc : String
auth_logout_rpc = "core.auth.rpc.logout.v1"

abbrev pub gateway_ws_outbound : String
gateway_ws_outbound = "core.gateway.queue.ws_outbound.v1"
