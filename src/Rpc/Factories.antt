-- ===== src/Rpc/Factories.antt =====
-- apps/auth_svc/listeners/__init__.py: which queue each listener consumes, with which handler.
use mmo_backend_server.Prelude.{String}
use mmo_backend_server.Names.Queues.{
  auth_issue_token_rpc, auth_validate_token_rpc, auth_register_rpc, auth_refresh_token_rpc,
  auth_logout_rpc,
}

pub data Handler : Type 0 where
  issue_token_handler validate_token_handler register_handler : Handler
  refresh_token_handler logout_handler : Handler

pub record ListenerOf : Type 0 where
  pub queue_name : String
  pub handler : Handler

abbrev pub create_issue_token_listener : ListenerOf
create_issue_token_listener = record {
  queue_name = auth_issue_token_rpc;
  handler = issue_token_handler;
}

abbrev pub create_validate_token_listener : ListenerOf
create_validate_token_listener = record {
  queue_name = auth_validate_token_rpc;
  handler = validate_token_handler;
}

abbrev pub create_register_listener : ListenerOf
create_register_listener = record { queue_name = auth_register_rpc; handler = register_handler }

abbrev pub create_refresh_token_listener : ListenerOf
create_refresh_token_listener = record {
  queue_name = auth_refresh_token_rpc;
  handler = refresh_token_handler;
}

abbrev pub create_logout_listener : ListenerOf
create_logout_listener = record { queue_name = auth_logout_rpc; handler = logout_handler }
