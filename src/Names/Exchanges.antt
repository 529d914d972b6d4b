-- ===== src/Names/Exchanges.antt =====
-- libs/messaging/rabbitmq_names.py: class `Exchanges`.
use mmo_backend_server.Prelude.{String}

abbrev pub rpc : String
rpc = "core.rpc.v1"

abbrev pub events : String
events = "core.events.v1"

abbrev pub dlx : String
dlx = "core.dlx.v1"
