-- ===== src/Outbound.antt =====
-- Messages to the clients: apps/gateway/gateway/websocket_outbound_dispatcher.py, which delivers a
-- backend's message to a connection, and apps/gateway/listeners/event_listener.py, which sends an
-- event to all. Frames are dumped by pydantic: `event_frame` and `error_frame` are parameters.
pub mod Delivery
pub mod Subscribing
use mmo_backend_server.Prelude.{
  ℕ, ◌+◌, String, Bool, true, false, Option, none, some, List, [], ◌∷◌, ◌==◌, nat_eq, if◌then◌else◌,
  Exception, validation_error, Result, ok, raised, Exec, pure, raise, gets, lift, ◌>>=◌, ◌>>◌,
}
use mmo_backend_server.Prelude.Dict.{Dict}
use mmo_backend_server.Connections.{Network, Gateway, send_message_to_client}
use mmo_backend_server.AuthService.{truthy}

-- libs/domain/dto/backend.py
pub record Recipient : Type 0 where
  pub account_id : Option ℕ
  pub connection_id : Option String

pub record ErrorDto : Type 0 where
  pub code : String
  pub message : String

pub record BackendOutboundEnvelope (Payload : Type 0) : Type 0 where
  pub event : String
  pub status : String
  pub payload : Payload
  pub recipient : Option Recipient
  pub final : Bool
  pub error : Option ErrorDto
  pub request_id : Option String
  pub tick : Option ℕ
  pub state_version : Option ℕ

-- The addressees: the connection if one is named, else the account's number as a text.
abbrev pub account_target : (ℕ → String) → Option ℕ → List String
account_target show none = []
account_target show (some n) = if nat_eq n 0 then [] else show n ∷ []

abbrev pub connection_target : (ℕ → String) → Option ℕ → Option String → List String
connection_target show account_id none = account_target show account_id
connection_target show account_id (some connection_id) = connection_id ∷ []

abbrev pub targets_of : (ℕ → String) → Option Recipient → List String
targets_of show none = []
targets_of show (some r) = connection_target show r.account_id (truthy r.connection_id)

abbrev pub error_of : Option ErrorDto → ErrorDto
error_of none = record { code = "common.UNKNOWN"; message = "Unhandled backend error" }
error_of (some e) = e

abbrev pub server_status : Bool → String → String
server_status final status =
    if final then "final" else if status == "update" then "update" else "ok"

module _ {Net Payload : Type 0} (n : Network Net) (show : ℕ → String)
    (error_frame : ErrorDto → Option String → String)
    (event_frame : BackendOutboundEnvelope Payload → String → String) where
  abbrev pub payload_json : BackendOutboundEnvelope Payload → String
  payload_json env =
      if env.status == "error"
      then error_frame (error_of env.error) env.request_id
      else event_frame env (server_status env.final env.status)

  -- The loop over the targets, which counts the deliveries.
  unfoldable pub deliver : String → List String → ℕ → Exec (Gateway Net) ℕ
  deliver message [] delivered = pure delivered
  deliver message (target_id ∷ targets) delivered = do
    sent ← send_message_to_client n target_id message
    deliver message targets (if sent then delivered + 1 else delivered)

  abbrev pub dispatch :
      BackendOutboundEnvelope Payload → List String → Exec (Gateway Net) (Unit {0})
  dispatch env [] = pure tt
  dispatch env targets = deliver (payload_json env) targets 0 >> pure tt

  -- `_handle_outbound_message`; the validation of the body is the caller's argument.
  unfoldable pub handle_outbound_message :
      Result (BackendOutboundEnvelope Payload) → Exec (Gateway Net) (Unit {0})
  handle_outbound_message validated = do
    env ← lift validated
    dispatch env (targets_of show env.recipient)

abbrev keys : {V : Type 0} → Dict V → List String
keys [] = []
keys ((k, v) ∷ d) = k ∷ keys d

module _ {Net : Type 0} (n : Network Net) where
  unfoldable pub send_each : List String → String → Exec (Gateway Net) (Unit {0})
  send_each [] message_json = pure tt
  send_each (client_id ∷ clients) message_json =
      send_message_to_client n client_id message_json >> send_each clients message_json

  -- `EventBroadcastListener.process_message`; the text is dumped from the routing key and the data.
  unfoldable pub broadcast_event : (String → String) → Option String → Exec (Gateway Net) (Unit {0})
  broadcast_event message_json routing_key = do
    active_clients ← gets (λ g. keys g.manager.active_connections)
    send_each active_clients
        (message_json (elim routing_key [ none ↦ "unknown.event" | some key ↦ key ]))
