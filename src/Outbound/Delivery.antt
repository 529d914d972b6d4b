-- ===== src/Outbound/Delivery.antt =====
-- Whom an outbound message reaches.
use mmo_backend_server.Prelude.{
  ℕ, String, ◌≡◌, refl, ap, ◌∙◌, Bool, true, false, Option, none, some, [], ◌∷◌, nat_eq,
  if◌then◌else◌, ok, pure, ◌>>=◌, ◌>>◌,
}
use mmo_backend_server.Prelude.Dict.{lookup}
use mmo_backend_server.Connections.{Network, Gateway}
use mmo_backend_server.Connections.Delivery.{send_message_to_client-absent}
use mmo_backend_server.Outbound.{
  ErrorDto, BackendOutboundEnvelope, handle_outbound_message, deliver, dispatch, targets_of,
  payload_json,
}

module _ {Net Payload : Type 0} (n : Network Net) (show : ℕ → String)
    (error_frame : ErrorDto → Option String → String)
    (event_frame : BackendOutboundEnvelope Payload → String → String) where
  -- A message that names an account and no connection reaches nobody, and changes nothing, unless a
  -- connection is registered under the account's bare number.
  pub handle_outbound_message-account :
      (env : BackendOutboundEnvelope Payload) (account_id : ℕ) (g : Gateway Net)
      → env.recipient ≡ some (record { account_id = some account_id; connection_id = none })
      → lookup (show account_id) g.manager.active_connections ≡ none
      → handle_outbound_message n show error_frame event_frame (ok env) g ≡ (ok tt, g)
  unfolding handle_outbound_message deliver
  handle_outbound_message-account env account_id g addressed absent =
      ap (λ r. dispatch n show error_frame event_frame env (targets_of show r) g) addressed
      ∙ to_number (nat_eq account_id 0)
    where
      message : String
      message = payload_json n show error_frame event_frame env

      to_number :
          (zero : Bool)
          → dispatch n show error_frame event_frame env
              (if zero then [] else show account_id ∷ [])
              g
            ≡ (ok tt, g)
      to_number true = refl
      to_number false =
          ap
            (λ out.
              (((λ (_ : Gateway Net). out) >>= λ sent.
              deliver n show error_frame event_frame message [] (if sent then 1 else 0))
                  >> pure tt)
                g)
            (send_message_to_client-absent n (show account_id) message g absent)
