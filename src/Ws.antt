-- ===== src/Ws.antt =====
-- apps/gateway/ws/unified_ws.py: the WebSocket endpoint of a player.
-- The client's texts, each with the time at which it arrives, are an argument, with the exception
-- that ends `receive_text`. Frames that the endpoint sends are arguments too (pydantic dumps them).
pub mod Cleanup
use Prim.Native.String.{◌++◌}
use mmo_backend_server.Prelude.{
  ℕ, String, Bool, true, false, Option, none, some, List, [], ◌∷◌, ◌==◌, nat_eq, if◌then◌else◌,
  Exception, websocket_disconnect, Result, ok, raised, Exec, pure, raise, gets, ◌>>=◌, ◌>>◌,
  try_except, try_finally,
}
use mmo_backend_server.Connections
use mmo_backend_server.Connections.{
  Network, Gateway, on_net, on_manager, update_activity, disconnect,
}
use mmo_backend_server.AuthRoutes.{bearer_token}
use mmo_backend_server.AuthService.{truthy}

-- What the endpoint reads of the validation's answer.
pub record TokenReply : Type 0 where
  pub is_valid : Bool
  pub account_id : Option ℕ

-- A valid token with an account whose number is not 0.
abbrev pub account_of : Option TokenReply → Option ℕ
account_of none = none
account_of (some r) =
    if r.is_valid
    then (elim r.account_id [ none ↦ none | some n ↦ if nat_eq n 0 then none else some n ])
    else none

module _ {Net : Type 0} (n : Network Net) where
  -- `get_token_from_ws`: the header, then the query parameter; `none` closes the socket.
  module _ (split : String → List String) (lower : String → String) where
    abbrev header_token : Option String → Option String
    header_token none = none
    header_token (some authorization) = bearer_token lower (split authorization)

    abbrev or_query : ℕ → Option String → Option String → Exec Net String
    or_query websocket (some t) query = pure t
    or_query websocket none (some t) = pure t
    or_query websocket none none = n.close websocket 1008 >> raise websocket_disconnect

    unfoldable pub get_token_from_ws : ℕ → Option String → Option String → Exec Net String
    get_token_from_ws websocket authorization token =
        or_query websocket (header_token (truthy authorization)) (truthy token)

  -- The `except` clauses.
  unfoldable pub on_error : ℕ → Exception → Exec (Gateway Net) (Unit {0})
  on_error websocket websocket_disconnect = pure tt
  on_error websocket e = do
    closed ← gets (λ g. n.is_disconnected websocket g.net)
    if closed then pure tt else on_net n (n.close websocket 1011)

  module _ (has_ping : String → Bool) (pong hello : String) where
    unfoldable pub receive_loop :
        ℕ → String → List (String × ℕ) → Exception → Exec (Gateway Net) (Unit {0})
    receive_loop websocket conn_id [] ending = raise ending
    receive_loop websocket conn_id ((raw_data, now) ∷ frames) ending = do
      on_manager n (update_activity conn_id now)
      if has_ping raw_data then on_net n (n.send_text websocket pong) else pure tt
      receive_loop websocket conn_id frames ending

    abbrev pub session :
        ℕ → String → ℕ → List (String × ℕ) → Exception → Exec (Gateway Net) (Unit {0})
    session websocket conn_id now frames ending = do
      Connections.connect n websocket conn_id "PLAYER" now
      on_net n (n.send_text websocket hello)
      receive_loop websocket conn_id frames ending

    -- The `try` from where `conn_id` is set, with its `finally`.
    unfoldable pub serve :
        ℕ → String → ℕ → List (String × ℕ) → Exception → Exec (Gateway Net) (Unit {0})
    serve websocket conn_id now frames ending =
        try_finally (try_except (session websocket conn_id now frames ending) (on_error websocket))
          (on_manager n (disconnect conn_id))

    -- `f"ws_{account_id}_{uuid.uuid4().hex[:8]}"`
    abbrev pub conn_id_of : (ℕ → String) → ℕ → String → String
    conn_id_of show account_id suffix = "ws_" ++ (show account_id ++ ("_" ++ suffix))

    abbrev admitted :
        (ℕ → String)
        → ℕ
        → String
        → ℕ
        → List (String × ℕ)
        → Exception
        → Option ℕ
        → Exec (Gateway Net) (Unit {0})
    admitted show websocket suffix now frames ending none =
        try_except (on_net n (n.close websocket 1008)) (on_error websocket)
    admitted show websocket suffix now frames ending (some account_id) =
        serve websocket (conn_id_of show account_id suffix) now frames ending

    -- The call of the validation and what follows; `accept` and the call are the framework's.
    unfoldable pub unified_websocket_endpoint :
        (ℕ → Exec (Gateway Net) (Unit {0}))
        → (String → Exec (Gateway Net) (Option TokenReply))
        → (ℕ → String)
        → ℕ
        → String
        → String
        → ℕ
        → List (String × ℕ)
        → Exception
        → Exec (Gateway Net) (Unit {0})
    unified_websocket_endpoint accept call_rpc show websocket token suffix now frames ending = do
      accept websocket
      λ g.
          let (r, g') = call_rpc token g in
          elim r [
            | ok resp ↦ admitted show websocket suffix now frames ending (account_of resp) g'
            | raised e ↦ on_error websocket e g'
          ]
