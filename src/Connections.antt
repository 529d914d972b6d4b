-- ===== src/Connections.antt =====
-- apps/gateway/gateway/client_connection_manager.py: the registry of WebSocket connections.
-- A socket is named by a number, as the registry holds references to socket objects. What the
-- web framework does with a socket is the parameter `Network`. Times are whole ticks of the
-- monotonic clock, read by the caller.
pub mod Consistency
pub mod Delivery
pub mod Broadcast
use mmo_backend_server.Prelude.{
  ℕ, ◌+◌, String, Bool, true, false, not, Option, none, some, List, [], ◌∷◌, ◌++◌, ◌==◌, nat_eq,
  if◌then◌else◌, Exception, runtime_error, websocket_disconnect, Result, ok, raised, Exec, pure,
  raise, gets, modify, ◌>>=◌, ◌>>◌, try_except,
}
use mmo_backend_server.Prelude.Dict.{Dict, lookup, contains, insert, erase}

-- The framework's sockets: `client_state`, `close` and `send_text` on a state of their own.
pub record Network (Net : Type 0) : Type 0 where
  pub is_disconnected : ℕ → Net → Bool
  pub close : ℕ → ℕ → Exec Net (Unit {0})
  pub send_text : ℕ → String → Exec Net (Unit {0})

-- The two dictionaries of `ClientConnectionManager`.
pub record Manager : Type 0 where
  pub active_connections : Dict (ℕ × ℕ)
  pub client_types : Dict String

pub record Gateway (Net : Type 0) : Type 0 where
  pub manager : Manager
  pub net : Net

abbrev pub empty : Manager
empty = record { active_connections = []; client_types = [] }

unfoldable pub disconnect : String → Manager → Manager
disconnect client_id m =
    if contains client_id m.active_connections
    then record {
      active_connections = erase client_id m.active_connections;
      client_types =
          if contains client_id m.client_types
          then erase client_id m.client_types
          else m.client_types;
    }
    else m

unfoldable pub update_activity : String → ℕ → Manager → Manager
update_activity client_id now m = elim (lookup client_id m.active_connections) [
  | none ↦ m
  | some (websocket, _) ↦ record m {
    active_connections = insert client_id (websocket, now) m.active_connections;
  }
]

-- The two assignments of `connect`.
unfoldable pub register : ℕ → String → String → ℕ → Manager → Manager
register websocket client_id client_type now m = record {
  active_connections = insert client_id (websocket, now) m.active_connections;
  client_types = insert client_id client_type m.client_types;
}

find_socket : ℕ → Dict (ℕ × ℕ) → Option String
find_socket websocket [] = none
find_socket websocket ((client_id, (ws, _)) ∷ d) =
    if nat_eq ws websocket then some client_id else find_socket websocket d

unfoldable pub get_client_id_by_websocket : ℕ → Manager → Option String
unfolding find_socket
get_client_id_by_websocket websocket m = find_socket websocket m.active_connections

unfoldable pub get_client_type : String → Manager → Option String
get_client_type client_id m = lookup client_id m.client_types

abbrev pub has_type : String → String → Manager → Bool
has_type client_type client_id m = elim (lookup client_id m.client_types) [
  | none ↦ false
  | some t ↦ t == client_type
]

-- How the broadcast loop counts one round.
abbrev tally : String → Option Bool → ℕ × List String → ℕ × List String
tally client_id none acc = acc
tally client_id (some true) (sent_count, gone) = (sent_count + 1, gone)
tally client_id (some false) (sent_count, gone) = (sent_count, gone ++ client_id ∷ [])

unfoldable pub disconnect_all : List String → Manager → Manager
disconnect_all [] m = m
disconnect_all (client_id ∷ gone) m = disconnect_all gone (disconnect client_id m)

module _ {Net : Type 0} (n : Network Net) where
  abbrev pub on_net : {A : Type 0} → Exec Net A → Exec (Gateway Net) A
  on_net call g = let (r, net') = call g.net in (r, record g { net = net' })

  abbrev pub on_manager : (Manager → Manager) → Exec (Gateway Net) (Unit {0})
  on_manager f = modify (λ g. record g { manager = f g.manager })

  abbrev ignore_runtime_error : Exception → Exec (Gateway Net) (Unit {0})
  ignore_runtime_error runtime_error = pure tt
  ignore_runtime_error e = raise e

  close_replaced : Option (ℕ × ℕ) → Exec (Gateway Net) (Unit {0})
  close_replaced none = pure tt
  close_replaced (some (old, _)) = do
    closed ← gets (λ g. n.is_disconnected old g.net)
    if closed then pure tt else try_except (on_net (n.close old 1000)) ignore_runtime_error

  unfoldable pub connect : ℕ → String → String → ℕ → Exec (Gateway Net) (Unit {0})
  unfolding close_replaced register
  connect websocket client_id client_type now = do
    replaced ← gets (λ g. lookup client_id g.manager.active_connections)
    close_replaced replaced
    on_manager (register websocket client_id client_type now)

  abbrev drop_broken : String → Exception → Exec (Gateway Net) Bool
  drop_broken client_id websocket_disconnect = on_manager (disconnect client_id) >> pure false
  drop_broken client_id runtime_error = on_manager (disconnect client_id) >> pure false
  drop_broken client_id e = raise e

  send_on : String → String → Option (ℕ × ℕ) → Exec (Gateway Net) Bool
  send_on client_id message none = pure false
  send_on client_id message (some (websocket, _)) = do
    closed ← gets (λ g. n.is_disconnected websocket g.net)
    if closed
        then (on_manager (disconnect client_id) >> pure false)
        else try_except (on_net (n.send_text websocket message) >> pure true)
            (drop_broken client_id)

  unfoldable pub send_message_to_client : String → String → Exec (Gateway Net) Bool
  unfolding send_on
  send_message_to_client client_id message = do
    connection ← gets (λ g. lookup client_id g.manager.active_connections)
    send_on client_id message connection

  abbrev pub note_broken : Exception → Exec (Gateway Net) Bool
  note_broken websocket_disconnect = pure false
  note_broken runtime_error = pure false
  note_broken e = raise e

  -- One round of the broadcast loop: `none` for a client of another type, else whether the text
  -- was sent.
  unfoldable pub broadcast_one : String → String → String → ℕ → Exec (Gateway Net) (Option Bool)
  broadcast_one client_type message client_id websocket = do
    wanted ← gets (λ g. has_type client_type client_id g.manager)
    closed ← gets (λ g. n.is_disconnected websocket g.net)
    if not wanted then pure none else if closed then pure (some false) else do
      sent ← try_except (on_net (n.send_text websocket message) >> pure true) note_broken
      pure (some sent)

  -- The loop over the copy of the items; the pair is `sent_count` and `disconnected_clients`.
  unfoldable pub broadcast_loop :
      String → String → Dict (ℕ × ℕ) → ℕ × List String → Exec (Gateway Net) (ℕ × List String)
  broadcast_loop client_type message [] acc = pure acc
  broadcast_loop client_type message ((client_id, (ws, _)) ∷ items) acc = do
    sent ← broadcast_one client_type message client_id ws
    broadcast_loop client_type message items (tally client_id sent acc)

  unfoldable pub send_message_to_client_type : String → String → Exec (Gateway Net) ℕ
  send_message_to_client_type client_type message = do
    items ← gets (λ g. g.manager.active_connections)
    acc ← broadcast_loop client_type message items (0, [])
    on_manager (disconnect_all acc.1)
    pure acc.0
