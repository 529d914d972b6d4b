-- ===== src/Connections/Delivery.antt =====
-- What `send_message_to_client` tells its caller.
use mmo_backend_server.Prelude.{
  ℕ, String, ◌≡◌, ◌≢◌, refl, inl, inr, true, false, Option, none, some, arith, ◌==◌, eq_iff,
  eq_refl, if◌then◌else◌, Bool, Bool-cases, try_except, websocket_disconnect, runtime_error, Result,
  ok, raised, pure, ◌>>◌,
}
use mmo_backend_server.Prelude.Dict.{lookup, contains, lookup-erase}
use mmo_backend_server.Connections.{
  Network, Manager, Gateway, drop_broken, disconnect, send_on, send_message_to_client,
}

-- A client that is disconnected is known no longer, and every other entry stays.
pub lookup-disconnect :
    (k j : String) (m : Manager)
    → lookup j (disconnect k m).active_connections
      ≡ (if k == j then none else lookup j m.active_connections)
unfolding disconnect
lookup-disconnect k j m = ground (arith, lookup-erase k j m.active_connections, eq_iff k j)

-- What a call of `send_message_to_client` leaves, by what it returns.
abbrev pub Delivered : {Net : Type 0} → String → Gateway Net → Result Bool × Gateway Net → Type 0
Delivered client_id g (ok true, g') =
    (contains client_id g.manager.active_connections ≡ true) × (g'.manager ≡ g.manager)
Delivered client_id g (ok false, g') =
    (lookup client_id g'.manager.active_connections ≡ none)
    × ((j : String)
        → client_id ≢ j
        → lookup j g'.manager.active_connections ≡ lookup j g.manager.active_connections)
Delivered client_id g (raised e, g') = g'.manager ≡ g.manager

module _ {Net : Type 0} (n : Network Net) where
  disconnect-Delivered :
      (client_id : String) (g : Gateway Net) (net' : Net)
      → Delivered client_id g
          (ok false, record { manager = disconnect client_id g.manager; net = net' })
  disconnect-Delivered client_id g net' = (
    rw (lookup-disconnect client_id client_id g.manager) (simp eq_refl),
    λ j ne. ground (arith, lookup-disconnect client_id j g.manager, eq_iff client_id j),
  )

  send_text-Delivered :
      (client_id : String) (g : Gateway Net) (sent : Result (Unit {0}) × Net)
      → contains client_id g.manager.active_connections ≡ true
      → Delivered client_id g (
          try_except
            ((λ g'. (sent.0, record g' { net = sent.1 })) >> pure true)
            (drop_broken n client_id)
            g)
  send_text-Delivered client_id g (ok _, net') h = (h, refl)
  send_text-Delivered client_id g (raised websocket_disconnect, net') h =
      disconnect-Delivered client_id g net'
  send_text-Delivered client_id g (raised runtime_error, net') h =
      disconnect-Delivered client_id g net'
  send_text-Delivered client_id g (raised _, net') h = refl

  send_on-Delivered :
      (client_id message : String) (g : Gateway Net) (c : Option (ℕ × ℕ))
      → lookup client_id g.manager.active_connections ≡ c
      → Delivered client_id g (send_on n client_id message c g)
  unfolding send_on
  send_on-Delivered client_id message g none e = (e, λ j _. refl)
  send_on-Delivered client_id message g (some (ws, t)) e =
      elim (Bool-cases (n.is_disconnected ws g.net)) [
        | inl closed ↦ rw closed (disconnect-Delivered client_id g g.net)
        | inr alive ↦
            rw alive (send_text-Delivered client_id g (n.send_text ws message g.net) (rw e refl))
      ]

  -- `True` comes back only for a registered client, and changes no entry; after `False` the client
  -- is registered no longer and every other entry is as before; an exception changes no entry.
  pub send_message_to_client-Delivered :
      (client_id message : String) (g : Gateway Net)
      → Delivered client_id g (send_message_to_client n client_id message g)
  unfolding send_message_to_client
  send_message_to_client-Delivered client_id message g =
      send_on-Delivered client_id message g (lookup client_id g.manager.active_connections) refl

-- Nothing is done for a client that is not registered.
pub send_message_to_client-absent :
    {Net : Type 0} (n : Network Net) (client_id message : String) (g : Gateway Net)
    → lookup client_id g.manager.active_connections ≡ none
    → send_message_to_client n client_id message g ≡ (ok false, g)
unfolding send_message_to_client send_on
send_message_to_client-absent n client_id message g absent = rw absent refl
