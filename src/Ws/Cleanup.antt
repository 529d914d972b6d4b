-- ===== src/Ws/Cleanup.antt =====
-- What a WebSocket session leaves in the registry.
use mmo_backend_server.Prelude.{
  ℕ, String, ◌≡◌, refl, ap, ◌∙◌, Bool, true, false, Option, none, List, [], ◌∷◌, ◌==◌, arith,
  if◌then◌else◌, Exception, Exec, pure, ◌>>=◌, try_except, try_finally-state, Keeps, Keeps-bind,
  Keeps-try, Option-cases, inl, inr,
}
use mmo_backend_server.Prelude.Dict.{lookup, lookup-insert}
use mmo_backend_server.Connections
use mmo_backend_server.Connections.{
  Network, Gateway, on_net, on_manager, update_activity, disconnect, register,
}
use mmo_backend_server.Connections.Delivery.{lookup-disconnect}
use mmo_backend_server.Ws.{serve, session, receive_loop, on_error}

own_or_kept :
    (own : Bool) (x y : Option (ℕ × ℕ))
    → (own ≡ false → x ≡ y)
    → (if own then none else x) ≡ (if own then none else y)
own_or_kept true x y kept = refl
own_or_kept false x y kept = kept refl

module _ {Net : Type 0} (n : Network Net) (conn_id j : String) (other : conn_id == j ≡ false)
    (seen : Option (ℕ × ℕ)) where
  -- The entry of another connection.
  abbrev Kept : Gateway Net → Type 0
  Kept g = lookup j g.manager.active_connections ≡ seen

  update-Keeps : (now : ℕ) → Keeps Kept (on_manager n (update_activity conn_id now))
  unfolding update_activity
  update-Keeps now g h = elim (Option-cases (lookup conn_id g.manager.active_connections)) [
    | inl absent ↦ ground (arith, absent, h)
    | inr (entry, found) ↦
        ground
          (arith, found, h, lookup-insert conn_id j (entry.0, now) g.manager.active_connections)
  ]

  connect-Keeps :
      (websocket now : ℕ) → Keeps Kept (Connections.connect n websocket conn_id "PLAYER" now)
  unfolding Connections.connect register
  connect-Keeps websocket now g h =
      ground (arith, h, lookup-insert conn_id j (websocket, now) g.manager.active_connections)

  on_error-Keeps : (websocket : ℕ) (e : Exception) → Keeps Kept (on_error n websocket e)
  unfolding on_error
  on_error-Keeps websocket e g h = ground (arith, h)

  module _ (has_ping : String → Bool) (pong hello : String) where
    pong-Keeps :
        (websocket : ℕ) (raw_data : String)
        → Keeps Kept (if has_ping raw_data then on_net n (n.send_text websocket pong) else pure tt)
    pong-Keeps websocket raw_data g h = ground (arith, h)

    receive_loop-Keeps :
        (websocket : ℕ) (frames : List (String × ℕ)) (ending : Exception)
        → Keeps Kept (receive_loop n has_ping pong hello websocket conn_id frames ending)
    unfolding receive_loop
    receive_loop-Keeps websocket [] ending = λ g h. h
    receive_loop-Keeps websocket ((raw_data, now) ∷ frames) ending =
        let rest : Unit {0} → Exec (Gateway Net) (Unit {0}) =
          λ _. receive_loop n has_ping pong hello websocket conn_id frames ending in
        let answer : Exec (Gateway Net) (Unit {0}) =
          if has_ping raw_data then on_net n (n.send_text websocket pong) else pure tt in
        Keeps-bind Kept (on_manager n (update_activity conn_id now)) (λ _. answer >>= rest)
          (update-Keeps now)
          (λ _.
            Keeps-bind Kept answer rest (pong-Keeps websocket raw_data)
              (λ _. receive_loop-Keeps websocket frames ending))

    session-Keeps :
        (websocket now : ℕ) (frames : List (String × ℕ)) (ending : Exception)
        → Keeps Kept (session n has_ping pong hello websocket conn_id now frames ending)
    session-Keeps websocket now frames ending =
        let rest : Unit {0} → Exec (Gateway Net) (Unit {0}) =
          λ _. receive_loop n has_ping pong hello websocket conn_id frames ending in
        let greet : Exec (Gateway Net) (Unit {0}) = on_net n (n.send_text websocket hello) in
        Keeps-bind Kept (Connections.connect n websocket conn_id "PLAYER" now) (λ _. greet >>= rest)
          (connect-Keeps websocket now)
          (λ _.
            Keeps-bind Kept greet rest (λ g h. h) (λ _. receive_loop-Keeps websocket frames ending))

    handled-Keeps :
        (m : Exec (Gateway Net) (Unit {0})) (websocket : ℕ)
        → Keeps Kept m
        → Keeps Kept (try_except m (on_error n websocket))
    handled-Keeps m websocket km g h =
        Keeps-try Kept m (on_error n websocket) km (on_error-Keeps websocket) g h

module _ {Net : Type 0} (n : Network Net) (has_ping : String → Bool) (pong hello : String) where
  -- However a session ends, and whatever the sockets do, its own connection is registered no
  -- longer afterwards, and every other connection has the entry that it had before. Other tasks
  -- do not use the registry meanwhile.
  pub serve-lookup :
      (websocket : ℕ) (conn_id : String) (now : ℕ) (frames : List (String × ℕ)) (ending : Exception)
      (g : Gateway Net) (j : String)
      → lookup j
          (serve n has_ping pong hello websocket conn_id now frames ending
            g).1.manager.active_connections
        ≡ (if conn_id == j then none else lookup j g.manager.active_connections)
  unfolding serve
  serve-lookup websocket conn_id now frames ending g j =
      let handled : Exec (Gateway Net) (Unit {0}) =
        try_except (session n has_ping pong hello websocket conn_id now frames ending)
          (on_error n websocket) in
      let after : Gateway Net = (handled g).1 in
      ap (λ x. lookup j x.manager.active_connections)
        (try_finally-state handled (on_manager n (disconnect conn_id)) g)
      ∙ lookup-disconnect conn_id j after.manager
      ∙ own_or_kept (conn_id == j) _ _ (λ other.
        handled-Keeps n conn_id j other (lookup j g.manager.active_connections) has_ping pong hello
          (session n has_ping pong hello websocket conn_id now frames ending) websocket
          (session-Keeps n conn_id j other (lookup j g.manager.active_connections) has_ping pong
            hello websocket now frames ending)
          g refl)
