-- ===== src/Connections/Consistency.antt =====
-- The two dictionaries of `ClientConnectionManager` have the same keys, whatever is called.
use mmo_backend_server.Prelude.{
  ℕ, String, ◌≡◌, refl, inl, inr, List, [], ◌∷◌, arith, eq_iff, Option-cases, Exec, pure, ◌>>◌, ◌∙◌,
  Keeps-bind,
}
use mmo_backend_server.Prelude.Dict.{Dict, lookup, contains, lookup-insert, lookup-erase}
use mmo_backend_server.Connections
use mmo_backend_server.Connections.{
  Network, Manager, Gateway, empty, disconnect as disconnect_client, update_activity as touch,
  register, disconnect_all, tally, broadcast_one, broadcast_loop, on_manager,
}

pub record IsConsistent (m : Manager) : Type 0 where
  pub same_keys : (k : String) → contains k m.active_connections ≡ contains k m.client_types

pub empty-IsConsistent : IsConsistent empty
unfolding lookup
empty-IsConsistent = record { same_keys = λ k. refl }

pub disconnect-IsConsistent :
    (client_id : String) (m : Manager)
    → IsConsistent m
    → IsConsistent (disconnect_client client_id m)
unfolding disconnect_client
disconnect-IsConsistent client_id m h = record {
  same_keys = λ k. ground (
    arith,
    lookup-erase client_id k m.active_connections,
    lookup-erase client_id k m.client_types,
    h.same_keys k,
    h.same_keys client_id,
    eq_iff client_id k,
  );
}

pub update_activity-IsConsistent :
    (client_id : String) (now : ℕ) (m : Manager)
    → IsConsistent m
    → IsConsistent (touch client_id now m)
unfolding touch
update_activity-IsConsistent client_id now m h =
    elim (Option-cases (lookup client_id m.active_connections)) [
      | inl e ↦ record { same_keys = λ k. ground (arith, h.same_keys k) }
      | inr (ws, e) ↦ record {
        same_keys = λ k. ground (
          arith,
          lookup-insert client_id k (ws.0, now) m.active_connections,
          h.same_keys k,
          eq_iff client_id k,
        );
      }
    ]

pub register-IsConsistent :
    (websocket : ℕ) (client_id client_type : String) (now : ℕ) (m : Manager)
    → IsConsistent m
    → IsConsistent (register websocket client_id client_type now m)
unfolding register
register-IsConsistent websocket client_id client_type now m h = record {
  same_keys = λ k. ground (
    arith,
    lookup-insert client_id k (websocket, now) m.active_connections,
    lookup-insert client_id k client_type m.client_types,
    h.same_keys k,
  );
}

pub disconnect_all-IsConsistent :
    (gone : List String) (m : Manager) → IsConsistent m → IsConsistent (disconnect_all gone m)
unfolding disconnect_all
disconnect_all-IsConsistent [] m h = h
disconnect_all-IsConsistent (k ∷ gone) m h =
    disconnect_all-IsConsistent gone (disconnect_client k m) (disconnect-IsConsistent k m h)

-- The calls that the gateway makes on its `ClientConnectionManager`, in any order.
pub data Call : Type 0 where
  connect : ℕ → String → String → ℕ → Call
  disconnect : String → Call
  update_activity : String → ℕ → Call
  send_message_to_client : String → String → Call
  send_message_to_client_type : String → String → Call

module _ {Net : Type 0} (n : Network Net) where
  connect-IsConsistent :
      (websocket : ℕ) (client_id client_type : String) (now : ℕ) (g : Gateway Net)
      → IsConsistent g.manager
      → IsConsistent (Connections.connect n websocket client_id client_type now g).1.manager
  unfolding Connections.connect
  connect-IsConsistent websocket client_id client_type now g h =
      ground (arith, register-IsConsistent websocket client_id client_type now g.manager h)

  send-IsConsistent :
      (client_id message : String) (g : Gateway Net)
      → IsConsistent g.manager
      → IsConsistent (Connections.send_message_to_client n client_id message g).1.manager
  unfolding Connections.send_message_to_client
  send-IsConsistent client_id message g h =
      ground (arith, disconnect-IsConsistent client_id g.manager h)

  -- The loop of the broadcast writes to no dictionary.
  pub broadcast_one-manager :
      (client_type message client_id : String) (ws : ℕ) (g : Gateway Net)
      → (broadcast_one n client_type message client_id ws g).1.manager ≡ g.manager
  unfolding broadcast_one
  broadcast_one-manager client_type message client_id ws g = ground arith

  pub broadcast_loop-manager :
      (client_type message : String) (items : Dict (ℕ × ℕ)) (acc : ℕ × List String)
      (g : Gateway Net)
      → (broadcast_loop n client_type message items acc g).1.manager ≡ g.manager
  unfolding broadcast_loop
  broadcast_loop-manager client_type message [] acc g = refl
  broadcast_loop-manager client_type message ((client_id, (ws, t)) ∷ items) acc g =
      Keeps-bind (λ g'. g'.manager ≡ g.manager) (broadcast_one n client_type message client_id ws)
        (λ sent. broadcast_loop n client_type message items (tally client_id sent acc))
        (λ g' e. broadcast_one-manager client_type message client_id ws g' ∙ e)
        (λ sent g' e.
          broadcast_loop-manager client_type message items (tally client_id sent acc) g' ∙ e)
        g refl

  send_type-IsConsistent :
      (client_type message : String) (g : Gateway Net)
      → IsConsistent g.manager
      → IsConsistent (Connections.send_message_to_client_type n client_type message g).1.manager
  unfolding Connections.send_message_to_client_type
  send_type-IsConsistent client_type message g h =
      Keeps-bind (λ g'. IsConsistent g'.manager)
        (broadcast_loop n client_type message g.manager.active_connections (0, []))
        (λ acc. on_manager n (disconnect_all acc.1) >> pure acc.0)
        (λ g' h'. rw (broadcast_loop-manager client_type message _ _ g') h')
        (λ acc g' h'. disconnect_all-IsConsistent acc.1 g'.manager h') g h

  unfoldable pub run_call : Call → Exec (Gateway Net) (Unit {0})
  run_call (connect ws client_id client_type now) =
      Connections.connect n ws client_id client_type now
  run_call (disconnect client_id) = on_manager n (disconnect_client client_id)
  run_call (update_activity client_id now) = on_manager n (touch client_id now)
  run_call (send_message_to_client client_id message) =
      Connections.send_message_to_client n client_id message >> pure tt
  run_call (send_message_to_client_type client_type message) =
      Connections.send_message_to_client_type n client_type message >> pure tt

  -- A call that raises ends only its own task; the next call meets the state that it left.
  unfoldable pub run_calls : List Call → Gateway Net → Gateway Net
  unfolding run_call
  run_calls [] g = g
  run_calls (c ∷ calls) g = run_calls calls (run_call c g).1

  run_call-IsConsistent :
      (c : Call) (g : Gateway Net) → IsConsistent g.manager → IsConsistent (run_call c g).1.manager
  unfolding run_call
  run_call-IsConsistent (connect ws client_id client_type now) g h =
      connect-IsConsistent ws client_id client_type now g h
  run_call-IsConsistent (disconnect client_id) g h = disconnect-IsConsistent client_id g.manager h
  run_call-IsConsistent (update_activity client_id now) g h =
      update_activity-IsConsistent client_id now g.manager h
  run_call-IsConsistent (send_message_to_client client_id message) g h =
      Keeps-bind (λ g'. IsConsistent g'.manager)
        (Connections.send_message_to_client n client_id message) (λ _. pure tt)
        (send-IsConsistent client_id message) (λ _ g' h'. h') g h
  run_call-IsConsistent (send_message_to_client_type client_type message) g h =
      Keeps-bind (λ g'. IsConsistent g'.manager)
        (Connections.send_message_to_client_type n client_type message) (λ _. pure tt)
        (send_type-IsConsistent client_type message) (λ _ g' h'. h') g h

  -- Whatever calls are made on a manager whose two dictionaries have the same keys, and whatever
  -- the sockets do, they have the same keys afterwards.
  pub run_calls-IsConsistent :
      (calls : List Call) (g : Gateway Net)
      → IsConsistent g.manager
      → IsConsistent (run_calls calls g).manager
  unfolding run_calls
  run_calls-IsConsistent [] g h = h
  run_calls-IsConsistent (c ∷ calls) g h =
      run_calls-IsConsistent calls (run_call c g).1 (run_call-IsConsistent c g h)
