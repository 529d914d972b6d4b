-- ===== src/IdleChecker.antt =====
-- apps/gateway/gateway_main.py: the background task that closes idle WebSocket connections.
-- `check_round` is one round of its loop, at the reading `now` of the monotonic clock. The clock's
-- floats are whole ticks here, so `now - last_activity > idle_timeout` is an order of sums.
pub mod Loop
use mmo_backend_server.Prelude.{
  ℕ, ◌+◌, String, ◌≡◌, refl, ◌∙◌, ap, bind-of-ok, inl, inr, Bool, true, false, ◌||◌, Option, none,
  some, List, [], ◌∷◌, map, arith, ◌==◌, eq_iff, if◌then◌else◌, ltb, any, is_some, Bool-cases,
  Result, ok, raised, Exec, pure, gets, ◌>>=◌, ◌>>◌, try_except, try_finally,
}
use mmo_backend_server.Prelude.Dict.{Dict, lookup}
use mmo_backend_server.Connections.{Network, Gateway, disconnect, on_net, on_manager}
use mmo_backend_server.Connections.Delivery.{lookup-disconnect}

-- `list(manager.active_connections.keys())`
abbrev pub keys {ℓ} : {V : Type ℓ} → Dict V → List String
keys d = map (λ e. e.0) d

-- The keys are those that `lookup` finds.
any-keys {ℓ} :
    {V : Type ℓ} (k : String) (d : Dict V) → any (λ j. j == k) (keys d) ≡ is_some (lookup k d)
unfolding lookup
any-keys k [] = refl
any-keys k ((j, v) ∷ d) = ground (arith, any-keys k d)

-- An entry after the round.
abbrev pub expire : ℕ → ℕ → Option (ℕ × ℕ) → Option (ℕ × ℕ)
expire idle_timeout now none = none
expire idle_timeout now (some (ws, last)) =
    if ltb (last + idle_timeout) now then none else some (ws, last)

module _ {Net : Type 0} (n : Network Net) (idle_timeout now : ℕ) where
  close_idle : String → ℕ → Exec (Gateway Net) (Unit {0})
  close_idle client_id websocket =
      try_finally (try_except (on_net n (n.close websocket 1008)) (λ _. pure tt))
        (on_manager n (disconnect client_id))

  check_connection : String → Option (ℕ × ℕ) → ℕ → Exec (Gateway Net) ℕ
  check_connection client_id none closed_count = pure closed_count
  check_connection client_id (some (websocket, last_activity)) closed_count =
      if ltb (last_activity + idle_timeout) now
      then close_idle client_id websocket >> pure (closed_count + 1)
      else pure closed_count

  check_clients : List String → ℕ → Exec (Gateway Net) ℕ
  check_clients [] closed_count = pure closed_count
  check_clients (client_id ∷ client_ids) closed_count = do
    connection ← gets (λ g. lookup client_id g.manager.active_connections)
    closed_count' ← check_connection client_id connection closed_count
    check_clients client_ids closed_count'

  pub check_round : Exec (Gateway Net) ℕ
  check_round = do
    client_ids ← gets (λ g. keys g.manager.active_connections)
    check_clients client_ids 0

  -- However `close` ends, the client is dropped and nothing is raised.
  close_idle_lem :
      (client_id : String) (websocket : ℕ) (g : Gateway Net)
      → close_idle client_id websocket g ≡ (
        ok tt,
        record { manager = disconnect client_id g.manager; net = (n.close websocket 1008 g.net).1 },
      )
  unfolding close_idle
  close_idle_lem client_id websocket g = closed (n.close websocket 1008 g.net)
    where
      closed :
          (out : Result (Unit {0}) × Net)
          → try_finally
              (try_except (λ g'. (out.0, record g' { net = out.1 })) (λ _. pure tt))
              (on_manager n (disconnect client_id))
              g
            ≡ (ok tt, record { manager = disconnect client_id g.manager; net = out.1 })
      closed (ok _, net') = refl
      closed (raised _, net') = refl

  -- One client's check returns, drops that client if it is idle, and touches no other.
  check_connection-total :
      (client_id : String) (c : Option (ℕ × ℕ)) (closed_count : ℕ) (g : Gateway Net)
      → (r : ℕ) × ((check_connection client_id c closed_count g).0 ≡ ok r)
  unfolding check_connection
  check_connection-total client_id none closed_count g = (closed_count, refl)
  check_connection-total client_id (some (ws, last)) closed_count g =
      elim (Bool-cases (ltb (last + idle_timeout) now)) [
        | inl idle ↦ (closed_count + 1, ground (arith, close_idle_lem client_id ws g))
        | inr fresh ↦ (closed_count, rw fresh)
      ]

  lookup-check_connection :
      (client_id k : String) (c : Option (ℕ × ℕ)) (closed_count : ℕ) (g : Gateway Net)
      → lookup client_id g.manager.active_connections ≡ c
      → lookup k (check_connection client_id c closed_count g).1.manager.active_connections ≡ (
          if client_id == k
          then expire idle_timeout now (lookup k g.manager.active_connections)
          else lookup k g.manager.active_connections)
  unfolding check_connection
  lookup-check_connection client_id k none closed_count g e = ground (arith, eq_iff client_id k)
  lookup-check_connection client_id k (some (ws, last)) closed_count g e = ground (
    arith,
    eq_iff client_id k,
    close_idle_lem client_id ws g,
    lookup-disconnect client_id k g.manager,
  )

  expire-expire :
      (o : Option (ℕ × ℕ))
      → expire idle_timeout now (expire idle_timeout now o) ≡ expire idle_timeout now o
  expire-expire o = ground arith

  expire_twice :
      (b c : Bool) (o : Option (ℕ × ℕ))
      → (if c
          then expire idle_timeout now (if b then expire idle_timeout now o else o)
          else if b
          then expire idle_timeout now o
          else o)
        ≡ (if b || c then expire idle_timeout now o else o)
  expire_twice true true o = expire-expire o
  expire_twice true false o = refl
  expire_twice false c o = refl

  expire_known :
      (o : Option (ℕ × ℕ))
      → (if is_some o then expire idle_timeout now o else o) ≡ expire idle_timeout now o
  expire_known none = refl
  expire_known (some e) = refl

  -- The loop returns.
  check_clients-total :
      (ids : List String) (closed_count : ℕ) (g : Gateway Net)
      → (r : ℕ) × ((check_clients ids closed_count g).0 ≡ ok r)
  unfolding check_clients
  check_clients-total [] closed_count g = (closed_count, refl)
  check_clients-total (client_id ∷ ids) closed_count g =
      let c : Option (ℕ × ℕ) = lookup client_id g.manager.active_connections in
      let m1 : Exec (Gateway Net) ℕ = check_connection client_id c closed_count in
      let (r, er) = check_connection-total client_id c closed_count g in
      let (r', er') = check_clients-total ids r (m1 g).1 in
      (r', ap (λ out. out.0) (bind-of-ok m1 (check_clients ids) g er) ∙ er')

  -- The loop expires the entries of the clients that it visits, and leaves the others.
  lookup-check_clients :
      (k : String) (ids : List String) (closed_count : ℕ) (g : Gateway Net)
      → lookup k (check_clients ids closed_count g).1.manager.active_connections ≡ (
          if any (λ j. j == k) ids
          then expire idle_timeout now (lookup k g.manager.active_connections)
          else lookup k g.manager.active_connections)
  unfolding check_clients
  lookup-check_clients k [] closed_count g = refl
  lookup-check_clients k (client_id ∷ ids) closed_count g =
      let c : Option (ℕ × ℕ) = lookup client_id g.manager.active_connections in
      let m1 : Exec (Gateway Net) ℕ = check_connection client_id c closed_count in
      let (r, er) = check_connection-total client_id c closed_count g in
      let visited = lookup-check_connection client_id k c closed_count g refl in
      let rest = lookup-check_clients k ids r (m1 g).1 in
      let go_on = bind-of-ok m1 (check_clients ids) g er in
      rw (go_on, rest, visited)
        (expire_twice (client_id == k) (any (λ j. j == k) ids)
          (lookup k g.manager.active_connections))

  -- A round of the checker returns. It drops a connection exactly if that has been silent for
  -- more than the timeout, and keeps every other connection as it is.
  pub check_round_lem :
      (g : Gateway Net)
      → ((closed_count : ℕ) × ((check_round g).0 ≡ ok closed_count))
        × ((k : String)
            → lookup k (check_round g).1.manager.active_connections
              ≡ expire idle_timeout now (lookup k g.manager.active_connections))
  unfolding check_round
  check_round_lem g = (
    check_clients-total (keys g.manager.active_connections) 0 g,
    λ k.
        let d : Dict (ℕ × ℕ) = g.manager.active_connections in
        rw (lookup-check_clients k (keys d) 0 g, any-keys k d) (expire_known (lookup k d)),
  )
