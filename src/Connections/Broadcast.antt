-- ===== src/Connections/Broadcast.antt =====
-- `send_message_to_client_type`: whom a broadcast reaches, and whom it disconnects.
use mathlib.Core.List.{append-nil, append_assoc}
use mmo_backend_server.Prelude.{
  ℕ, ◌+◌, not, bind-of-ok, String, ◌≡◌, ◌⊎◌, inl, inr, refl, sym, ap, subst, ◌∙◌, Bool, true, false,
  Option, none, some, List, [], ◌∷◌, ◌++◌, ◌==◌, eq_iff, arith, any, length, if◌then◌else◌,
  Exception, websocket_disconnect, runtime_error, Result, ok, raised, ok-injective, Exec, pure,
  ◌>>=◌, ◌>>◌, try_except, bind-eq-raised, bind-eq-ok,
}
use mmo_backend_server.Prelude.Dict.{Dict, lookup}
use mmo_backend_server.Connections.{
  Network, Manager, Gateway, disconnect, disconnect_all, tally, note_broken, has_type,
  broadcast_one, broadcast_loop, send_message_to_client_type, on_manager, on_net,
}
use mmo_backend_server.Connections.Consistency.{broadcast_loop-manager, broadcast_one-manager}
use mmo_backend_server.Connections.Delivery.{lookup-disconnect}

-- The two errors by which sending shows that a connection is broken.
abbrev pub IsBreak : Exception → Type 0
IsBreak e = (e ≡ websocket_disconnect) ⊎ (e ≡ runtime_error)

raised_as :
    {A B : Type 0} {x e : Exception}
    → ◌≡◌ {A = Result A} (raised x) (raised e)
    → ◌≡◌ {A = Result B} (raised x) (raised e)
raised_as same = cc

module _ {Net : Type 0} (n : Network Net) (client_type message : String) (m : Manager) where
  -- What happens to one client in a broadcast: it is of another type, or its socket is closed, or
  -- the message is sent on its socket, or sending fails. The sockets change by sending alone.
  pub data Turn (client_id : String) (ws : ℕ) (net : Net) : Option Bool → Net → Type 0 where
    of_another_type : has_type client_type client_id m ≡ false → Turn client_id ws net none net
    found_closed :
        has_type client_type client_id m ≡ true
        → n.is_disconnected ws net ≡ true
        → Turn client_id ws net (some false) net
    delivered :
        {net' : Net}
        → has_type client_type client_id m ≡ true
        → n.is_disconnected ws net ≡ false
        → n.send_text ws message net ≡ (ok tt, net')
        → Turn client_id ws net (some true) net'
    failed :
        {net' : Net} (e : Exception)
        → has_type client_type client_id m ≡ true
        → n.is_disconnected ws net ≡ false
        → n.send_text ws message net ≡ (raised e, net')
        → IsBreak e
        → Turn client_id ws net (some false) net'

  -- The clients that are sent to and those that are found broken, each in the registry's order.
  pub data Round : Dict (ℕ × ℕ) → Net → List String → List String → Net → Type 0 where
    ended : {net : Net} → Round [] net [] [] net
    skipped :
        {client_id : String} {ws t : ℕ} {items : Dict (ℕ × ℕ)} {net net1 net' : Net}
        {sent gone : List String}
        → Turn client_id ws net none net1
        → Round items net1 sent gone net'
        → Round ((client_id, (ws, t)) ∷ items) net sent gone net'
    reached :
        {client_id : String} {ws t : ℕ} {items : Dict (ℕ × ℕ)} {net net1 net' : Net}
        {sent gone : List String}
        → Turn client_id ws net (some true) net1
        → Round items net1 sent gone net'
        → Round ((client_id, (ws, t)) ∷ items) net (client_id ∷ sent) gone net'
    lost :
        {client_id : String} {ws t : ℕ} {items : Dict (ℕ × ℕ)} {net net1 net' : Net}
        {sent gone : List String}
        → Turn client_id ws net (some false) net1
        → Round items net1 sent gone net'
        → Round ((client_id, (ws, t)) ∷ items) net sent (client_id ∷ gone) net'

  text_sent :
      (client_id : String) (ws : ℕ) (g : Gateway Net) (out : Result (Unit {0}) × Net)
      (o : Option Bool)
      → has_type client_type client_id m ≡ true
      → n.is_disconnected ws g.net ≡ false
      → n.send_text ws message g.net ≡ out
      → let sending : Exec (Gateway Net) (Option Bool) =
          try_except ((λ g'. (out.0, record g' { net = out.1 })) >> pure true) (note_broken n)
          >>= λ sent. pure (some sent) in
        (sending g).0 ≡ ok o → Turn client_id ws g.net o (sending g).1.net
  text_sent client_id ws g (ok _, net') o typed alive e eo =
      subst (λ r. Turn client_id ws g.net r net') (ok-injective eo) (delivered typed alive e)
  text_sent client_id ws g (raised websocket_disconnect, net') o typed alive e eo =
      subst (λ r. Turn client_id ws g.net r net') (ok-injective eo)
        (failed websocket_disconnect typed alive e (inl refl))
  text_sent client_id ws g (raised runtime_error, net') o typed alive e eo =
      subst (λ r. Turn client_id ws g.net r net') (ok-injective eo)
        (failed runtime_error typed alive e (inr refl))
  text_sent client_id ws g (raised _, net') o typed alive e eo = cc

  by_tests :
      (client_id : String) (ws : ℕ) (g : Gateway Net) (o : Option Bool) (typed closed : Bool)
      → has_type client_type client_id m ≡ typed
      → n.is_disconnected ws g.net ≡ closed
      → let whole : Exec (Gateway Net) (Option Bool) =
          if not typed then pure none else if closed then pure (some false) else (do
            sent ← try_except (on_net n (n.send_text ws message) >> pure true) (note_broken n)
            pure (some sent)) in
        (whole g).0 ≡ ok o → Turn client_id ws g.net o (whole g).1.net
  by_tests client_id ws g o false closed typed e eo =
      subst (λ r. Turn client_id ws g.net r g.net) (ok-injective eo) (of_another_type typed)
  by_tests client_id ws g o true true typed e eo =
      subst (λ r. Turn client_id ws g.net r g.net) (ok-injective eo) (found_closed typed e)
  by_tests client_id ws g o true false typed e eo =
      text_sent client_id ws g (n.send_text ws message g.net) o typed e refl eo

  broadcast_one-Turn :
      (client_id : String) (ws : ℕ) (g : Gateway Net) (o : Option Bool)
      → g.manager ≡ m
      → (broadcast_one n client_type message client_id ws g).0 ≡ ok o
      → Turn client_id ws g.net o (broadcast_one n client_type message client_id ws g).1.net
  unfolding broadcast_one
  broadcast_one-Turn client_id ws g o same eo =
      by_tests client_id ws g o (has_type client_type client_id g.manager)
        (n.is_disconnected ws g.net) (ap (has_type client_type client_id) (sym same)) refl eo

  -- What the loop adds to its accumulator.
  record Rounds (items : Dict (ℕ × ℕ)) (net net' : Net) (acc r : ℕ × List String) : Type 0 where
    sent : List String
    gone : List String
    round : Round items net sent gone net'
    counted : r.0 ≡ acc.0 + length sent
    noted : r.1 ≡ acc.1 ++ gone

  Rounds-next :
      (client_id : String) (ws t : ℕ) (items : Dict (ℕ × ℕ)) (net net1 net' : Net) (o : Option Bool)
      (acc r : ℕ × List String)
      → Turn client_id ws net o net1
      → Rounds items net1 net' (tally client_id o acc) r
      → Rounds ((client_id, (ws, t)) ∷ items) net net' acc r
  Rounds-next client_id ws t items net net1 net' none acc r turn rs = record {
    sent = rs.sent;
    gone = rs.gone;
    round = skipped turn rs.round;
    counted = rs.counted;
    noted = rs.noted;
  }
  Rounds-next client_id ws t items net net1 net' (some true) (c, l) r turn rs = record {
    sent = client_id ∷ rs.sent;
    gone = rs.gone;
    round = reached turn rs.round;
    counted = omega (arith, rs.counted);
    noted = rs.noted;
  }
  Rounds-next client_id ws t items net net1 net' (some false) (c, l) r turn rs = record {
    sent = rs.sent;
    gone = client_id ∷ rs.gone;
    round = lost turn rs.round;
    counted = rs.counted;
    noted = rs.noted ∙ append_assoc l (client_id ∷ []) rs.gone;
  }

  broadcast_loop-Rounds :
      (items : Dict (ℕ × ℕ)) (acc : ℕ × List String) (g : Gateway Net) (r : ℕ × List String)
      → g.manager ≡ m
      → (broadcast_loop n client_type message items acc g).0 ≡ ok r
      → Rounds items g.net (broadcast_loop n client_type message items acc g).1.net acc r
  unfolding broadcast_loop
  broadcast_loop-Rounds [] acc g r same e =
      subst (Rounds [] g.net g.net acc) (ok-injective e) (record {
        sent = [];
        gone = [];
        round = ended;
        counted = omega arith;
        noted = sym (append-nil acc.1);
      })
  broadcast_loop-Rounds ((client_id, (ws, t)) ∷ items) acc g r same e =
      let m1 : Exec (Gateway Net) (Option Bool) =
        broadcast_one n client_type message client_id ws in
      let rest : Option Bool → Exec (Gateway Net) (ℕ × List String) =
        λ sent. broadcast_loop n client_type message items (tally client_id sent acc) in
      let (o, eo, er) = bind-eq-ok m1 rest g e in
      let kept : (m1 g).1.manager ≡ m =
        broadcast_one-manager n client_type message client_id ws g ∙ same in
      subst (λ v. Rounds ((client_id, (ws, t)) ∷ items) g.net v acc r)
        (ap (λ out. out.1.net) (sym (bind-of-ok m1 rest g eo)))
        (Rounds-next client_id ws t items g.net (m1 g).1.net _ o acc r
          (broadcast_one-Turn client_id ws g o same eo)
          (broadcast_loop-Rounds items (tally client_id o acc) (m1 g).1 r kept er))

  -- Sending raised an exception that shows no broken connection.
  pub record Failure (e : Exception) : Type 0 where
    pub unexpected : ¬ IsBreak e
    pub ws : ℕ
    pub net : Net
    pub sending : (n.send_text ws message net).0 ≡ raised e

  text_raised :
      (ws : ℕ) (g : Gateway Net) (out : Result (Unit {0}) × Net) (e : Exception)
      → n.send_text ws message g.net ≡ out
      → let sending : Exec (Gateway Net) (Option Bool) =
          try_except ((λ g'. (out.0, record g' { net = out.1 })) >> pure true) (note_broken n)
          >>= λ sent. pure (some sent) in
        (sending g).0 ≡ raised e → Failure e
  text_raised ws g (ok _, net') e sent eo = cc
  text_raised ws g (raised websocket_disconnect, net') e sent eo = cc
  text_raised ws g (raised runtime_error, net') e sent eo = cc
  text_raised ws g (raised _, net') e sent eo = record {
    unexpected = λ broken. ground arith;
    ws = ws;
    net = g.net;
    sending = ap (λ r. r.0) sent ∙ raised_as eo;
  }

  tests_raised :
      (client_id : String) (ws : ℕ) (g : Gateway Net) (e : Exception) (typed closed : Bool)
      → let whole : Exec (Gateway Net) (Option Bool) =
          if not typed then pure none else if closed then pure (some false) else (do
            sent ← try_except (on_net n (n.send_text ws message) >> pure true) (note_broken n)
            pure (some sent)) in
        (whole g).0 ≡ raised e → Failure e
  tests_raised client_id ws g e false closed eo = cc
  tests_raised client_id ws g e true true eo = cc
  tests_raised client_id ws g e true false eo =
      text_raised ws g (n.send_text ws message g.net) e refl eo

  broadcast_loop-Failure :
      (items : Dict (ℕ × ℕ)) (acc : ℕ × List String) (g : Gateway Net) (e : Exception)
      → (broadcast_loop n client_type message items acc g).0 ≡ raised e
      → Failure e
  unfolding broadcast_loop broadcast_one
  broadcast_loop-Failure [] acc g e eo = cc
  broadcast_loop-Failure ((client_id, (ws, t)) ∷ items) acc g e eo =
      let m1 : Exec (Gateway Net) (Option Bool) =
        broadcast_one n client_type message client_id ws in
      let rest : Option Bool → Exec (Gateway Net) (ℕ × List String) =
        λ sent. broadcast_loop n client_type message items (tally client_id sent acc) in
      elim (bind-eq-raised m1 rest g eo) [
        | inl first ↦
            tests_raised client_id ws g e (has_type client_type client_id g.manager)
              (n.is_disconnected ws g.net) first
        | inr (o, _, later) ↦ broadcast_loop-Failure items (tally client_id o acc) (m1 g).1 e later
      ]

lookup-disconnect_all :
    (gone : List String) (j : String) (m : Manager)
    → lookup j (disconnect_all gone m).active_connections
      ≡ (if any (λ k. k == j) gone then none else lookup j m.active_connections)
unfolding disconnect_all
lookup-disconnect_all [] j m = refl
lookup-disconnect_all (k ∷ gone) j m =
    ground
      (arith, eq_iff k j, lookup-disconnect k j m, lookup-disconnect_all gone j (disconnect k m))

module _ {Net : Type 0} (n : Network Net) where
  -- What a broadcast that counted `sent_count` leaves.
  pub record Broadcast (client_type message : String) (sent_count : ℕ) (g g' : Gateway Net)
      : Type 0 where
    pub sent : List String
    pub gone : List String
    pub round :
        Round n client_type message g.manager g.manager.active_connections g.net sent gone g'.net
    pub counted : sent_count ≡ length sent
    pub left :
        (j : String)
        → lookup j g'.manager.active_connections
          ≡ (if any (λ k. k == j) gone then none else lookup j g.manager.active_connections)

  -- How a broadcast ends: it returns its count, or with an exception of sending that shows no broken
  -- connection, and then no client is disconnected.
  abbrev pub Ends : String → String → Gateway Net → Result ℕ × Gateway Net → Type 0
  Ends client_type message g (ok sent_count, g') = Broadcast client_type message sent_count g g'
  Ends client_type message g (raised e, g') =
      Failure n client_type message g.manager e × (g'.manager ≡ g.manager)

  loop-Ends :
      (client_type message : String) (g : Gateway Net)
      (out : Result (ℕ × List String) × Gateway Net)
      → out.1.manager ≡ g.manager
      → ((r : ℕ × List String)
          → out.0 ≡ ok r
          → Rounds n client_type message g.manager g.manager.active_connections g.net out.1.net
              (0, [])
              r)
      → ((e : Exception) → out.0 ≡ raised e → Failure n client_type message g.manager e)
      → Ends client_type message g
          (((λ _. out) >>= λ acc. on_manager n (disconnect_all acc.1) >> pure acc.0) g)
  loop-Ends client_type message g (ok r, g') kept returned raises =
      let rs = returned r refl in
      record {
        sent = rs.sent;
        gone = rs.gone;
        round = rs.round;
        counted = rs.counted ∙ grind arith;
        left = λ j.
            ap (λ l. lookup j (disconnect_all l g'.manager).active_connections) rs.noted
            ∙ lookup-disconnect_all rs.gone j g'.manager
            ∙ ap (λ v. if any (λ k. k == j) rs.gone then none else lookup j v.active_connections)
                kept;
      }
  loop-Ends client_type message g (raised e, g') kept returned raises = (raises e refl, kept)

  -- A broadcast goes once through the registered clients in their order: for each of the type whose
  -- socket is open it sends the message on that socket, and on no other. When it returns, those whose
  -- sending succeeded are counted in the result, and those whose socket was closed or failed, and no
  -- others, are registered no longer, with every other entry as before. It raises only what sending
  -- raised, and neither of the two errors that show a broken connection; then the registry is as before.
  pub send_message_to_client_type_lem :
      (client_type message : String) (g : Gateway Net)
      → Ends client_type message g (send_message_to_client_type n client_type message g)
  unfolding send_message_to_client_type
  send_message_to_client_type_lem client_type message g =
      let items : Dict (ℕ × ℕ) = g.manager.active_connections in
      loop-Ends client_type message g (broadcast_loop n client_type message items (0, []) g)
        (broadcast_loop-manager n client_type message items (0, []) g)
        (λ r e. broadcast_loop-Rounds n client_type message g.manager items (0, []) g r refl e)
        (λ e raises.
          broadcast_loop-Failure n client_type message g.manager items (0, []) g e raises)
