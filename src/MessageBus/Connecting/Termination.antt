-- ===== src/MessageBus/Connecting/Termination.antt =====
-- The connect loop ends by its deadline.
use mmo_backend_server.Prelude.{
  ℕ, zero, suc, ◌+◌, ◌≤◌, ◌<◌, ◌≡◌, refl, true, false, some, arith, is_some, Exception,
  connection_closed, channel_closed, Result, ok, raised, Exec, pure, ◌>>◌, Bool, ok-injective,
  true-ne-false, Triple, both-Ends, both-Ends-state, subst, sym, bind-of-ok, bind-eq-ok, try_except,
}
use mmo_backend_server.Prelude.Runs.{Terminates}
use mmo_backend_server.MessageBus.Broker.{AioPika, Config, Bus, rpc_replies}
use mmo_backend_server.MessageBus.Broker.Laws.{Clock}
use mmo_backend_server.MessageBus.Connecting.Turns.{At, connect_once-At}
use mmo_backend_server.MessageBus.Connecting.{
  connect_once, reply_to_queue, after_failure, turn, connect_loop, connect, deadline_of,
  raise_if_past, sleep,
}

abbrev pub Since : {Br : Type 0} → AioPika Br → ℕ → Br → Type 0
Since aio t br = t ≤ aio.monotonic br

call-Since :
    {Br A : Type 0} (aio : AioPika Br) (t : ℕ) (call : Exec Br A)
    → ((br : Br) → aio.monotonic br ≤ aio.monotonic (call br).1)
    → Triple (Since aio t) (Since aio t) (Since aio t) call
call-Since aio t call h br since = both-Ends (Since aio t) (call br) (omega (arith, h br))

module _ {Br Json : Type 0} (aio : AioPika Br) (law : Clock aio) (cfg : Config) where
  abbrev pub clock : Bus Br Json → ℕ
  clock s = aio.monotonic s.broker

  -- A turn does not set the clock back.
  pub connect_once-clock : (s : Bus Br Json) → clock s ≤ clock (connect_once aio cfg s).1
  connect_once-clock s =
      let t : ℕ = clock s in
      let P : Br → Type 0 = Since aio t in
      both-Ends-state (At P) (connect_once aio cfg s) (
        connect_once-At aio cfg P P P P P P
          (call-Since aio t (aio.connect_robust cfg.dsn) (law.connect_robust_clock cfg.dsn))
          (λ c.
            call-Since aio t (aio.open_channel c cfg.publisher_confirms)
              (law.open_channel_clock c cfg.publisher_confirms))
          (λ ch.
            call-Since aio t (aio.get_queue ch reply_to_queue)
              (law.get_queue_clock ch reply_to_queue))
          (λ q.
            call-Since aio t (aio.queue_consume q rpc_replies true)
              (law.queue_consume_clock q rpc_replies true))
          (λ br h. h) s (omega arith))

  sleep_first :
      (d : ℕ) (e : Exception) (s : Bus Br Json)
      → ((sleep aio cfg >> raise_if_past aio cfg (some d) e) s).0 ≡ ok tt
      → (clock s + cfg.reconnect_backoff
          ≤ clock ((sleep aio cfg >> raise_if_past aio cfg (some d) e) s).1)
        × (clock s < d)
  sleep_first d e s h =
      let least = law.sleep_least cfg.reconnect_backoff s.broker in
      (ground (arith, least), ground (arith, least))

  check_first :
      (d : ℕ) (e : Exception) (s : Bus Br Json)
      → ((raise_if_past aio cfg (some d) e >> sleep aio cfg) s).0 ≡ ok tt
      → (clock s + cfg.reconnect_backoff
          ≤ clock ((raise_if_past aio cfg (some d) e >> sleep aio cfg) s).1)
        × (clock s < d)
  check_first d e s h =
      let least = law.sleep_least cfg.reconnect_backoff s.broker in
      (ground (arith, least), ground (arith, least))

  -- A failure after which the loop goes on came before the deadline, and took the backoff.
  after_failure-ok :
      (d : ℕ) (e : Exception) (s : Bus Br Json)
      → (after_failure aio cfg (some d) e s).0 ≡ ok tt
      → (clock s + cfg.reconnect_backoff ≤ clock (after_failure aio cfg (some d) e s).1)
        × (clock s < d)
  unfolding after_failure
  after_failure-ok d connection_closed s h = sleep_first d connection_closed s h
  after_failure-ok d channel_closed s h = sleep_first d channel_closed s h
  after_failure-ok d e s h = check_first d e s h

  turn_from-false :
      (d : ℕ) (r : Result (Unit {0})) (s : Bus Br Json)
      → (try_except
          ((λ _. (r, s)) >> pure true)
          (λ e. after_failure aio cfg (some d) e >> pure false)
          s).0
        ≡ ok false
      → (clock s + cfg.reconnect_backoff
          ≤ clock
              (try_except
                ((λ _. (r, s)) >> pure true)
                (λ e. after_failure aio cfg (some d) e >> pure false)
                s).1)
        × (clock s < d)
  turn_from-false d (ok _) s h = absurd (true-ne-false (ok-injective h))
  turn_from-false d (raised e) s h =
      let failure : Exec (Bus Br Json) (Unit {0}) = after_failure aio cfg (some d) e in
      let (_, returned, _) = bind-eq-ok failure (λ _. pure false) s h in
      rw (bind-of-ok failure (λ _. pure false) s returned) (after_failure-ok d e s returned)

  -- A turn that goes on came before the deadline, and took the backoff.
  turn-false :
      (d : ℕ) (s : Bus Br Json)
      → (turn aio cfg (some d) s).0 ≡ ok false
      → (clock s + cfg.reconnect_backoff ≤ clock (turn aio cfg (some d) s).1) × (clock s < d)
  turn-false d s h =
      let tried : clock s ≤ clock (connect_once aio cfg s).1 = connect_once-clock s in
      let (later, before) =
        turn_from-false d (connect_once aio cfg s).0 (connect_once aio cfg s).1 h in
      (omega (arith, tried, later), omega (arith, tried, before))

  loop_from-Terminates :
      (n d : ℕ) (r : Result Bool) (s s' : Bus Br Json)
      → (r ≡ ok false → is_some (connect_loop aio cfg n (some d) s') ≡ true)
      → is_some (elim r [
        | ok true ↦ some (ok tt, s')
        | ok false ↦ connect_loop aio cfg n (some d) s'
        | raised e ↦ some (raised e, s')
      ])
        ≡ true
  loop_from-Terminates n d (ok true) s s' h = refl
  loop_from-Terminates n d (ok false) s s' h = h refl
  loop_from-Terminates n d (raised e) s s' h = refl

  connect_loop-Terminates :
      1 ≤ cfg.reconnect_backoff
      → (n d : ℕ) (s : Bus Br Json) → d ≤ clock s + n
      → Terminates (connect_loop aio cfg (suc n) (some d)) s
  unfolding connect_loop
  connect_loop-Terminates waits zero d s near =
      loop_from-Terminates zero d (turn aio cfg (some d) s).0 s (turn aio cfg (some d) s).1
        (λ e. absurd (not_before near (turn-false d s e).1))
    where
      not_before : {m n : ℕ} → m ≤ n + 0 → n < m → ⊥
      not_before le lt = omega arith
  connect_loop-Terminates waits (suc n) d s near =
      loop_from-Terminates (suc n) d (turn aio cfg (some d) s).0 s (turn aio cfg (some d) s).1 (λ e.
        connect_loop-Terminates waits n d (turn aio cfg (some d) s).1
          (omega (arith, near, waits, (turn-false d s e).0)))

  -- `connect` ends, by returning or by raising, when RABBITMQ_CONNECT_TIMEOUT is positive: as many turns
  -- as the timeout has milliseconds, and one, are enough. Conditions: the backoff is at least a
  -- millisecond, the clock does not go back, and a sleep lasts at least as long as it should.
  pub connect-Terminates :
      (n : ℕ) (s : Bus Br Json)
      → 1 ≤ cfg.reconnect_backoff
      → 1 ≤ cfg.rabbitmq_connect_timeout
      → cfg.rabbitmq_connect_timeout ≤ n
      → Terminates (connect aio cfg (suc n)) s
  unfolding connect
  connect-Terminates n s waits limited enough =
      subst (λ d. Terminates (connect_loop aio cfg (suc n) d) (record s { closing = false }))
        (sym (has_deadline limited))
        (connect_loop-Terminates waits n (clock s + cfg.rabbitmq_connect_timeout)
          (record s { closing = false }) (omega arith))
    where
      has_deadline :
          1 ≤ cfg.rabbitmq_connect_timeout
          → deadline_of cfg (clock s) ≡ some (clock s + cfg.rabbitmq_connect_timeout)
      has_deadline le = ground arith
