-- ===== src/MessageBus/Connecting/Timing.antt =====
-- How long a turn of the connect loop takes, and when it returns.
use mmo_backend_server.Prelude.{
  ℕ, ◌+◌, ◌*◌, ◌≤◌, ◌≡◌, refl, true, false, arith, true-ne-false, Result, ok, raised, Exec, Triple,
  Ends, both-Ends, both-Ends-state,
}
use mmo_backend_server.MessageBus.Broker.{AioPika, Config, Bus, rpc_replies}
use mmo_backend_server.MessageBus.Broker.Laws.{Clock, Reachable}
use mmo_backend_server.MessageBus.Connecting.{connect_once, reply_to_queue}
use mmo_backend_server.MessageBus.Connecting.Turns.{At, connect_once-At}

-- The clock has not passed a time; it has reached one; nothing is raised.
abbrev By : {Br : Type 0} → AioPika Br → ℕ → Br → Type 0
By aio t br = aio.monotonic br ≤ t

abbrev IsUp : {Br : Type 0} → AioPika Br → ℕ → Br → Type 0
IsUp aio up br = up ≤ aio.monotonic br

abbrev Never : {Br : Type 0} → Br → Type 0
Never br = true ≡ false

result-By :
    {Br A : Type 0} (aio : AioPika Br) (t most : ℕ) (r : Result A) (br : Br)
    → t ≤ most
    → By aio t br
    → Ends (By aio t) (By aio most) (r, br)
result-By aio t most (ok a) br le h = h
result-By aio t most (raised e) br le h = omega arith

call-By :
    {Br A : Type 0} (aio : AioPika Br) (t longest most : ℕ) (call : Exec Br A)
    → t + longest ≤ most
    → ((br : Br) → aio.monotonic (call br).1 ≤ aio.monotonic br + longest)
    → Triple (By aio t) (By aio (t + longest)) (By aio most) call
call-By aio t longest most call le h br by =
    result-By aio (t + longest) most (call br).0 (call br).1 le (omega (arith, h br))

result-IsUp :
    {Br A : Type 0} (aio : AioPika Br) (up : ℕ) (r : Result A) (br : Br) (a : A)
    → r ≡ ok a
    → IsUp aio up br
    → Ends (IsUp aio up) Never (r, br)
result-IsUp aio up (ok b) br a e k = k
result-IsUp aio up (raised x) br a e k = cc

call-IsUp :
    {Br A : Type 0} (aio : AioPika Br) (up : ℕ) (call : Exec Br A)
    → ((br : Br) → aio.monotonic br ≤ aio.monotonic (call br).1)
    → ((br : Br) → up ≤ aio.monotonic br → (a : A) × ((call br).0 ≡ ok a))
    → Triple (IsUp aio up) (IsUp aio up) Never call
call-IsUp aio up call since answers br h =
    let (a, e) = answers br h in
    result-IsUp aio up (call br).0 (call br).1 a e (omega (arith, since br))

Ends-Never :
    {S : Type 0} (R : S → Type 0) (out : Result (Unit {0}) × S)
    → Ends R (λ s. true ≡ false) out
    → out.0 ≡ ok tt
Ends-Never R (ok tt, s) h = refl
Ends-Never R (raised e, s) h = absurd (true-ne-false h)

module _ {Br Json : Type 0} (aio : AioPika Br) (law : Clock aio) (cfg : Config)
    (up longest late : ℕ) (reach : Reachable aio up longest late) where
  abbrev clock : Bus Br Json → ℕ
  clock s = aio.monotonic s.broker

  -- A turn, of at most four calls, takes at most their time.
  pub connect_once-By : (s : Bus Br Json) → clock (connect_once aio cfg s).1 ≤ clock s + 4 * longest
  connect_once-By s =
      let t : ℕ = clock s in
      let l : ℕ = longest in
      let most : ℕ = t + 4 * l in
      let P : ℕ → Br → Type 0 = By aio in
      let Q : Br → Type 0 = By aio most in
      both-Ends-state (At Q) (connect_once aio cfg s) (
        connect_once-At aio cfg (P t) (P (t + l)) (P (t + l + l)) (P (t + l + l + l)) Q Q
          (call-By aio t l most (aio.connect_robust cfg.dsn) (omega arith)
            (reach.connect_robust_most cfg.dsn))
          (λ c.
            call-By aio (t + l) l most (aio.open_channel c cfg.publisher_confirms) (omega arith)
              (reach.open_channel_most c cfg.publisher_confirms))
          (λ ch.
            call-By aio (t + l + l) l most (aio.get_queue ch reply_to_queue) (omega arith)
              (reach.get_queue_most ch reply_to_queue))
          (λ q br h.
            both-Ends Q (aio.queue_consume q rpc_replies true br)
              (omega (arith, h, reach.queue_consume_most q rpc_replies true br)))
          (λ br h. omega (arith, h)) s (omega arith))

  -- A turn that starts when the broker is up returns.
  pub connect_once-IsUp : (s : Bus Br Json) → up ≤ clock s → (connect_once aio cfg s).0 ≡ ok tt
  connect_once-IsUp s h =
      let P : Br → Type 0 = IsUp aio up in
      Ends-Never (At P) (connect_once aio cfg s) (
        connect_once-At aio cfg P P P P P Never
          (call-IsUp aio up (aio.connect_robust cfg.dsn) (law.connect_robust_clock cfg.dsn)
            (reach.connect_robust_up cfg.dsn))
          (λ c.
            call-IsUp aio up (aio.open_channel c cfg.publisher_confirms)
              (law.open_channel_clock c cfg.publisher_confirms)
              (reach.open_channel_up c cfg.publisher_confirms))
          (λ ch.
            call-IsUp aio up (aio.get_queue ch reply_to_queue)
              (law.get_queue_clock ch reply_to_queue) (reach.get_queue_up ch reply_to_queue))
          (λ q.
            call-IsUp aio up (aio.queue_consume q rpc_replies true)
              (law.queue_consume_clock q rpc_replies true)
              (reach.queue_consume_up q rpc_replies true))
          (λ br k. k) s h)
