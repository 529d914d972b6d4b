-- ===== src/MessageBus/Connecting/Turns.antt =====
-- One turn of the connect loop, from what its calls of aio-pika do to the broker.
use mmo_backend_server.Prelude.{
  ℕ, String, true, Option, none, some, Result, ok, raised, Exec, modify, ◌>>=◌, Ends, Triple,
  Triple-bind,
}
use mmo_backend_server.AuthService.{truthy}
use mmo_backend_server.MessageBus.Broker.{AioPika, Config, Bus, on_broker, rpc_replies}
use mmo_backend_server.MessageBus.Connecting.{
  connect_once, setup_reply_to_consumer, start_consumer, reply_to_queue,
}

-- A predicate on the broker, of the bus.
abbrev pub At : {Br Json : Type 0} → (Br → Type 0) → Bus Br Json → Type 0
At P s = P s.broker

module _ {Br Json : Type 0} where
  result-At :
      {A : Type 0} (R Q : Br → Type 0) (r : Result A) (br : Br) (s : Bus Br Json)
      → Ends R Q (r, br)
      → Ends (At R) (At Q) (r, record s { broker = br })
  result-At R Q (ok a) br s h = h
  result-At R Q (raised e) br s h = h

  on_broker-At :
      {A : Type 0} (P R Q : Br → Type 0) (call : Exec Br A)
      → Triple P R Q call
      → Triple (At {Json = Json} P) (At R) (At Q) (on_broker call)
  on_broker-At P R Q call h s p = result-At R Q (call s.broker).0 (call s.broker).1 s (h s.broker p)

-- What the broker is like before and after each call of a turn, `R` at its end, and `Q` where it raised.
module _ {Br Json : Type 0} (aio : AioPika Br) (cfg : Config) (P0 P1 P2 P3 R Q : Br → Type 0)
    (connects : Triple P0 P1 Q (aio.connect_robust cfg.dsn))
    (opens : (c : ℕ) → Triple P1 P2 Q (aio.open_channel c cfg.publisher_confirms))
    (gets_queue : (ch : ℕ) → Triple P2 P3 Q (aio.get_queue ch reply_to_queue))
    (consumes : (q : ℕ) → Triple P3 R Q (aio.queue_consume q rpc_replies true))
    (skips : (br : Br) → P2 br → R br) where
  start_consumer-At :
      (tag : Option String) (chan : Option ℕ)
      → Triple (At {Json = Json} P2) (At R) (At Q) (start_consumer aio cfg tag chan)
  start_consumer-At (some tag) chan = λ s h. skips s.broker h
  start_consumer-At none none = λ s h. skips s.broker h
  start_consumer-At none (some ch) =
      let k2 : String → Exec (Bus Br Json) (Unit {0}) =
        λ tag. modify (λ s. record s { reply_to_consumer_tag = some tag }) in
      let k1 : ℕ → Exec (Bus Br Json) (Unit {0}) =
        λ q. on_broker (aio.queue_consume q rpc_replies true) >>= k2 in
      Triple-bind (At P2) (At P3) (At R) (At Q) (on_broker (aio.get_queue ch reply_to_queue)) k1
        (on_broker-At P2 P3 Q (aio.get_queue ch reply_to_queue) (gets_queue ch))
        (λ q.
          Triple-bind (At P3) (At R) (At R) (At Q)
            (on_broker (aio.queue_consume q rpc_replies true)) k2
            (on_broker-At P3 R Q (aio.queue_consume q rpc_replies true) (consumes q))
            (λ tag s h. h))

  setup_reply_to_consumer-At :
      Triple (At {Json = Json} P2) (At R) (At Q) (setup_reply_to_consumer aio cfg)
  unfolding setup_reply_to_consumer
  setup_reply_to_consumer-At s h = start_consumer-At (truthy s.reply_to_consumer_tag) s.chan s h

  pub connect_once-At : Triple (At {Json = Json} P0) (At R) (At Q) (connect_once aio cfg)
  unfolding connect_once
  connect_once-At =
      let k4 : Unit {0} → Exec (Bus Br Json) (Unit {0}) = λ _. setup_reply_to_consumer aio cfg in
      let k3 : ℕ → Exec (Bus Br Json) (Unit {0}) =
        λ ch. modify (λ s. record s { chan = some ch }) >>= k4 in
      let k2 : ℕ → Unit {0} → Exec (Bus Br Json) (Unit {0}) =
        λ c _. on_broker (aio.open_channel c cfg.publisher_confirms) >>= k3 in
      let k1 : ℕ → Exec (Bus Br Json) (Unit {0}) =
        λ c. modify (λ s. record s { conn = some c }) >>= k2 c in
      Triple-bind (At P0) (At P1) (At R) (At Q) (on_broker (aio.connect_robust cfg.dsn)) k1
        (on_broker-At P0 P1 Q (aio.connect_robust cfg.dsn) connects)
        (λ c.
          Triple-bind (At P1) (At P1) (At R) (At Q) (modify (λ s. record s { conn = some c }))
            (k2 c) (λ s h. h)
            (λ _.
              Triple-bind (At P1) (At P2) (At R) (At Q)
                (on_broker (aio.open_channel c cfg.publisher_confirms)) k3
                (on_broker-At P1 P2 Q (aio.open_channel c cfg.publisher_confirms) (opens c))
                (λ ch.
                  Triple-bind (At P2) (At P2) (At R) (At Q)
                    (modify (λ s. record s { chan = some ch })) k4 (λ s h. h)
                    (λ _. setup_reply_to_consumer-At))))
