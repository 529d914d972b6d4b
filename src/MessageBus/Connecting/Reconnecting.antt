-- ===== src/MessageBus/Connecting/Reconnecting.antt =====
-- Whether the replies to RPC calls are taken after the bus has connected.
use mmo_backend_server.Prelude.{
  ℕ, zero, suc, String, ◌≡◌, refl, sym, ap, ◌∙◌, subst, true, false, not, Bool, Option, none, some,
  is_some, Exception, connection_closed, channel_closed, Result, ok, raised, Exec, arith,
  try_except, pure, lift, modify, ◌>>=◌, ◌>>◌, Triple, Triple-bind, Ends, Keeps, Keeps-bind,
  both-Ends,
}
use mmo_backend_server.AuthService.{truthy}
use mmo_backend_server.MessageBus.Broker.{AioPika, Config, Bus, on_broker, rpc_replies}
use mmo_backend_server.MessageBus.Broker.Laws.{Consuming}
use mmo_backend_server.MessageBus.Connecting.{
  connect_once, setup_reply_to_consumer, start_consumer, reply_to_queue, after_failure, turn,
  connect_loop, connect, deadline_of, raise_if_past, sleep,
}

module _ {Br Json : Type 0} (aio : AioPika Br) (law : Consuming aio) (cfg : Config)
    (tag : Option String) where
  -- The bus holds the tag of a consumer, or none.
  abbrev Tagged : Bus Br Json → Type 0
  Tagged s = truthy s.reply_to_consumer_tag ≡ tag

  -- The channel takes the replies just if the bus held no tag.
  abbrev pub Answering : Bus Br Json → Type 0
  Answering s = (ch : ℕ) × (s.chan ≡ some ch) × (law.consumes ch s.broker ≡ not (is_some tag))

  -- On a channel that takes no replies yet.
  abbrev Opened : Bus Br Json → Type 0
  Opened s = (ch : ℕ) × (s.chan ≡ some ch) × (law.consumes ch s.broker ≡ false) × Tagged s

  abbrev set_tag : String → Exec (Bus Br Json) (Unit {0})
  set_tag t = modify (λ s. record s { reply_to_consumer_tag = some t })

  abbrev consume_replies : ℕ → Exec (Bus Br Json) (Unit {0})
  consume_replies q = on_broker (aio.queue_consume q rpc_replies true) >>= set_tag

  started :
      (q ch : ℕ) (s : Bus Br Json)
      → none ≡ tag
      → s.chan ≡ some ch
      → law.channel_of q ≡ ch
      → Tagged s
      → Ends Answering Tagged (consume_replies q s)
  started q ch s e at of tagged = consumed (aio.queue_consume q rpc_replies true s.broker).0 refl
    where
      after : Br
      after = (aio.queue_consume q rpc_replies true s.broker).1

      consumed :
          (r : Result String)
          → (aio.queue_consume q rpc_replies true s.broker).0 ≡ r
          → Ends Answering Tagged ((lift r >>= set_tag) (record s { broker = after }))
      consumed (ok t) returned = (
        ch,
        at,
        subst (λ c. law.consumes c after ≡ true) of (law.queue_consume_starts q s.broker t returned)
            ∙ ap (λ o. not (is_some o)) e,
      )
      consumed (raised x) returned = tagged

  start_consumer-Answering :
      (held : Option String) (ch : ℕ) (s : Bus Br Json)
      → held ≡ tag
      → s.chan ≡ some ch
      → law.consumes ch s.broker ≡ false
      → Tagged s
      → Ends Answering Tagged (start_consumer aio cfg held (some ch) s)
  start_consumer-Answering (some t) ch s e at new tagged =
      (ch, at, new ∙ ap (λ o. not (is_some o)) e)
  start_consumer-Answering none ch s e at new tagged =
      found (aio.get_queue ch reply_to_queue s.broker).0 refl
    where
      after : Br
      after = (aio.get_queue ch reply_to_queue s.broker).1

      found :
          (r : Result ℕ)
          → (aio.get_queue ch reply_to_queue s.broker).0 ≡ r
          → Ends Answering Tagged ((lift r >>= consume_replies) (record s { broker = after }))
      found (ok q) returned =
          started q ch (record s { broker = after }) e at
            (law.get_queue_channel ch reply_to_queue s.broker q returned) tagged
      found (raised x) returned = tagged

  setup-Answering : Triple Opened Answering Tagged (setup_reply_to_consumer aio cfg)
  unfolding setup_reply_to_consumer
  setup-Answering s (ch, at, new, tagged) =
      subst
        (λ o. Ends Answering Tagged (start_consumer aio cfg (truthy s.reply_to_consumer_tag) o s))
        (sym at)
        (start_consumer-Answering (truthy s.reply_to_consumer_tag) ch s tagged at new tagged)

  abbrev on_channel : ℕ → Exec (Bus Br Json) (Unit {0})
  on_channel ch = modify (λ s. record s { chan = some ch }) >>= λ _. setup_reply_to_consumer aio cfg

  -- A new channel takes no replies before its consumer starts.
  opens_channel :
      (c : ℕ)
      → Triple Tagged Answering Tagged
          (on_broker (aio.open_channel c cfg.publisher_confirms) >>= on_channel)
  opens_channel c s tagged = opened (aio.open_channel c cfg.publisher_confirms s.broker).0 refl
    where
      after : Br
      after = (aio.open_channel c cfg.publisher_confirms s.broker).1

      opened :
          (r : Result ℕ)
          → (aio.open_channel c cfg.publisher_confirms s.broker).0 ≡ r
          → Ends Answering Tagged ((lift r >>= on_channel) (record s { broker = after }))
      opened (ok ch) returned =
          setup-Answering (record s { broker = after; chan = some ch })
            (ch, refl, law.open_channel_new c cfg.publisher_confirms s.broker ch returned, tagged)
      opened (raised x) returned = tagged

  connect_once-Answering : Triple Tagged Answering Tagged (connect_once aio cfg)
  unfolding connect_once
  connect_once-Answering =
      let k2 : ℕ → Unit {0} → Exec (Bus Br Json) (Unit {0}) =
        λ c _. on_broker (aio.open_channel c cfg.publisher_confirms) >>= on_channel in
      let k1 : ℕ → Exec (Bus Br Json) (Unit {0}) =
        λ c. modify (λ s. record s { conn = some c }) >>= k2 c in
      Triple-bind Tagged Tagged Answering Tagged (on_broker (aio.connect_robust cfg.dsn)) k1
        (λ s h. both-Ends Tagged (on_broker (aio.connect_robust cfg.dsn) s) h)
        (λ c.
          Triple-bind Tagged Tagged Answering Tagged (modify (λ s. record s { conn = some c }))
            (k2 c) (λ s h. h) (λ _. opens_channel c))

  raise_if_past-Tagged :
      (deadline : Option ℕ) (e : Exception) → Keeps Tagged (raise_if_past aio cfg deadline e)
  raise_if_past-Tagged deadline e s h = ground (arith, h)

  after_failure-Tagged :
      (deadline : Option ℕ) (e : Exception) → Keeps Tagged (after_failure aio cfg deadline e)
  unfolding after_failure
  after_failure-Tagged deadline connection_closed =
      Keeps-bind Tagged (sleep aio cfg) (λ _. raise_if_past aio cfg deadline connection_closed)
        (λ s h. h) (λ _. raise_if_past-Tagged deadline connection_closed)
  after_failure-Tagged deadline channel_closed =
      Keeps-bind Tagged (sleep aio cfg) (λ _. raise_if_past aio cfg deadline channel_closed)
        (λ s h. h) (λ _. raise_if_past-Tagged deadline channel_closed)
  after_failure-Tagged deadline e =
      Keeps-bind Tagged (raise_if_past aio cfg deadline e) (λ _. sleep aio cfg)
        (raise_if_past-Tagged deadline e) (λ _ s h. h)

  -- What a turn leaves, when it ends the loop and when it goes on.
  abbrev Turned : Result Bool × Bus Br Json → Type 0
  Turned (ok true, s) = Answering s
  Turned (ok false, s) = Tagged s
  Turned (raised e, s) = Unit

  handled : (r : Result (Unit {0})) (s : Bus Br Json) → Tagged s → Turned ((lift r >> pure false) s)
  handled (ok tt) s h = h
  handled (raised e) s h = tt

  turned :
      (deadline : Option ℕ) (r : Result (Unit {0})) (s : Bus Br Json)
      → Ends Answering Tagged (r, s)
      → Turned (
          try_except
            ((λ _. (r, s)) >> pure true)
            (λ e. after_failure aio cfg deadline e >> pure false)
            s)
  turned deadline (ok tt) s h = h
  turned deadline (raised e) s h =
      handled (after_failure aio cfg deadline e s).0 (after_failure aio cfg deadline e s).1
        (after_failure-Tagged deadline e s h)

  turn-Turned :
      (deadline : Option ℕ) (s : Bus Br Json) → Tagged s → Turned (turn aio cfg deadline s)
  turn-Turned deadline s h =
      turned deadline (connect_once aio cfg s).0 (connect_once aio cfg s).1
        (connect_once-Answering s h)

  abbrev Looped : Option (Result (Unit {0}) × Bus Br Json) → Type 0
  Looped none = Unit
  Looped (some (ok _, s)) = Answering s
  Looped (some (raised e, s)) = Unit

  loop_from :
      (n : ℕ) (deadline : Option ℕ) (r : Result Bool) (s : Bus Br Json)
      → Turned (r, s)
      → (Tagged s → Looped (connect_loop aio cfg n deadline s))
      → Looped (elim r [
        | ok true ↦ some (ok tt, s)
        | ok false ↦ connect_loop aio cfg n deadline s
        | raised e ↦ some (raised e, s)
      ])
  loop_from n deadline (ok true) s h rest = h
  loop_from n deadline (ok false) s h rest = rest h
  loop_from n deadline (raised e) s h rest = tt

  pub connect_loop-Looped :
      (n : ℕ) (deadline : Option ℕ) (s : Bus Br Json)
      → Tagged s
      → Looped (connect_loop aio cfg n deadline s)
  unfolding connect_loop
  connect_loop-Looped zero deadline s h = tt
  connect_loop-Looped (suc n) deadline s h =
      let s' : Bus Br Json = (turn aio cfg deadline s).1 in
      loop_from n deadline (turn aio cfg deadline s).0 s' (turn-Turned deadline s h)
        (connect_loop-Looped n deadline s')

module _ {Br Json : Type 0} (aio : AioPika Br) (law : Consuming aio) (cfg : Config) where
  -- When `connect` has returned, the new channel takes the replies to RPC calls just if the bus held no
  -- consumer tag before: a bus that connects for the first time takes them, and one that connects again
  -- after it lost its channel takes none, since the tag of the lost consumer is still set. A new
  -- channel has no consumer, and one whose consumer has started takes the replies.
  pub connect-Answering :
      (fuel : ℕ) (s s' : Bus Br Json)
      → connect aio cfg fuel s ≡ some (ok tt, s')
      → (ch : ℕ) × (s'.chan ≡ some ch)
        × (law.consumes ch s'.broker ≡ not (is_some (truthy s.reply_to_consumer_tag)))
  unfolding connect
  connect-Answering fuel s s' e = subst (Looped aio law cfg (truthy s.reply_to_consumer_tag)) e (
      connect_loop-Looped aio law cfg (truthy s.reply_to_consumer_tag) fuel
        (deadline_of cfg (aio.monotonic s.broker)) (record s { closing = false }) refl)
