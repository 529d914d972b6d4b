-- ===== src/MessageBus/Connecting.antt =====
-- libs/messaging/rabbitmq_message_bus.py: connecting, and closing.
-- The loop of `connect` runs on fuel.
pub mod Turns
pub mod Termination
pub mod Timing
pub mod Liveness
pub mod Closing
pub mod Reconnecting
use mmo_backend_server.Prelude.{
  ℕ, zero, suc, ◌+◌, String, Bool, true, false, not, ◌&&◌, Option, none, some, nat_eq, leb,
  if◌then◌else◌, Exception, connection_closed, channel_closed, assertion_error, ok, raised, Exec,
  pure, raise, modify, ◌>>=◌, ◌>>◌, try_except, try_finally,
}
use mmo_backend_server.Prelude.Runs.{Run, ended, continue}
use mmo_backend_server.AuthService.{truthy}
use mmo_backend_server.MessageBus.Broker.{AioPika, Config, Bus, on_broker, rpc_replies}

abbrev reply_to_queue : String
reply_to_queue = "amq.rabbitmq.reply-to"

abbrev pub is_past : Option ℕ → ℕ → Bool
is_past none now = false
is_past (some deadline) now = leb deadline now

abbrev pub deadline_of : Config → ℕ → Option ℕ
deadline_of cfg now =
    if nat_eq cfg.rabbitmq_connect_timeout 0
    then none
    else some (now + cfg.rabbitmq_connect_timeout)

abbrev pub is_open : {Br : Type 0} → (ℕ → Br → Bool) → Br → Option ℕ → Bool
is_open is_closed br none = false
is_open is_closed br (some x) = not (is_closed x br)

module _ {Br : Type 0} (aio : AioPika Br) (cfg : Config) {Json : Type 0} where
  abbrev start_consumer : Option String → Option ℕ → Exec (Bus Br Json) (Unit {0})
  start_consumer (some tag) chan = pure tt
  start_consumer none none = pure tt
  start_consumer none (some ch) = do
    q ← on_broker (aio.get_queue ch reply_to_queue)
    tag ← on_broker (aio.queue_consume q rpc_replies true)
    modify (λ s. record s { reply_to_consumer_tag = some tag })

  unfoldable pub setup_reply_to_consumer : Exec (Bus Br Json) (Unit {0})
  setup_reply_to_consumer s = start_consumer (truthy s.reply_to_consumer_tag) s.chan s

  -- One turn of the loop up to its `return`.
  unfoldable pub connect_once : Exec (Bus Br Json) (Unit {0})
  connect_once = do
    c ← on_broker (aio.connect_robust cfg.dsn)
    modify (λ s. record s { conn = some c })
    ch ← on_broker (aio.open_channel c cfg.publisher_confirms)
    modify (λ s. record s { chan = some ch })
    setup_reply_to_consumer

  abbrev pub sleep : Exec (Bus Br Json) (Unit {0})
  sleep = modify (λ s. record s { broker = aio.sleep cfg.reconnect_backoff s.broker })

  abbrev pub raise_if_past : Option ℕ → Exception → Exec (Bus Br Json) (Unit {0})
  raise_if_past deadline e s =
      if is_past deadline (aio.monotonic s.broker) then raise e s else pure tt s

  -- The two `except` clauses: they raise, or return to the next turn.
  unfoldable pub after_failure : Option ℕ → Exception → Exec (Bus Br Json) (Unit {0})
  after_failure deadline connection_closed = sleep >> raise_if_past deadline connection_closed
  after_failure deadline channel_closed = sleep >> raise_if_past deadline channel_closed
  after_failure deadline e = raise_if_past deadline e >> sleep

  abbrev pub turn : Option ℕ → Exec (Bus Br Json) Bool
  turn deadline =
      try_except (connect_once >> pure true) (λ e. after_failure deadline e >> pure false)

  unfoldable pub connect_loop : ℕ → Option ℕ → Run (Bus Br Json) (Unit {0})
  connect_loop zero deadline s = none
  connect_loop (suc n) deadline s =
      let (r, s') = turn deadline s in
      elim r [
        | ok true ↦ some (ok tt, s')
        | ok false ↦ connect_loop n deadline s'
        | raised e ↦ some (raised e, s')
      ]

  unfoldable pub connect : ℕ → Run (Bus Br Json) (Unit {0})
  connect fuel s =
      connect_loop fuel (deadline_of cfg (aio.monotonic s.broker)) (record s { closing = false })

  unfoldable pub is_connected : Bus Br Json → Bool
  is_connected s =
      is_open aio.is_conn_closed s.broker s.conn && is_open aio.is_chan_closed s.broker s.chan

  abbrev cancel_consumer : Option ℕ → Option String → Exec (Bus Br Json) (Unit {0})
  cancel_consumer (some ch) (some tag) =
      try_except
        (do q ← on_broker (aio.get_queue ch reply_to_queue); on_broker (aio.queue_cancel q tag))
        (λ e. pure tt)
  cancel_consumer chan tag = pure tt

  abbrev close_open :
      (ℕ → Br → Bool) → (ℕ → Exec Br (Unit {0})) → Option ℕ → Exec (Bus Br Json) (Unit {0})
  close_open is_closed close_one none s = pure tt s
  close_open is_closed close_one (some x) s =
      if is_closed x s.broker then pure tt s else on_broker (close_one x) s

  abbrev pub close_channel : Exec (Bus Br Json) (Unit {0})
  close_channel s =
      (cancel_consumer s.chan (truthy s.reply_to_consumer_tag)
          >> close_open aio.is_chan_closed aio.close_chan s.chan)
        s

  abbrev pub close_connection : Exec (Bus Br Json) (Unit {0})
  close_connection s = close_open aio.is_conn_closed aio.close_conn s.conn s

  unfoldable pub close : Exec (Bus Br Json) (Unit {0})
  close = modify (λ s. record s { closing = true }) >> try_finally close_channel close_connection

  -- `assert self._chan is not None`
  abbrev pub channel : Exec (Bus Br Json) ℕ
  channel s = elim s.chan [ none ↦ raise assertion_error s | some ch ↦ pure ch s ]

  unfoldable pub ensure : ℕ → Run (Bus Br Json) ℕ
  ensure fuel s =
      if is_open aio.is_chan_closed s.broker s.chan
      then some (channel s)
      else continue (λ _. ended channel) (connect fuel s)
