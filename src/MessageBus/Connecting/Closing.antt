-- ===== src/MessageBus/Connecting/Closing.antt =====
-- What `close` leaves.
use mmo_backend_server.Prelude.{
  ℕ, ◌≡◌, refl, ap, ◌∙◌, true, false, Option, none, some, arith, ok, try_finally-state,
}
use mmo_backend_server.MessageBus.Broker.{AioPika, Config, Bus}
use mmo_backend_server.MessageBus.Broker.Laws.{Closes}
use mmo_backend_server.MessageBus.Connecting.{is_connected, close, close_channel, close_connection}

module _ {Br Json : Type 0} (aio : AioPika Br) (cfg : Config) (law : Closes aio) where
  closed_or_gone :
      (s : Bus Br Json) (conn : Option ℕ)
      → s.conn ≡ conn
      → (close_connection aio cfg s).0 ≡ ok tt
      → is_connected aio cfg (close_connection aio cfg s).1 ≡ false
  unfolding is_connected
  closed_or_gone s none e ended = rw e refl
  closed_or_gone s (some c) e ended = ground (arith, e, law c s.broker)

  -- If closing the connection does not raise, the bus is not connected after `close`, even where
  -- cancelling the consumer or closing the channel raises before that. A connection whose `close`
  -- returned is closed.
  pub close-is_connected :
      (s : Bus Br Json)
      → (close_connection aio cfg (close_channel aio cfg (record s { closing = true })).1).0 ≡ ok tt
      → is_connected aio cfg (close aio cfg s).1 ≡ false
  unfolding close
  close-is_connected s ended =
      let v : Bus Br Json = record s { closing = true } in
      ap (is_connected aio cfg)
        (try_finally-state (close_channel aio cfg) (close_connection aio cfg) v)
      ∙ closed_or_gone (close_channel aio cfg v).1 (close_channel aio cfg v).1.conn refl ended
