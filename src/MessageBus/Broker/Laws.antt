-- ===== src/MessageBus/Broker/Laws.antt =====
-- What the bus relies on of aio-pika: documented behaviour of its clock, channels and connections.
use mmo_backend_server.Prelude.{ℕ, ◌+◌, ◌≤◌, String, ◌≡◌, Bool, true, false, ok}
use mmo_backend_server.MessageBus.Broker.{AioPika, Consumer, rpc_replies}

-- The clock never goes back, and a sleep takes its time.
pub record Clock {Br : Type 0} (aio : AioPika Br) : Type 0 where
  pub sleep_least : (b : ℕ) (br : Br) → aio.monotonic br + b ≤ aio.monotonic (aio.sleep b br)
  pub connect_robust_clock :
      (dsn : String) (br : Br) → aio.monotonic br ≤ aio.monotonic (aio.connect_robust dsn br).1
  pub open_channel_clock :
      (c : ℕ) (b : Bool) (br : Br) → aio.monotonic br ≤ aio.monotonic (aio.open_channel c b br).1
  pub get_queue_clock :
      (c : ℕ) (name : String) (br : Br)
      → aio.monotonic br ≤ aio.monotonic (aio.get_queue c name br).1
  pub queue_consume_clock :
      (q : ℕ) (k : Consumer) (no_ack : Bool) (br : Br)
      → aio.monotonic br ≤ aio.monotonic (aio.queue_consume q k no_ack br).1

-- A broker that accepts from the time `up` on: each call then answers. Each call, at any time, takes
-- at most `longest`, and a sleep is late by at most `late`.
pub record Reachable {Br : Type 0} (aio : AioPika Br) (up longest late : ℕ) : Type 0 where
  pub sleep_most : (b : ℕ) (br : Br) → aio.monotonic (aio.sleep b br) ≤ aio.monotonic br + b + late
  pub connect_robust_up :
      (dsn : String) (br : Br)
      → up ≤ aio.monotonic br
      → (c : ℕ) × ((aio.connect_robust dsn br).0 ≡ ok c)
  pub open_channel_up :
      (c : ℕ) (b : Bool) (br : Br)
      → up ≤ aio.monotonic br
      → (ch : ℕ) × ((aio.open_channel c b br).0 ≡ ok ch)
  pub get_queue_up :
      (c : ℕ) (name : String) (br : Br)
      → up ≤ aio.monotonic br
      → (q : ℕ) × ((aio.get_queue c name br).0 ≡ ok q)
  pub queue_consume_up :
      (q : ℕ) (k : Consumer) (no_ack : Bool) (br : Br)
      → up ≤ aio.monotonic br
      → (tag : String) × ((aio.queue_consume q k no_ack br).0 ≡ ok tag)
  pub connect_robust_most :
      (dsn : String) (br : Br)
      → aio.monotonic (aio.connect_robust dsn br).1 ≤ aio.monotonic br + longest
  pub open_channel_most :
      (c : ℕ) (b : Bool) (br : Br)
      → aio.monotonic (aio.open_channel c b br).1 ≤ aio.monotonic br + longest
  pub get_queue_most :
      (c : ℕ) (name : String) (br : Br)
      → aio.monotonic (aio.get_queue c name br).1 ≤ aio.monotonic br + longest
  pub queue_consume_most :
      (q : ℕ) (k : Consumer) (no_ack : Bool) (br : Br)
      → aio.monotonic (aio.queue_consume q k no_ack br).1 ≤ aio.monotonic br + longest

-- A connection whose `close` returned is closed.
abbrev pub Closes : {Br : Type 0} → AioPika Br → Type 0
Closes {Br} aio =
    (c : ℕ) (br : Br)
    → (aio.close_conn c br).0 ≡ ok tt
    → aio.is_conn_closed c (aio.close_conn c br).1 ≡ true

-- Which channels take the replies to RPC calls: none that is new, and one whose consumer started.
pub record Consuming {Br : Type 0} (aio : AioPika Br) : Type 0 where
  pub consumes : ℕ → Br → Bool
  pub channel_of : ℕ → ℕ
  pub open_channel_new :
      (c : ℕ) (b : Bool) (br : Br) (ch : ℕ)
      → (aio.open_channel c b br).0 ≡ ok ch
      → consumes ch (aio.open_channel c b br).1 ≡ false
  pub get_queue_channel :
      (ch : ℕ) (name : String) (br : Br) (q : ℕ)
      → (aio.get_queue ch name br).0 ≡ ok q
      → channel_of q ≡ ch
  pub queue_consume_starts :
      (q : ℕ) (br : Br) (tag : String)
      → (aio.queue_consume q rpc_replies true br).0 ≡ ok tag
      → consumes (channel_of q) (aio.queue_consume q rpc_replies true br).1 ≡ true
