-- ===== src/Listener.antt =====
-- libs/messaging/base_listener.py: class `BaseMicroserviceListener`.
-- The broker, the JSON parser, the envelope model and the abstract `process_message` are the
-- parameter `Port`, over a state `W` that stands for all that they act on. `Session` adds what the
-- listener itself asked of the broker: the dead letters that `publish` took, and the settlements
-- (ack, nack) that went through, oldest first.
pub mod ExactlyOnce
pub mod Verdicts
pub mod Retries
use mmo_backend_server.Prelude.{
  ℕ, zero, suc, ◌+◌, String, Bool, true, false, Option, none, some, List, [], ◌∷◌, ◌++◌, leb,
  if◌then◌else◌, Exception, validation_error, Result, ok, raised, Exec, pure, raise, lift, gets,
  modify, ◌>>=◌, ◌>>◌, try_except, try_finally,
}
use mmo_backend_server.Names.{get_dlq_name}
use mmo_backend_server.Names.Exchanges

-- An entry of the `x-death` header: a table with an optional count, or a value of another type.
pub data Death : Type 0 where
  table : Option ℕ → Death
  other_entry : Death

-- The value of `headers.get("x-death", [])`.
pub data DeathHeader : Type 0 where
  entries : List Death → DeathHeader
  other_value : DeathHeader

pub record Message (Body : Type 0) : Type 0 where
  pub body : Body
  pub death_headers : DeathHeader
  pub correlation_id : Option String

pub record Publication (Json : Type 0) : Type 0 where
  pub exchange_name : String
  pub routing_key : String
  pub message : Json
  pub correlation_id : Option String

pub data Settlement : Type 0 where
  ack : Settlement
  nack : Bool → Settlement

pub record Port (W Body Json : Type 0) : Type 0 where
  pub loads : Body → Result Json
  -- `none` if no `envelope_model` is set
  pub validate : Option (Json → Result Json)
  pub process_message : Json → Message Body → Exec W (Unit {0})
  pub publish : Publication Json → Exec W (Unit {0})
  pub settle : Settlement → Exec W (Unit {0})

pub record Session (W Json : Type 0) : Type 0 where
  pub world : W
  pub published : List (Publication Json)
  pub settled : List Settlement

abbrev first_count : List Death → ℕ
first_count [] = 0
first_count (table (some n) ∷ deaths) = n
first_count (table none ∷ deaths) = 0
first_count (other_entry ∷ deaths) = 0

unfoldable pub retry_count : DeathHeader → ℕ
retry_count (entries deaths) = first_count deaths
retry_count other_value = 0

module _ {W Body Json : Type 0} (port : Port W Body Json) where
  -- A call that reaches the world leaves its record only if it returns.
  abbrev record_if_ok :
      (Session W Json → Session W Json) → Result (Unit {0}) × W → Exec (Session W Json) (Unit {0})
  record_if_ok note (ok _, w) s = (ok tt, note (record s { world = w }))
  record_if_ok note (raised e, w) s = (raised e, record s { world = w })

  abbrev pub settle_message : Settlement → Exec (Session W Json) (Unit {0})
  settle_message how s =
      record_if_ok (λ s'. record s' { settled = s'.settled ++ how ∷ [] }) (port.settle how s.world)
        s

  abbrev pub publish_message : Publication Json → Exec (Session W Json) (Unit {0})
  publish_message p s =
      record_if_ok (λ s'. record s' { published = s'.published ++ p ∷ [] }) (port.publish p s.world)
        s

  abbrev pub process : Json → Message Body → Exec (Session W Json) (Unit {0})
  process json msg s = record_if_ok (λ s'. s') (port.process_message json msg s.world) s

  abbrev validate_body : Option (Json → Result Json) → Json → Result Json
  validate_body none body = ok body
  validate_body (some validate) body = validate body

  abbrev pub dead_letter_of : String → Message Body → Json → Publication Json
  dead_letter_of queue_name msg body = record {
    exchange_name = Exchanges.dlx;
    routing_key = get_dlq_name queue_name;
    message = body;
    correlation_id = msg.correlation_id;
  }

  unfoldable pub move_to_dlq : String → Message Body → Exec (Session W Json) (Unit {0})
  move_to_dlq queue_name msg = do
    body ← lift (port.loads msg.body)
    publish_message (dead_letter_of queue_name msg body)

  -- The `try` block of `_on_message`.
  unfoldable pub attempt : ℕ → String → Message Body → Exec (Session W Json) (Unit {0})
  attempt max_retries queue_name msg =
      if leb max_retries (retry_count msg.death_headers)
      then (do move_to_dlq queue_name msg; settle_message ack)
      else do
        body ← lift (port.loads msg.body)
        data_to_process ← lift (validate_body port.validate body)
        process data_to_process msg
        settle_message ack

  -- Its two `except` clauses.
  unfoldable pub recover : String → Message Body → Exception → Exec (Session W Json) (Unit {0})
  recover queue_name msg validation_error = do move_to_dlq queue_name msg; settle_message ack
  recover queue_name msg e = settle_message (nack false)

  unfoldable pub on_message : ℕ → String → Message Body → Exec (Session W Json) (Unit {0})
  on_message max_retries queue_name msg =
      try_except (attempt max_retries queue_name msg) (recover queue_name msg)

-- The fields that `start` and `stop` change; `subscriptions` counts the `consume` calls made.
pub record Lifecycle (W : Type 0) : Type 0 where
  pub started : Bool
  pub stop_requested : Bool
  pub subscriptions : ℕ
  pub world : W

module _ {W : Type 0} (consume : Exec W (Unit {0})) where
  subscribe_result : Result (Unit {0}) × W → Exec (Lifecycle W) (Unit {0})
  subscribe_result (ok _, w) l =
      (ok tt, record l { subscriptions = l.subscriptions + 1; world = w })
  subscribe_result (raised e, w) l = (raised e, record l { world = w })

  -- `for _ in range(self.consumer_count)`
  subscribe : ℕ → Exec (Lifecycle W) (Unit {0})
  unfolding subscribe_result
  subscribe zero = pure tt
  subscribe (suc k) = (λ l. subscribe_result (consume l.world) l) >> subscribe k

  unfoldable pub start : ℕ → Exec (Lifecycle W) (Unit {0})
  unfolding subscribe
  start consumer_count = do
    running ← gets (λ l. l.started)
    if running
        then pure tt
        else (subscribe consumer_count >> modify (λ l. record l { started = true }))

unfoldable pub stop : {W : Type 0} → Exec (Lifecycle W) (Unit {0})
stop l =
    if l.started then (ok tt, record l { stop_requested = true; started = false }) else (ok tt, l)

-- `wait` is waiting for the stop event, while other tasks run.
unfoldable pub run_forever :
    {W : Type 0}
    → Exec W (Unit {0})
    → ℕ
    → Exec (Lifecycle W) (Unit {0})
    → Exec (Lifecycle W) (Unit {0})
run_forever consume consumer_count wait = start consume consumer_count >> try_finally wait stop
