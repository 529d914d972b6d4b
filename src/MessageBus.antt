-- ===== src/MessageBus.antt =====
-- libs/messaging/rabbitmq_message_bus.py: the futures of RPC calls, the arguments of queues, and the
-- loop that connects. aio-pika is a parameter. A future is named by a number.
pub mod Calls
pub mod Broker
pub mod Interface
pub mod Connecting
pub mod Requests
pub mod Operations
use mmo_backend_server.Prelude.{
  ℕ, zero, suc, ◌+◌, String, Bool, true, false, not, ◌&&◌, ◌||◌, Option, none, some, List, [], ◌∷◌,
  ◌==◌, nat_eq, leb, is_some, if◌then◌else◌, Exception, Result, ok, raised, Exec, pure, raise, gets,
  modify, ◌>>=◌, ◌>>◌, try_except,
}
use mmo_backend_server.Prelude.Dict.{Dict, lookup, insert, erase, contains}
use mmo_backend_server.AuthService.{truthy}

-- `_rpc_futures`, and what each future was set to, if it is done.
pub record Futures (Body : Type 0) : Type 0 where
  pub rpc_futures : Dict ℕ
  pub outcome : ℕ → Option (Result Body)

abbrev pub no_futures : {Body : Type 0} → Futures Body
no_futures = record { rpc_futures = []; outcome = λ f. none }

module _ {Body : Type 0} where
  abbrev pub set_outcome : ℕ → Result Body → Futures Body → Futures Body
  set_outcome f r s = record s { outcome = λ g. if nat_eq g f then some r else s.outcome g }

  -- `self._rpc_futures[corr_id] = future`, at the start of `call_rpc`.
  unfoldable pub start_call : String → ℕ → Futures Body → Futures Body
  start_call corr_id f s = record s { rpc_futures = insert corr_id f s.rpc_futures }

  -- The `finally` of `call_rpc`.
  unfoldable pub end_call : String → Futures Body → Futures Body
  end_call corr_id s = record s { rpc_futures = erase corr_id s.rpc_futures }

  abbrev pub resolve : Result Body → Option ℕ → Futures Body → Futures Body
  resolve r none s = s
  resolve r (some f) s = if is_some (s.outcome f) then s else set_outcome f r s

  abbrev pub reply_for : Option String → Result Body → Futures Body → Futures Body
  reply_for none parsed s = s
  reply_for (some corr_id) parsed s = resolve parsed (lookup corr_id s.rpc_futures) s

  -- `_on_rpc_reply`: the correlation ID of the message, and its body as `json.loads` takes it.
  unfoldable pub on_rpc_reply : Option String → Result Body → Futures Body → Futures Body
  on_rpc_reply correlation_id parsed s = reply_for (truthy correlation_id) parsed s

  -- The rest of `call_rpc` between the two: publishing, then the future or its timeout. Every
  -- exception, the timeout among them, ends in `None`.
  abbrev pub call_result : Result (Unit {0}) → Option (Result Body) → Option Body
  call_result (raised e) waited = none
  call_result (ok _) none = none
  call_result (ok _) (some (raised e)) = none
  call_result (ok _) (some (ok body)) = some body

-- The values in the arguments of a queue.
pub data Argument : Type 0 where
  text : String → Argument
  int : ℕ → Argument

abbrev with_text : String → Option String → Dict Argument → Dict Argument
with_text key none args = args
with_text key (some v) args = insert key (text v) args

abbrev with_priority : Option ℕ → Dict Argument → Dict Argument
with_priority none args = args
with_priority (some n) args = if nat_eq n 0 then args else insert "x-max-priority" (int n) args

abbrev none_if_empty : Dict Argument → Option (Dict Argument)
none_if_empty [] = none
none_if_empty args = some args

-- The `arguments` that `declare_queue` passes on.
unfoldable pub queue_arguments :
    Option (Dict Argument) → Option String → Option String → Option ℕ → Option (Dict Argument)
queue_arguments arguments dead_letter_exchange dead_letter_routing_key max_priority =
    let args : Dict Argument = elim arguments [ none ↦ [] | some given ↦ given ] in
    none_if_empty (
      with_priority max_priority (
        with_text "x-dead-letter-routing-key" (truthy dead_letter_routing_key)
          (with_text "x-dead-letter-exchange" (truthy dead_letter_exchange) args)))
