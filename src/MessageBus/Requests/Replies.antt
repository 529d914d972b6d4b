-- ===== src/MessageBus/Requests/Replies.antt =====
-- What an RPC call answers, and the table of futures after it.
use mmo_backend_server.Prelude.{
  ℕ, String, ◌≡◌, ◌≢◌, refl, sym, ap, ◌∙◌, true, false, Option, none, some, List, [], ◌∷◌, ◌++◌,
  ◌==◌, eq_refl, eq_iff, arith, if◌then◌else◌, timeout_error, Result, ok, raised, Exec, pure, lift,
  modify, ◌>>=◌, try_except, try_finally, bind-of-ok, All,
}
use mmo_backend_server.Prelude.Dict.{lookup, lookup-erase, lookup-insert, insert}
use mmo_backend_server.MessageBus.{Futures, start_call, end_call}
use mmo_backend_server.MessageBus.Calls.{
  Step, replies, step, run, IsElsewhere, IsWaiting, first-reply,
}
use mmo_backend_server.MessageBus.Broker.{AioPika, JsonCodec, Config, Bus, on_broker}
use mmo_backend_server.MessageBus.Requests.{request, request_message, reply_or_none, call_on}

-- The future of a call, if it is done, or a timeout.
abbrev pub awaited : {Json : Type 0} → Option (Result Json) → Result Json
awaited none = raised timeout_error
awaited (some r) = r

abbrev pub body_of : {Json : Type 0} → Result Json → Option Json
body_of (ok body) = some body
body_of (raised e) = none

module _ {Br Json : Type 0} where
  -- Waiting for a future while the given steps happen to the table.
  abbrev pub wait_through : List (Step Json) → ℕ → ℕ → Exec (Bus Br Json) Json
  wait_through steps future timeout s =
      let after = run steps s.futures in
      (awaited (after.outcome future), record s { futures = after })

  try_result-ok :
      (r : Result Json) (s : Bus Br Json)
      → try_except ((λ _. (r, s)) >>= λ body. pure (some body)) (λ e. pure none) s
        ≡ (ok (body_of r), s)
  try_result-ok (ok body) s = refl
  try_result-ok (raised e) s = refl

  -- A block whose exceptions are all caught.
  reply_or_none_lem :
      (aio : AioPika Br) (json : JsonCodec Json) (cfg : Config)
      (wait_for : ℕ → ℕ → Exec (Bus Br Json) Json) (block : Exec (Bus Br Json) Json)
      (s : Bus Br Json)
      → reply_or_none aio json cfg wait_for block s ≡ (ok (body_of (block s).0), (block s).1)
  reply_or_none_lem aio json cfg wait_for block s = try_result-ok (block s).0 (block s).1

module _ {Br Json : Type 0} (aio : AioPika Br) (json : JsonCodec Json) (cfg : Config) where
  -- The bus when the call has entered its future.
  abbrev entered : String → ℕ → Bus Br Json → Bus Br Json
  entered corr_id future s = record s { futures = start_call corr_id future s.futures }

  call_on_lem :
      (wait_for : ℕ → ℕ → Exec (Bus Br Json) Json) (ch : ℕ) (corr_id : String) (future : ℕ)
      (exchange_name routing_key : String) (payload : Json) (s : Bus Br Json)
      → let out =
          request aio json cfg wait_for ch exchange_name routing_key payload corr_id future
            (entered corr_id future s) in
        call_on aio json cfg wait_for ch corr_id future exchange_name routing_key payload s
        ≡ (ok (body_of out.0), record out.1 { futures = end_call corr_id out.1.futures })
  unfolding call_on
  call_on_lem wait_for ch corr_id future exchange_name routing_key payload s =
      let block : Exec (Bus Br Json) Json =
        request aio json cfg wait_for ch exchange_name routing_key payload corr_id future in
      ap
        (λ (out : Result (Option Json) × Bus Br Json).
          try_finally (λ (_ : Bus Br Json). out)
            (modify (λ v. record v { futures = end_call corr_id v.futures })) s)
        (reply_or_none_lem aio json cfg wait_for block (entered corr_id future s))

  -- A call with a channel always returns, whatever publishing and waiting do or raise, and leaves no
  -- future under its correlation ID.
  pub call_on-lookup :
      (wait_for : ℕ → ℕ → Exec (Bus Br Json) Json) (ch : ℕ) (corr_id : String) (future : ℕ)
      (exchange_name routing_key : String) (payload : Json) (s : Bus Br Json)
      → let out =
          call_on aio json cfg wait_for ch corr_id future exchange_name routing_key payload s in
        ((o : Option Json) × (out.0 ≡ ok o)) × (lookup corr_id out.1.futures.rpc_futures ≡ none)
  unfolding end_call
  call_on-lookup wait_for ch corr_id future exchange_name routing_key payload s =
      let whole = call_on_lem wait_for ch corr_id future exchange_name routing_key payload s in
      let asked =
        request aio json cfg wait_for ch exchange_name routing_key payload corr_id future
          (entered corr_id future s) in
      (
        (body_of asked.0, ap (λ out. out.0) whole),
        ap (λ out. lookup corr_id out.1.futures.rpc_futures) whole
            ∙ lookup-erase corr_id corr_id asked.1.futures.rpc_futures
            ∙ ap (λ b. if b then none else lookup corr_id asked.1.futures.rpc_futures)
                (eq_refl corr_id),
      )

  start_call-IsWaiting :
      (corr_id : String) (f : ℕ) (s : Futures Json)
      → ((k : String) → lookup k s.rpc_futures ≢ some f)
      → s.outcome f ≡ none
      → IsWaiting corr_id f (start_call corr_id f s)
  unfolding start_call
  start_call-IsWaiting corr_id f s fresh unset = record {
    found =
        lookup-insert corr_id corr_id f s.rpc_futures
        ∙ ap (λ b. if b then some f else lookup corr_id s.rpc_futures) (eq_refl corr_id);
    own = λ k other e. fresh k (sym (stays k other) ∙ e);
    pending = unset;
  }
    where
      swapped : (k : String) → k == corr_id ≡ false → corr_id == k ≡ false
      swapped k other = ground (arith, eq_iff corr_id k, eq_iff k corr_id)

      stays :
          (k : String)
          → k == corr_id ≡ false
          → lookup k (insert corr_id f s.rpc_futures) ≡ lookup k s.rpc_futures
      stays k other =
          lookup-insert corr_id k f s.rpc_futures
          ∙ ap (λ b. if b then some f else lookup k s.rpc_futures) (swapped k other)

  run-append : (xs ys : List (Step Json)) (s : Futures Json) → run (xs ++ ys) s ≡ run ys (run xs s)
  run-append [] ys s = refl
  run-append (x ∷ xs) ys s = run-append xs ys (step x s)

  -- A request that was published waits, with its future in the table.
  request-waits :
      (wait_for : ℕ → ℕ → Exec (Bus Br Json) Json) (ch : ℕ) (corr_id : String) (future x : ℕ)
      (exchange_name routing_key body : String) (payload : Json) (s : Bus Br Json)
      → json.dumps payload ≡ ok body
      → (aio.get_exchange ch exchange_name s.broker).0 ≡ ok x
      → (aio.exchange_publish x
          (request_message body corr_id)
          routing_key
          true
          (aio.get_exchange ch exchange_name s.broker).1).0
        ≡ ok tt
      → (br : Br) × (request aio json cfg wait_for ch exchange_name routing_key payload corr_id
            future s
          ≡ wait_for future cfg.rpc_timeout_ms (record s { broker = br }))
  unfolding request
  request-waits wait_for ch corr_id future x exchange_name routing_key body payload s dumped got
        sent =
      let k3 : Unit {0} → Exec (Bus Br Json) Json = λ _. wait_for future cfg.rpc_timeout_ms in
      let send : String → ℕ → Exec (Bus Br Json) (Unit {0}) = λ text ex.
        on_broker (aio.exchange_publish ex (request_message text corr_id) routing_key true) in
      let k2 : String → ℕ → Exec (Bus Br Json) Json = λ text ex. send text ex >>= k3 in
      let k1 : String → Exec (Bus Br Json) Json =
        λ text. on_broker (aio.get_exchange ch exchange_name) >>= k2 text in
      let s1 : Bus Br Json = record s { broker = (aio.get_exchange ch exchange_name s.broker).1 } in
      (
        (aio.exchange_publish x (request_message body corr_id) routing_key true s1.broker).1,
        bind-of-ok (lift (json.dumps payload)) k1 s dumped
            ∙ bind-of-ok (on_broker (aio.get_exchange ch exchange_name)) (k2 body) s got
            ∙ bind-of-ok (send body x) k3 s1 sent,
      )

  -- A call that could be published answers with the first reply that has its correlation ID (or with
  -- nothing, if that reply is no JSON), whatever other calls, replies and timeouts come before it and
  -- whatever comes after it while the call waits. Conditions: the correlation ID is not empty, the
  -- future is new, the payload could be encoded, the exchange was found and took the message, and the
  -- steps before the reply are about other IDs, with other futures.
  pub call_on-first_reply :
      (before after : List (Step Json)) (r : Result Json) (ch : ℕ) (corr_id : String) (future x : ℕ)
      (exchange_name routing_key body : String) (payload : Json) (s : Bus Br Json)
      → corr_id == "" ≡ false
      → ((k : String) → lookup k s.futures.rpc_futures ≢ some future)
      → s.futures.outcome future ≡ none
      → json.dumps payload ≡ ok body
      → (aio.get_exchange ch exchange_name s.broker).0 ≡ ok x
      → (aio.exchange_publish x
          (request_message body corr_id)
          routing_key
          true
          (aio.get_exchange ch exchange_name s.broker).1).0
        ≡ ok tt
      → All (IsElsewhere corr_id future) before
      → (call_on aio json cfg
          (wait_through (before ++ replies (some corr_id) r ∷ after))
          ch
          corr_id
          future
          exchange_name
          routing_key
          payload
          s).0
        ≡ ok (body_of r)
  call_on-first_reply before after r ch corr_id future x exchange_name routing_key body payload s
        named fresh unset dumped got sent others =
      let steps : List (Step Json) = before ++ replies (some corr_id) r ∷ after in
      let s1 : Bus Br Json = entered corr_id future s in
      let (br, waits) =
        request-waits (wait_through steps) ch corr_id future x exchange_name routing_key body
          payload s1 dumped got sent in
      let answered : (run steps s1.futures).outcome future ≡ some r =
        ap (λ t. t.outcome future) (run-append before (replies (some corr_id) r ∷ after) s1.futures)
        ∙ first-reply corr_id future before after r s1.futures named
            (start_call-IsWaiting corr_id future s.futures fresh unset) others in
      ap (λ out. out.0)
        (call_on_lem (wait_through steps) ch corr_id future exchange_name routing_key payload s)
      ∙ ap (λ out. ok (body_of out.0)) waits
      ∙ ap (λ o. ok (body_of (awaited o))) answered
