-- ===== src/Rpc/Answers.antt =====
-- What each listener sends for a message, and where: `process_message` of the five RPC listeners.
use mmo_backend_server.Prelude.{
  String, ◌≡◌, Option, none, some, List, [], ◌∷◌, ◌++◌, ◌==◌, if◌then◌else◌, Result, ok, raised,
  Exec,
}
use mmo_backend_server.Rpc.{
  Json, Fields, Validated, valid, invalid, RpcResponse, Body, model, error, not_valid, no_success,
  failure, Meta, correlated, payload_or_data, payload_of, alias_token, issue_token_message,
  register_message, refresh_token_message, logout_message, validate_token_message,
}

pub data RpcListener : Type 0 where
  issue_listener validate_listener register_listener : RpcListener
  refresh_listener logout_listener : RpcListener

-- What a listener's handler answers: the validation's own DTO, or an `RpcResponse`.
abbrev pub Response : RpcListener → Type 0 → Type 0
Response issue_listener A = RpcResponse A
Response validate_listener A = A
Response register_listener A = RpcResponse A
Response refresh_listener A = RpcResponse A
Response logout_listener A = RpcResponse A

-- The service that the handlers run on, and the bus that the listeners publish to.
pub record Listening (W Out : Type 0) : Type 0 where
  pub world : W
  pub bus : Out

abbrev pub on_world : {W Out A : Type 0} → Exec W A → Exec (Listening W Out) A
on_world call s = let (r, world') = call s.world in (r, record s { world = world' })

abbrev pub on_bus : {W Out A : Type 0} → Exec Out A → Exec (Listening W Out) A
on_bus call s = let (r, bus') = call s.bus in (r, record s { bus = bus' })

-- `process_message` of a listener, with the publication of replies and the handler.
abbrev pub process_message :
    {W Out Req : Type 0} (A : Type 0) (l : RpcListener)
    → (String → Body (Response l A) → Option String → Exec Out (Unit {0}))
    → (Req → Exec W (Response l A))
    → (Fields → Validated Req)
    → (Json → Validated Req)
    → Fields
    → Meta
    → Exec (Listening W Out) (Unit {0})
process_message A issue_listener publish process validate_fields validate =
    issue_token_message (λ to body id. on_bus (publish to body id)) (λ req. on_world (process req))
      validate_fields
process_message A validate_listener publish process validate_fields validate =
    validate_token_message (λ to body id. on_bus (publish to body id))
      (λ req. on_world (process req)) validate_fields
process_message A register_listener publish process validate_fields validate =
    register_message (λ to body id. on_bus (publish to body id)) (λ req. on_world (process req))
      validate
process_message A refresh_listener publish process validate_fields validate =
    refresh_token_message (λ to body id. on_bus (publish to body id))
      (λ req. on_world (process req)) validate
process_message A logout_listener publish process validate_fields validate =
    logout_message (λ to body id. on_bus (publish to body id)) (λ req. on_world (process req))
      validate

pub record Sent (R : Type 0) : Type 0 where
  pub reply_to : String
  pub body : Body R
  pub correlation_id : Option String

-- A bus that is up: publishing returns, and adds one message to those that were sent.
pub record Publishes {Out R : Type 0}
    (publish : String → Body R → Option String → Exec Out (Unit {0})) : Type 0 where
  pub sent : Out → List (Sent R)
  pub returns :
      (to : String) (body : Body R) (id : Option String) (out : Out)
      → (publish to body id out).0 ≡ ok tt
  pub adds :
      (to : String) (body : Body R) (id : Option String) (out : Out)
      → sent (publish to body id out).1
        ≡ sent out ++ record { reply_to = to; body = body; correlation_id = id } ∷ []

-- One message to the address, if there is one.
abbrev pub to_address : {R : Type 0} → Option String → Option String → Body R → List (Sent R)
to_address none id body = []
to_address (some to) id body =
    if to == "" then [] else record { reply_to = to; body = body; correlation_id = id } ∷ []

-- The request as each listener reads it.
abbrev pub request :
    {Req : Type 0}
    → RpcListener
    → (Fields → Validated Req)
    → (Json → Validated Req)
    → Fields
    → Validated Req
request issue_listener validate_fields validate data_fields =
    validate_fields (payload_or_data data_fields)
request validate_listener validate_fields validate data_fields =
    validate_fields (alias_token (payload_or_data data_fields))
request register_listener validate_fields validate data_fields = validate (payload_of data_fields)
request refresh_listener validate_fields validate data_fields = validate (payload_of data_fields)
request logout_listener validate_fields validate data_fields = validate (payload_of data_fields)

-- The body for a request that the DTO refuses.
abbrev pub refusal : (A : Type 0) (l : RpcListener) → Option String → String → Body (Response l A)
refusal A issue_listener id errors = error "dto.invalid" errors
refusal A validate_listener id errors = not_valid "dto.invalid" errors
refusal A register_listener id errors = no_success "dto.invalid" errors
refusal A refresh_listener id errors = model (correlated id (failure "validation.failed" errors))
refusal A logout_listener id errors = model (correlated id (failure "validation.failed" errors))

-- The body for what the handler answered.
abbrev pub answer :
    (A : Type 0) (l : RpcListener) → Option String → Response l A → Body (Response l A)
answer A issue_listener id response = model response
answer A validate_listener id response = model response
answer A register_listener id response = model (correlated id response)
answer A refresh_listener id response = model (correlated id response)
answer A logout_listener id response = model (correlated id response)

-- The body to send and the state of the service, from the request and the handler's run.
abbrev pub handled : {W Q R : Type 0} → (Q → Body R) → Result Q × W → Result (Body R) × W
handled answer_of (ok q, w) = (ok (answer_of q), w)
handled answer_of (raised e, w) = (raised e, w)

abbrev pub verdict :
    {W Req : Type 0} (A : Type 0) (l : RpcListener)
    → (Req → Exec W (Response l A))
    → Option String
    → Validated Req
    → W
    → Result (Body (Response l A)) × W
verdict A l process id (invalid errors) w = (ok (refusal A l id errors), w)
verdict A l process id (valid req) w = handled (answer A l id) (process req w)

-- The listener did what the verdict says: it returned with the one reply sent, or it ended in the
-- handler's exception with nothing sent.
abbrev pub Answers :
    {W Out R : Type 0}
    → (Out → List (Sent R))
    → Meta
    → Out
    → Result (Body R) × W
    → Result (Unit {0}) × Listening W Out
    → Type 0
Answers sent meta bus (ok body, w) (r, s) =
    (r ≡ ok tt)
    × (s.world ≡ w)
    × (sent s.bus ≡ sent bus ++ to_address meta.reply_to meta.correlation_id body)
Answers sent meta bus (raised e, w) (r, s) = (r ≡ raised e) × (s.world ≡ w) × (s.bus ≡ bus)

module _ {W Out R : Type 0} (publish : String → Body R → Option String → Exec Out (Unit {0}))
    (law : Publishes publish) where
  abbrev send : String → Body R → Option String → Exec (Listening W Out) (Unit {0})
  send to body id = on_bus (publish to body id)
