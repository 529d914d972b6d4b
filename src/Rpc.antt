-- ===== src/Rpc.antt =====
-- The RPC side of the authentication service: apps/auth_svc/listeners/*.py, their `process_message`
-- and `_reply`, over libs/domain/dto/rpc.py. The handlers are in Rpc/Handlers.antt.
-- JSON values are `Json`; pydantic's `model_validate` is the parameter `validate`.
pub mod Handlers
pub mod Validation
pub mod TokenKinds
pub mod Factories
pub mod Answers
use mmo_backend_server.Prelude.{
  ℕ, String, Bool, true, false, not, ◌&&◌, Option, none, some, List, ◌==◌, is_some, if◌then◌else◌,
  Exec, pure, ◌>>=◌, ◌>>◌,
}
use mmo_backend_server.Errors.{value, validation_failed}

mutual
  pub data Json : Type 0 where
    null : Json
    boolean : Bool → Json
    number : ℕ → Json
    text : String → Json
    array : Items → Json
    object : Fields → Json

  pub data Items : Type 0 where
    end_of_items : Items
    item : Json → Items → Items

  pub data Fields : Type 0 where
    end_of_fields : Fields
    field : String → Json → Fields → Fields

-- `d.get(key)`
unfoldable pub get : String → Fields → Option Json
get key end_of_fields = none
get key (field k v fields) = if k == key then some v else get key fields

-- `d.pop(key)`, without the value.
unfoldable pub pop : String → Fields → Fields
pop key end_of_fields = end_of_fields
pop key (field k v fields) = let rest = pop key fields in if k == key then rest else field k v rest

-- `if "payload" in data and isinstance(data["payload"], dict)`, of the issue and validate listeners.
abbrev object_or : Fields → Option Json → Fields
object_or data_fields (some (object payload)) = payload
object_or data_fields _ = data_fields

unfoldable pub payload_or_data : Fields → Fields
payload_or_data data_fields = object_or data_fields (get "payload" data_fields)

-- `data.get("payload", data)`, of the other listeners.
abbrev or_object : Fields → Option Json → Json
or_object data_fields (some payload) = payload
or_object data_fields none = object data_fields

unfoldable pub payload_of : Fields → Json
payload_of data_fields = or_object data_fields (get "payload" data_fields)

-- The validate listener takes "token" for "access_token".
abbrev renamed : Fields → Option Json → Bool → Fields
renamed payload (some token) false = field "access_token" token (pop "token" payload)
renamed payload _ _ = payload

unfoldable pub alias_token : Fields → Fields
alias_token payload = renamed payload (get "token" payload) (is_some (get "access_token" payload))

-- What `model_validate` answers: an object of the model, or the errors.
pub data Validated (A : Type 0) : Type 0 where
  valid : A → Validated A
  invalid : String → Validated A

pub record RpcResponse (A : Type 0) : Type 0 where
  pub success : Bool
  pub payload : Option A
  pub error_code : Option String
  pub message : Option String
  pub correlation_id : Option String

abbrev pub success_with : {A : Type 0} → A → RpcResponse A
success_with a = record {
  success = true;
  payload = some a;
  error_code = none;
  message = none;
  correlation_id = none;
}

abbrev pub failure : {A : Type 0} → String → String → RpcResponse A
failure error_code message = record {
  success = false;
  payload = none;
  error_code = some error_code;
  message = some message;
  correlation_id = none;
}

-- The JSON bodies that are sent back: a dumped model, or a dictionary that a listener writes.
pub data Body (A : Type 0) : Type 0 where
  model : A → Body A
  -- `error_code` and `error_message`, of the issue listener
  error : String → String → Body A
  -- the same with `valid` false, of the validate listener
  not_valid : String → String → Body A
  -- the same with `success` false and `message`, of the register listener
  no_success : String → String → Body A

-- What the listeners read of `meta`.
pub record Meta : Type 0 where
  pub reply_to : Option String
  pub correlation_id : Option String

module _ {S A : Type 0}
    (publish_rpc_response : String → Body A → Option String → Exec S (Unit {0})) where
  abbrev pub reply_at : Option String → Option String → Body A → Exec S (Unit {0})
  reply_at none correlation_id body = pure tt
  reply_at (some reply_to) correlation_id body =
      if reply_to == "" then pure tt else publish_rpc_response reply_to body correlation_id

  -- `_reply`: without an address nothing is sent.
  unfoldable pub reply : Meta → Body A → Exec S (Unit {0})
  reply meta body = reply_at meta.reply_to meta.correlation_id body

abbrev pub correlated : {A : Type 0} → Option String → RpcResponse A → RpcResponse A
correlated correlation_id response = record response { correlation_id = correlation_id }

module _ {S Req A : Type 0}
    (publish_rpc_response : String → Body (RpcResponse A) → Option String → Exec S (Unit {0}))
    (process : Req → Exec S (RpcResponse A)) where
  -- The validated request is processed and answered.
  abbrev pub issue_validated : Meta → Validated Req → Exec S (Unit {0})
  issue_validated meta (invalid errors) =
      reply publish_rpc_response meta (error "dto.invalid" errors)
  issue_validated meta (valid req) = do
    resp ← process req
    reply publish_rpc_response meta (model resp)

  -- AuthIssueTokenRpc
  unfoldable pub issue_token_message : (Fields → Validated Req) → Fields → Meta → Exec S (Unit {0})
  issue_token_message validate data_fields meta =
      issue_validated meta (validate (payload_or_data data_fields))

  abbrev pub register_validated : Meta → Validated Req → Exec S (Unit {0})
  register_validated meta (invalid errors) =
      reply publish_rpc_response meta (no_success "dto.invalid" errors)
  register_validated meta (valid req) = do
    rpc_response ← process req
    reply publish_rpc_response meta (model (correlated meta.correlation_id rpc_response))

  -- AuthRegisterRpc
  unfoldable pub register_message : (Json → Validated Req) → Fields → Meta → Exec S (Unit {0})
  register_message validate data_fields meta =
      register_validated meta (validate (payload_of data_fields))

  -- `_reply` of the listeners that send models only.
  abbrev reply_model : Meta → RpcResponse A → Exec S (Unit {0})
  reply_model meta rpc_response =
      reply publish_rpc_response meta (model (correlated meta.correlation_id rpc_response))

  abbrev pub model_validated : Meta → Validated Req → Exec S (Unit {0})
  model_validated meta (invalid errors) =
      reply_model meta (failure (value validation_failed) errors)
  model_validated meta (valid req) = do rpc_response ← process req; reply_model meta rpc_response

  -- AuthRefreshTokenRpc
  unfoldable pub refresh_token_message : (Json → Validated Req) → Fields → Meta → Exec S (Unit {0})
  refresh_token_message validate data_fields meta =
      model_validated meta (validate (payload_of data_fields))

  -- AuthLogoutRpc
  unfoldable pub logout_message : (Json → Validated Req) → Fields → Meta → Exec S (Unit {0})
  logout_message validate data_fields meta =
      model_validated meta (validate (payload_of data_fields))

module _ {S Req A : Type 0}
    (publish_rpc_response : String → Body A → Option String → Exec S (Unit {0}))
    (process : Req → Exec S A) where
  abbrev pub validate_validated : Meta → Validated Req → Exec S (Unit {0})
  validate_validated meta (invalid errors) =
      reply publish_rpc_response meta (not_valid "dto.invalid" errors)
  validate_validated meta (valid req) = do
    resp ← process req
    reply publish_rpc_response meta (model resp)

  -- AuthValidateTokenRpc
  unfoldable pub validate_token_message :
      (Fields → Validated Req) → Fields → Meta → Exec S (Unit {0})
  validate_token_message validate data_fields meta =
      validate_validated meta (validate (alias_token (payload_or_data data_fields)))
