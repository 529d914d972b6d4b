-- ===== src/Rpc/Validation.antt =====
-- apps/auth_svc/handlers/auth_validate_token_rpc_handler.py: checking an access token.
use mmo_backend_server.Prelude.{
  ℕ, String, Bool, true, false, Option, none, some, List, [], ◌∷◌, ◌==◌, if◌then◌else◌, Exception,
  jwt_expired, jwt_bad_audience, jwt_bad_issuer, jwt_invalid, Result, ok, raised,
}
use mmo_backend_server.Jwt.{Audience, absent, one, many, Codec, Claims}
use mmo_backend_server.AuthService.{truthy}

-- libs/domain/dto/auth.py
pub record ValidateTokenRequest : Type 0 where
  pub access_token : String
  pub expected_aud : Option String
  pub expected_iss : Option String

pub record ValidateTokenResponse : Type 0 where
  pub is_valid : Bool
  pub user_id : Option String
  pub account_id : Option ℕ
  pub client_id : Option String
  pub scopes : List String
  pub iat : Option ℕ
  pub exp : Option ℕ
  pub error_code : Option String

abbrev pub invalid_token : String → ValidateTokenResponse
invalid_token code = record {
  is_valid = false;
  user_id = none;
  account_id = none;
  client_id = none;
  scopes = [];
  iat = none;
  exp = none;
  error_code = some code;
}

abbrev client_id_of : Audience → Option String
client_id_of absent = none
client_id_of (one aud) = some aud
client_id_of (many []) = none
client_id_of (many (aud ∷ auds)) = some aud

-- Python's classes of errors, from the most specific: the `except` clauses in their order.
abbrev pub code_of : Exception → String
code_of jwt_expired = "auth.TOKEN_EXPIRED"
code_of jwt_bad_audience = "auth.BAD_AUDIENCE"
code_of jwt_bad_issuer = "auth.BAD_ISSUER"
code_of jwt_invalid = "auth.INVALID_TOKEN"
code_of e = "auth.INTERNAL_ERROR"

-- The settings, `int` of a text (`none` where it raises) and `str.split`.
module _ (codec : Codec) (secret aud : String) (parse_int : String → Option ℕ)
    (split : String → List String) where
  abbrev account_id_of : Option String → Option ℕ
  account_id_of none = none
  account_id_of (some sub) = parse_int sub

  abbrev scopes_of : Option String → List String
  scopes_of none = []
  scopes_of (some scope) = if scope == "" then [] else split scope

  abbrev accepted : Claims → ValidateTokenResponse
  accepted decoded = record {
    is_valid = true;
    user_id = decoded.sub;
    account_id = account_id_of decoded.sub;
    client_id = client_id_of decoded.aud;
    scopes = scopes_of decoded.scope;
    iat = decoded.iat;
    exp = decoded.exp;
    error_code = none;
  }

  abbrev audience_to_check : Option String → String
  audience_to_check expected_aud = elim (truthy expected_aud) [ none ↦ aud | some a ↦ a ]

  abbrev pub response_of : Result Claims → ValidateTokenResponse
  response_of (ok decoded) = accepted decoded
  response_of (raised e) = invalid_token (code_of e)

  unfoldable pub validate_token : ValidateTokenRequest → ValidateTokenResponse
  validate_token dto = response_of (
      codec.decode dto.access_token secret (audience_to_check dto.expected_aud ∷ [])
        dto.expected_iss ("exp" ∷ "iat" ∷ []))
