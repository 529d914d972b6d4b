-- ===== src/Jwt.antt =====
-- apps/auth_svc/utils/jwt_manager.py: making and reading JSON web tokens.
-- PyJWT is the parameter `Codec`; the algorithm is HS256 on both sides and is not mentioned.
pub mod Separation
use mmo_backend_server.Prelude.{
  ℕ, ◌+◌, String, Bool, Option, none, some, List, [], ◌∷◌, Exception, jwt_expired, jwt_bad_audience,
  jwt_bad_issuer, jwt_invalid, jwt_error, Result, ok, raised,
}

-- The `aud` claim: absent, a text or a list.
pub data Audience : Type 0 where
  absent : Audience
  one : String → Audience
  many : List String → Audience

pub record Claims : Type 0 where
  pub sub : Option String
  pub username : Option String
  pub scope : Option String
  pub iat : Option ℕ
  pub exp : Option ℕ
  pub iss : Option String
  pub aud : Audience
  pub jti : Option String

pub record Codec : Type 0 where
  -- the payload and the secret
  pub encode : Claims → String → String
  -- the token, the secret, the accepted audiences, the issuer if one is checked, and the claims
  -- that must be there
  pub decode : String → String → List String → Option String → List String → Result Claims

pub record JwtManager : Type 0 where
  pub secret : String
  pub issuer : String
  pub audience : String

-- The audience of refresh tokens, and those that `decode_token` accepts.
abbrev pub refresh_audience : String
refresh_audience = "game_clients_refresh"

abbrev pub decoded_audiences : List String
decoded_audiences = "game_clients" ∷ refresh_audience ∷ []

-- `except jwt.PyJWTError: return None`; any other exception goes on.
abbrev pub none_if_jwt : Result Claims → Result (Option Claims)
none_if_jwt (ok claims) = ok (some claims)
none_if_jwt (raised jwt_expired) = ok none
none_if_jwt (raised jwt_bad_audience) = ok none
none_if_jwt (raised jwt_bad_issuer) = ok none
none_if_jwt (raised jwt_invalid) = ok none
none_if_jwt (raised jwt_error) = ok none
none_if_jwt (raised e) = raised e

-- `show` is `str` of an integer, `now` the clock in whole seconds.
module _ (codec : Codec) (show : ℕ → String) (m : JwtManager) where
  abbrev pub access_claims : ℕ → ℕ → String → ℕ → Claims
  access_claims now account_id username expires_delta = record {
    sub = some (show account_id);
    username = some username;
    scope = none;
    iat = some now;
    exp = some (now + expires_delta);
    iss = some m.issuer;
    aud = one m.audience;
    jti = none;
  }

  unfoldable pub create_access_token : ℕ → ℕ → String → ℕ → String
  create_access_token now account_id username expires_delta =
      codec.encode (access_claims now account_id username expires_delta) m.secret

  abbrev pub refresh_claims : ℕ → String → ℕ → ℕ → Claims
  refresh_claims now jti account_id expires_delta = record {
    sub = some (show account_id);
    username = none;
    scope = none;
    iat = some now;
    exp = some (now + expires_delta);
    iss = some m.issuer;
    aud = one refresh_audience;
    jti = some jti;
  }

  -- `jti` is the UUID that `uuid4` draws.
  unfoldable pub create_refresh_token : ℕ → String → ℕ → ℕ → String × String
  create_refresh_token now jti account_id expires_delta =
      (codec.encode (refresh_claims now jti account_id expires_delta) m.secret, jti)

  unfoldable pub decode_token : String → Result (Option Claims)
  decode_token token = none_if_jwt (codec.decode token m.secret decoded_audiences none [])
