-- ===== src/Containers/Tokens.antt =====
-- The access tokens of the service that the container builds, and the validation of tokens.
use mmo_backend_server.Prelude.{
  ℕ, ◌+◌, ◌≤◌, ◌<◌, String, ◌≡◌, refl, ap, ◌∙◌, true, false, ◌||◌, Option, none, some, List, [],
  ◌∷◌, eq_refl, ok, Result,
}
use mmo_backend_server.Jwt.{Claims, Codec, create_access_token, access_claims}
use mmo_backend_server.Jwt.Separation.{accepts}
use mmo_backend_server.AuthService.{Service}
use mmo_backend_server.Rpc.Validation.{ValidateTokenResponse, validate_token, response_of}
use mmo_backend_server.Containers.{Clients, AuthServiceSettings, wired}

-- PyJWT, when its clock shows `now`: a token with the claims `c` reads as these under the secret that it
-- was encoded under, if it was issued and has not expired, and names an accepted audience.
pub record ReadsAt (codec : Codec) (now : ℕ) (c : Claims) : Type 0 where
  pub reads :
      (secret : String) (audiences : List String) (iat exp : ℕ)
      → c.iat ≡ some iat
      → c.exp ≡ some exp
      → iat ≤ now
      → now < exp
      → accepts audiences c.aud ≡ true
      → codec.decode (codec.encode c secret) secret audiences none ("exp" ∷ "iat" ∷ []) ≡ ok c

-- A validation that names the account and the client, and the time when the token expires.
abbrev pub Validates : ValidateTokenResponse → ℕ → String → ℕ → Type 0
Validates response id aud exp =
    (response.is_valid ≡ true)
    × (response.account_id ≡ some id)
    × (response.client_id ≡ some aud)
    × (response.exp ≡ some exp)

module _ {S Db Rd Raw : Type 0} (clients : Clients S) (parts : Service Db Rd Raw)
    (parse_int : String → Option ℕ) (split : String → List String) where
  -- An access token of the service that the container builds from its settings is valid for the
  -- validation handler with the same settings until it expires, and is read as its account's and as the
  -- configured audience's. Conditions: the request names no audience and no issuer, PyJWT reads what it
  -- wrote while the token lasts, and the number of the account can be read from its text.
  pub validate_token-access :
      (settings : AuthServiceSettings) (now later id : ℕ) (username : String)
      → ReadsAt parts.codec later (
          access_claims parts.codec parts.show
            (wired clients parts settings).jwt_manager
            now
            id
            username
            settings.auth_access_ttl)
      → now ≤ later
      → later < now + settings.auth_access_ttl
      → parse_int (parts.show id) ≡ some id
      → let sv = wired clients parts settings in
        Validates
          (validate_token sv.codec settings.jwt_secret settings.auth_jwt_aud parse_int split
            (record {
              access_token =
                  create_access_token sv.codec sv.show sv.jwt_manager now id username
                    sv.access_token_expires;
              expected_aud = none;
              expected_iss = none;
            }))
          id
          settings.auth_jwt_aud
          (now + settings.auth_access_ttl)
  unfolding validate_token create_access_token
  validate_token-access settings now later id username law since before read =
      let sv = wired clients parts settings in
      let claims : Claims =
        access_claims sv.codec sv.show sv.jwt_manager now id username sv.access_token_expires in
      let decoded : parts.codec.decode (parts.codec.encode claims settings.jwt_secret)
            settings.jwt_secret (settings.auth_jwt_aud ∷ []) none ("exp" ∷ "iat" ∷ [])
          ≡ ok claims =
        law.reads settings.jwt_secret (settings.auth_jwt_aud ∷ []) now
          (now + settings.auth_access_ttl) refl refl since before
          (ap (λ b. b || false) (eq_refl settings.auth_jwt_aud)) in
      let response : Result Claims → ValidateTokenResponse =
        response_of parts.codec settings.jwt_secret settings.auth_jwt_aud parse_int split in
      let same = ap response decoded in
      (
        ap (λ r. r.is_valid) same,
        ap (λ r. r.account_id) same ∙ read,
        ap (λ r. r.client_id) same,
        ap (λ r. r.exp) same,
      )
