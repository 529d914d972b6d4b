-- ===== src/Rpc/TokenKinds.antt =====
-- The validation endpoint and refresh tokens.
use mmo_backend_server.Prelude.{
  ℕ, String, ◌≡◌, ◌≢◌, refl, false, Option, none, List, [], ◌∷◌, ◌==◌, arith, Result, ok, raised,
}
use mmo_backend_server.Jwt.{
  Claims, Codec, JwtManager, refresh_audience, refresh_claims, create_refresh_token,
}
use mmo_backend_server.Jwt.Separation.{CodecLaw}
use mmo_backend_server.Rpc.Validation.{validate_token, response_of}

module _ (codec : Codec) (law : CodecLaw codec) (show : ℕ → String) (m : JwtManager) (aud : String)
    (parse_int : String → Option ℕ) (split : String → List String) where
  response-refused :
      (r : Result Claims)
      → ((c : Claims) → r ≢ ok c)
      → (response_of codec m.secret aud parse_int split r).is_valid ≡ false
  response-refused (ok c) never = absurd (never c refl)
  response-refused (raised e) never = refl

  -- A refresh token that the service issued is not valid as an access token, if the request names
  -- no audience and the one that is checked by default is not that of refresh tokens. The codec
  -- meets its law.
  pub validate_token-refresh :
      (now id ttl : ℕ) (jti : String) (iss : Option String)
      → aud == refresh_audience ≡ false
      → (validate_token codec m.secret aud parse_int split (record {
        access_token = (create_refresh_token codec show m now jti id ttl).0;
        expected_aud = none;
        expected_iss = iss;
      })).is_valid
        ≡ false
  unfolding validate_token create_refresh_token
  validate_token-refresh now id ttl jti iss other = response-refused _ (λ c e.
      let (_, listed) =
        law.own_claims (refresh_claims codec show m now jti id ttl) c m.secret (aud ∷ []) iss
          ("exp" ∷ "iat" ∷ []) e in
      ground (arith, other, listed))
