-- ===== src/Jwt/Separation.antt =====
-- Access tokens and refresh tokens are told apart by their audience.
use mmo_backend_server.Prelude.{
  ℕ, ◌+◌, ◌≤◌, String, ◌≡◌, ◌≢◌, refl, ap, ◌∙◌, Bool, true, false, Option, none, some, List, [],
  ◌==◌, leb, if◌then◌else◌, eq_iff, arith, any, ok, raised, jwt_expired, jwt_bad_audience,
}
use mmo_backend_server.Jwt.{
  Audience, absent, one, many, Claims, Codec, JwtManager, decoded_audiences, decode_token,
  create_access_token, create_refresh_token, access_claims, refresh_claims, none_if_jwt,
}

-- Whether a token's audience meets one of those that the reader accepts.
abbrev pub accepts : List String → Audience → Bool
accepts accepted absent = false
accepts accepted (one a) = any (λ b. b == a) accepted
accepts accepted (many auds) = any (λ a. any (λ b. b == a) accepted) auds

-- What decoding promises: a token decodes under the secret that it was encoded under only to its
-- own `jti`, and only if a listed audience is among them.
pub record CodecLaw (codec : Codec) : Type 0 where
  pub own_claims :
      (c c' : Claims) (secret : String) (accepted : List String) (iss : Option String)
      (required : List String)
      → codec.decode (codec.encode c secret) secret accepted iss required ≡ ok c'
      → (c'.jti ≡ c.jti) × (accepts accepted c.aud ≡ true)

-- PyJWT, when its clock shows `clock`: a token with the claims `c`, issued by then, decodes under the
-- secret that it was encoded under. First its expiry is checked, then its audience, and then it reads
-- as its claims.
pub record DecodesAt (codec : Codec) (clock : ℕ) (c : Claims) : Type 0 where
  pub decodes :
      (secret : String) (accepted : List String) (iat exp : ℕ)
      → c.iat ≡ some iat
      → c.exp ≡ some exp
      → iat ≤ clock
      → codec.decode (codec.encode c secret) secret accepted none [] ≡ (
          if leb exp clock
          then raised jwt_expired
          else if accepts accepted c.aud
          then ok c
          else raised jwt_bad_audience)

refused_or_expired :
    (late listed : Bool) (c : Claims)
    → listed ≡ false
    → none_if_jwt
        (if late then raised jwt_expired else if listed then ok c else raised jwt_bad_audience)
      ≡ ok none
refused_or_expired late listed c e = ground arith

in_time :
    (late : Bool) (c : Claims)
    → none_if_jwt (if late then raised jwt_expired else ok c) ≡ ok (if late then none else some c)
in_time late c = ground arith

module _ (codec : Codec) (show : ℕ → String) (m : JwtManager) where
  -- `decode_token` answers `None` to every access token that the service issued, expired or not, if
  -- the service's audience is neither "game_clients" nor "game_clients_refresh", as the audience
  -- "game-clients" of the default settings. PyJWT decodes what it encoded by its rules, and its clock
  -- has not gone back.
  pub decode_token-access :
      (now later id ttl : ℕ) (username : String)
      → DecodesAt codec later (access_claims codec show m now id username ttl)
      → now ≤ later
      → m.audience ≢ "game_clients"
      → m.audience ≢ "game_clients_refresh"
      → decode_token codec show m (create_access_token codec show m now id username ttl) ≡ ok none
  unfolding decode_token create_access_token
  decode_token-access now later id ttl username law since ne ne' =
      let c : Claims = access_claims codec show m now id username ttl in
      let unlisted : accepts decoded_audiences c.aud ≡ false = ground (
        arith,
        ne,
        ne',
        eq_iff "game_clients" m.audience,
        eq_iff "game_clients_refresh" m.audience,
      ) in
      ap none_if_jwt (law.decodes m.secret decoded_audiences now (now + ttl) refl refl since)
      ∙ refused_or_expired (leb (now + ttl) later) (accepts decoded_audiences c.aud) c unlisted

  -- Until a refresh token expires, `decode_token` reads back from it the claims that it was issued
  -- with: the account's number, the times, the issuer, the audience of refresh tokens and the key that
  -- was drawn for it. From then on it answers `None`. PyJWT decodes what it encoded by its rules, and
  -- its clock has not gone back.
  pub decode_token-refresh :
      (now later id ttl : ℕ) (jti : String)
      → DecodesAt codec later (refresh_claims codec show m now jti id ttl)
      → now ≤ later
      → decode_token codec show m (create_refresh_token codec show m now jti id ttl).0
        ≡ ok (
            if leb (now + ttl) later
            then none
            else some (record {
              sub = some (show id);
              username = none;
              scope = none;
              iat = some now;
              exp = some (now + ttl);
              iss = some m.issuer;
              aud = one "game_clients_refresh";
              jti = some jti;
            }))
  unfolding decode_token create_refresh_token
  decode_token-refresh now later id ttl jti law since =
      ap none_if_jwt (law.decodes m.secret decoded_audiences now (now + ttl) refl refl since)
      ∙ in_time (leb (now + ttl) later) (refresh_claims codec show m now jti id ttl)
