-- ===== src/Tests/Tokens.antt =====
-- Codecs that meet their laws, and tokens of both kinds.
use mmo_backend_server.Prelude.{
  String, ◌≡◌, refl, false, true, Option, none, some, List, [], ◌==◌, eq_iff, any, if◌then◌else◌,
  Result, ok, raised, ok-injective, Bool, ap, sym, ◌∙◌, jwt_bad_audience, jwt_invalid, jwt_expired,
  leb, ℕ, arith,
}
use mmo_backend_server.Jwt.{
  Audience, one, many, absent, refresh_audience, Claims, Codec, JwtManager, decode_token,
  create_access_token, create_refresh_token, access_claims, refresh_claims,
}
use mmo_backend_server.Jwt.Separation.{
  CodecLaw, DecodesAt, accepts, decode_token-access, decode_token-refresh,
}
use mmo_backend_server.Rpc.Validation.{validate_token}
use mmo_backend_server.Rpc.TokenKinds.{validate_token-refresh}

-- Refresh tokens are written as their key, every other token as "access", which does not decode.
abbrev written : Audience → Option String → String
written (one aud) (some jti) = if aud == refresh_audience then jti else "access"
written _ _ = "access"

abbrev claims_of : String → Claims
claims_of jti = record {
  sub = some "1";
  username = none;
  scope = none;
  iat = some 0;
  exp = some 9;
  iss = some "auth";
  aud = one refresh_audience;
  jti = some jti;
}

abbrev read : String → List String → Result Claims
read t accepted =
    if t == "access"
    then raised jwt_invalid
    else if any (λ b. b == refresh_audience) accepted
    then ok (claims_of t)
    else raised jwt_bad_audience

abbrev codec : Codec
codec = record {
  encode = λ c secret. written c.aud c.jti;
  decode = λ t secret accepted iss required. read t accepted;
}

chosen :
    (t : String) (b d : Bool) (c : Claims)
    → (if b then raised jwt_invalid else if d then ok (claims_of t) else raised jwt_bad_audience)
      ≡ ok c
    → (c.jti ≡ some t) × (d ≡ true)
chosen t true d c e = cc
chosen t false true c e = (ap (λ x. x.jti) (sym (ok-injective e)), refl)
chosen t false false c e = cc

refresh-or-access :
    (b : Bool) (jti : String) (accepted : List String) (c : Claims)
    → read (if b then jti else "access") accepted ≡ ok c
    → (b ≡ true) × (c.jti ≡ some jti) × (any (λ x. x == refresh_audience) accepted ≡ true)
refresh-or-access true jti accepted c e =
    let (key, listed) =
      chosen jti (jti == "access") (any (λ x. x == refresh_audience) accepted) c e in
    (refl, key, listed)
refresh-or-access false jti accepted c e = cc

read-written :
    (aud : Audience) (jti : Option String) (accepted : List String) (c : Claims)
    → read (written aud jti) accepted ≡ ok c
    → (c.jti ≡ jti) × (accepts accepted aud ≡ true)
read-written absent jti accepted c e = cc
read-written (many auds) jti accepted c e = cc
read-written (one aud) none accepted c e = cc
read-written (one aud) (some jti) accepted c e =
    let (same, key, listed) = refresh-or-access (aud == refresh_audience) jti accepted c e in
    let aud_is : aud ≡ refresh_audience = (eq_iff aud refresh_audience).0 same in
    (key, ap (λ a. any (λ b. b == a) accepted) aud_is ∙ listed)

codec_law : CodecLaw codec
codec_law = record {
  own_claims = λ c c' secret accepted iss required e. read-written c.aud c.jti accepted c' e;
}

abbrev manager : JwtManager
manager = record { secret = "s"; issuer = "auth"; audience = "game-clients" }

-- A codec for tokens with the claims `c`, at the time `clock`.
abbrev timed : ℕ → Claims → Codec
timed clock c = record {
  encode = λ claims secret. "token";
  decode = λ t secret accepted iss required. elim c.exp [
    | none ↦ raised jwt_invalid
    | some exp ↦
        if leb exp clock
        then raised jwt_expired
        else if accepts accepted c.aud
        then ok c
        else raised jwt_bad_audience
  ];
}

timed-DecodesAt : (clock : ℕ) (c : Claims) → DecodesAt (timed clock c) clock c
timed-DecodesAt clock c = record {
  decodes = λ secret accepted iat exp issued expires since. ground (arith, expires);
}

abbrev access_of_ann : Claims
access_of_ann = access_claims codec (λ n. "1") manager 0 1 "ann" 60

decode_token-access_example :
    decode_token
      (timed 30 access_of_ann)
      (λ n. "1")
      manager
      (create_access_token (timed 30 access_of_ann) (λ n. "1") manager 0 1 "ann" 60)
    ≡ ok none
decode_token-access_example =
    decode_token-access (timed 30 access_of_ann) (λ n. "1") manager 0 30 1 60 "ann"
      (timed-DecodesAt 30 access_of_ann) (omega arith) (λ e. cc) (λ e. cc)

abbrev refresh_of_ann : Claims
refresh_of_ann = refresh_claims codec (λ n. "1") manager 0 "t1" 1 60

decode_token-refresh_example :
    decode_token
      (timed 30 refresh_of_ann)
      (λ n. "1")
      manager
      (create_refresh_token (timed 30 refresh_of_ann) (λ n. "1") manager 0 "t1" 1 60).0
    ≡ ok (some refresh_of_ann)
decode_token-refresh_example =
    decode_token-refresh (timed 30 refresh_of_ann) (λ n. "1") manager 0 30 1 60 "t1"
      (timed-DecodesAt 30 refresh_of_ann) (omega arith)

validate_token-refresh_example :
    (validate_token codec manager.secret "game-clients"
      (λ t. some 1)
      (λ t. [])
      (record {
        access_token = (create_refresh_token codec (λ n. "1") manager 0 "t1" 1 60).0;
        expected_aud = none;
        expected_iss = none;
      })).is_valid
    ≡ false
validate_token-refresh_example =
    validate_token-refresh codec codec_law (λ n. "1") manager "game-clients" (λ t. some 1) (λ t. [])
      0 1 60 "t1" none refl
