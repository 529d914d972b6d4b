-- ===== src/AuthService/Password.antt =====
-- `issue_token` gives tokens for a right password only.
use mmo_backend_server.Prelude.{
  ℕ, ◌+◌, String, ◌≡◌, refl, sym, ap, subst, ◌∙◌, Bool, true, false, Option, none, some, List, [],
  ◌∷◌, eq_iff, arith, nat_eq, any, if◌then◌else◌, Exec, Result, ok, raised, lift, pure, ◌>>=◌, ◌>>◌,
  bind-eq-ok,
}
use mmo_backend_server.Errors.{auth_invalid_credentials, auth_forbidden}
use mmo_backend_server.Jwt.{one, create_access_token}
use mmo_backend_server.Names.{key_auth_ban, key_auth_failed_attempts}
use mmo_backend_server.RedisClient
use mmo_backend_server.Repository.{
  Account, Credentials, get_by_username, has_username, set_last_login, create_refresh_token,
}
use mmo_backend_server.Repository.Contract.{Contract, Found}
use mmo_backend_server.AuthService.{
  World, Service, TokenData, IssueTokenRequest, Reply, refuse, truthy, on_db, on_redis,
  issue_token_pair,
}
use mmo_backend_server.AuthService.Sessions.{in_session-eq-ok}
use mmo_backend_server.AuthService.Login.{
  fail_once, note_failure, check_password, verified, finish_login, login, issue_checked,
  issue_token,
}

some-pair-injective :
    (x y : TokenData)
    → ◌≡◌ {A = Result (Reply TokenData)} (ok (some x, none)) (ok (some y, none))
    → x ≡ y
some-pair-injective x y e = cc

truthy-some : (o : Option String) (s : String) → truthy o ≡ some s → o ≡ some s
truthy-some none s e = e
truthy-some (some t) s e = ground arith

module _ {Db Rd Raw : Type 0} (sv : Service Db Rd Raw) where
  -- The password fits the credentials of this account.
  pub record Fits (password : String) (account : Account) : Type 0 where
    pub credentials : Credentials
    pub has : account.credentials ≡ some credentials
    pub fits : sv.password_manager.verify_password password credentials.password_hash ≡ ok true

  verdict-some :
      (account a : Account) (r : Result Bool)
      → (elim r [ ok fits ↦ ok (if fits then some account else none) | raised e ↦ raised e ])
        ≡ ok (some a)
      → (r ≡ ok true) × (a ≡ account)
  verdict-some account a (ok true) e = (refl, cc)
  verdict-some account a (ok false) e = cc
  verdict-some account a (raised x) e = cc

  verified-some :
      (password : String) (account a : Account) (o : Option Credentials)
      → account.credentials ≡ o
      → verified sv password account o ≡ ok (some a)
      → Fits password account × (a ≡ account)
  verified-some password account a none has e = cc
  verified-some password account a (some c) has e =
      let (fits, same) =
        verdict-some account a (sv.password_manager.verify_password password c.password_hash) e in
      (record { credentials = c; has = has; fits = fits }, same)

  check_password-some :
      (password : String) (o : Option Account) (a : Account)
      → check_password sv password o ≡ ok (some a)
      → (o ≡ some a) × Fits password a
  check_password-some password none a e = cc
  check_password-some password (some account) a e =
      let (fits, same) = verified-some password account a account.credentials refl e in
      (ap some (sym same), subst (Fits password) (sym same) fits)

  -- The answer that holds the account's own tokens: their claims name the account, its time and the
  -- audience of each kind, under the service's secret.
  pub record IssuedTo (now : ℕ) (fresh_jti : String) (account : Account) (d : TokenData)
      : Type 0 where
    pub access :
        d.token
        ≡ sv.codec.encode
            (record {
              sub = some (sv.show account.id);
              username = some account.username;
              scope = none;
              iat = some now;
              exp = some (now + sv.access_token_expires);
              iss = some sv.jwt_manager.issuer;
              aud = one sv.jwt_manager.audience;
              jti = none;
            })
            sv.jwt_manager.secret
    pub refresh :
        d.refresh_token
        ≡ sv.codec.encode
            (record {
              sub = some (sv.show account.id);
              username = none;
              scope = none;
              iat = some now;
              exp = some (now + sv.refresh_token_expires);
              iss = some sv.jwt_manager.issuer;
              aud = one "game_clients_refresh";
              jti = some fresh_jti;
            })
            sv.jwt_manager.secret
    pub lasts : d.expires_in ≡ sv.access_token_expires
    pub named_id : d.account_id ≡ account.id

  issue_token_pair-IssuedTo :
      (now : ℕ) (fresh_jti : String) (account : Account) (w : World Db Rd) (d : TokenData)
      → (issue_token_pair sv now fresh_jti account w).0 ≡ ok d
      → IssuedTo now fresh_jti account d
  unfolding issue_token_pair create_access_token mmo_backend_server.Jwt.create_refresh_token
      create_refresh_token
  issue_token_pair-IssuedTo now fresh_jti account w d e = record {
    access = ground arith;
    refresh = ground arith;
    lasts = ground arith;
    named_id = ground arith;
  }

  finish_login-some :
      (now : ℕ) (fresh_jti username : String) (checked : Option Account) (w : World Db Rd)
      (d : TokenData)
      → (finish_login sv now fresh_jti username checked w).0 ≡ ok (some d, none)
      → (a : Account) × (checked ≡ some a) × IssuedTo now fresh_jti a d
  unfolding finish_login
  finish_login-some now fresh_jti username none w d e =
      let reply : Unit {0} → Exec (World Db Rd) (Reply TokenData) =
        λ _. pure (refuse auth_invalid_credentials) in
      let (u, _, r) = bind-eq-ok (note_failure sv username) reply w e in cc
  finish_login-some now fresh_jti username (some account) w d e =
      let k5 : TokenData → Unit {0} → Exec (World Db Rd) (Reply TokenData) =
        λ pair _. pure (some pair, none) in
      let k4 : TokenData → Exec (World Db Rd) (Reply TokenData) =
        λ pair. on_db sv.orm.commit >> pure (some pair, none) in
      let k3 : TokenData → Exec (World Db Rd) (Reply TokenData) =
        λ pair. on_db (set_last_login sv.orm account.id now) >> k4 pair in
      let k2 : ℕ → Exec (World Db Rd) (Reply TokenData) =
        λ _. issue_token_pair sv now fresh_jti account >>= k3 in
      let (_, _, r1) =
        bind-eq-ok
          (on_redis
            (RedisClient.delete sv.redis sv.client (key_auth_failed_attempts username ∷ [])))
          k2 w e in
      let (pair, issued, r2) = bind-eq-ok (issue_token_pair sv now fresh_jti account) k3 _ r1 in
      let (_, _, r3) =
        bind-eq-ok (on_db (set_last_login sv.orm account.id now)) (λ _. k4 pair) _ r2 in
      let (_, _, r4) = bind-eq-ok (on_db sv.orm.commit) (k5 pair) _ r3 in
      let same : pair ≡ d = some-pair-injective pair d r4 in
      (
        account,
        refl,
        subst (IssuedTo now fresh_jti account) same
            (issue_token_pair-IssuedTo now fresh_jti account _ pair issued),
      )

  -- What is known of the account that tokens were issued for.
  pub record Verified (now : ℕ) (fresh_jti username password : String) (accounts : List Account)
      (d : TokenData) : Type 0 where
    pub account : Account
    pub named : account.username ≡ username
    pub among : (q : Account → Bool) → q account ≡ true → any q accounts ≡ true
    pub password_fits : Fits password account
    pub issued_to : IssuedTo now fresh_jti account d

  module _ (law : Contract sv.orm) where
    login-Verified :
        (now : ℕ) (fresh_jti username password : String) (w : World Db Rd) (d : TokenData)
        → (login sv now fresh_jti username password w).0 ≡ ok (some d, none)
        → Verified now fresh_jti username password (law.stored w.db).accounts d
    unfolding login get_by_username
    login-Verified now fresh_jti username password w d e =
        let finish : Option Account → Exec (World Db Rd) (Reply TokenData) =
          finish_login sv now fresh_jti username in
        let check : Option Account → Exec (World Db Rd) (Reply TokenData) =
          λ o. lift (check_password sv password o) >>= finish in
        let find : Exec (World Db Rd) (Option Account) = on_db (get_by_username sv.orm username) in
        let w1 : World Db Rd = record w { db = (sv.orm.begin w.db).1 } in
        let v : World Db Rd = record w { db = (get_by_username sv.orm username w1.db).1 } in
        let (began, returned, _) = in_session-eq-ok sv.orm law (find >>= check) w e in
        let (o, found, r1) = bind-eq-ok find check w1 returned in
        let (checked, fits, r2) = bind-eq-ok (lift (check_password sv password o)) finish v r1 in
        let (a, is_checked, issued) = finish_login-some now fresh_jti username checked v d r2 in
        let (is_found, password_fits) =
          check_password-some password o a (fits ∙ ap ok is_checked) in
        let (named, among) =
          subst (Found (has_username username) (law.seen w1.db).accounts) (found ∙ ap ok is_found)
            (law.select_account_found (has_username username) w1.db) in
        record {
          account = a;
          named = (eq_iff a.username username).0 named;
          among = λ q passes.
              ap (λ t. any q t.accounts) (sym (law.begin_seen w.db began)) ∙ among q passes;
          password_fits = password_fits;
          issued_to = issued;
        }

    decided :
        (free : Bool) (now : ℕ) (fresh_jti username password : String) (w : World Db Rd)
        (d : TokenData)
        → ((if free then login sv now fresh_jti username password else pure (refuse auth_forbidden))
            w).0
          ≡ ok (some d, none)
        → Verified now fresh_jti username password (law.stored w.db).accounts d
    decided true now fresh_jti username password w d e =
        login-Verified now fresh_jti username password w d e
    decided false now fresh_jti username password w d e = cc

    test_hook-db :
        (is_test : Bool) (username : String) (w : World Db Rd)
        → ((if is_test then fail_once sv username else pure tt) w).1.db ≡ w.db
    unfolding fail_once
    test_hook-db is_test username w = ground arith

    issue_checked-Verified :
        (now : ℕ) (fresh_jti username password : String) (w : World Db Rd) (d : TokenData)
        → (issue_checked sv now fresh_jti (some username) (some password) w).0 ≡ ok (some d, none)
        → Verified now fresh_jti username password (law.stored w.db).accounts d
    unfolding issue_checked
    issue_checked-Verified now fresh_jti username password w d e =
        let hook : Exec (World Db Rd) (Unit {0}) =
          if sv.is_test then fail_once sv username else pure tt in
        let ask : Exec (World Db Rd) ℕ =
          on_redis (RedisClient.exists sv.redis sv.client (key_auth_ban username ∷ [])) in
        let decide : ℕ → Exec (World Db Rd) (Reply TokenData) = λ n.
          if nat_eq n 0
          then login sv now fresh_jti username password
          else pure (refuse auth_forbidden) in
        let (_, _, r1) = bind-eq-ok hook (λ _. ask >>= decide) w e in
        let (n, _, r2) = bind-eq-ok ask decide (hook w).1 r1 in
        subst (λ db. Verified now fresh_jti username password (law.stored db).accounts d)
          (test_hook-db sv.is_test username w)
          (decided (nat_eq n 0) now fresh_jti username password _ d r2)

    issue_checked-some :
        (now : ℕ) (fresh_jti : String) (o p : Option String) (w : World Db Rd) (d : TokenData)
        → (issue_checked sv now fresh_jti o p w).0 ≡ ok (some d, none)
        → (username : String) × (password : String) × (o ≡ some username)
          × (p ≡ some password)
          × Verified now fresh_jti username password (law.stored w.db).accounts d
    unfolding issue_checked
    issue_checked-some now fresh_jti none p w d e = cc
    issue_checked-some now fresh_jti (some username) none w d e = cc
    issue_checked-some now fresh_jti (some username) (some password) w d e = (
      username,
      password,
      refl,
      refl,
      issue_checked-Verified now fresh_jti username password w d e,
    )

    -- Tokens are issued for a right password only: if `issue_token` returns a pair, the request has a
    -- name and a password, an account with that name is stored when it is called, the password manager
    -- verified the password against that account's hash, and both tokens of the pair are that account's:
    -- their claims name its number, the access token's also its name, with the times that the settings
    -- give, the issuer and the audience of each kind, signed with the service's secret; the answer names
    -- the account and the access token's lifetime. The database meets its contract.
    pub issue_token-Verified :
        (now : ℕ) (fresh_jti : String) (dto : IssueTokenRequest) (w : World Db Rd) (d : TokenData)
        → (issue_token sv now fresh_jti dto w).0 ≡ ok (some d, none)
        → (username : String) × (password : String) × (dto.username ≡ some username)
          × (dto.password ≡ some password)
          × Verified now fresh_jti username password (law.stored w.db).accounts d
    unfolding issue_token
    issue_token-Verified now fresh_jti dto w d e =
        let (username, password, named, given, verified) =
          issue_checked-some now fresh_jti (truthy dto.username) (truthy dto.password) w d e in
        (
          username,
          password,
          truthy-some dto.username username named,
          truthy-some dto.password password given,
          verified,
        )
