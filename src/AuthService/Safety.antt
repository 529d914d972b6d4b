-- ===== src/AuthService/Safety.antt =====
-- The operations on the database, in a session and around it, keep a used-up key used up.
pub mod Refreshing
pub mod Registering
pub mod Logins
use mmo_backend_server.Prelude.{
  ℕ, ◌+◌, ◌≤◌, String, ◌≡◌, ◌≢◌, refl, sym, ap, subst, ◌∙◌, Bool, true, false, Option, none, some,
  List, [], ◌∷◌, ◌++◌, map, ◌==◌, any, nat_eq, leb, is_some, if◌then◌else◌, Exception,
  unique_violation, Exec, Result, ok, raised, lift, pure, raise, ◌>>=◌, ◌>>◌, try_except,
  try_finally, finish, Keeps, Keeps-bind, try_finally-state, Ends, Triple, both-Ends,
  both-Ends-state, Triple-bind, Triple-try, Triple-if,
}
use mmo_backend_server.Repository.{
  Orm, RefreshToken, Account, Credentials, NewAccount, RegisterRequest, is_live, revoke_token,
  get_refresh_token_by_jti, create_refresh_token, get_by_username, get_by_email, create_account,
  set_last_login,
}
use mmo_backend_server.Repository.Contract.{Contract, Tables, revoke_row}
use mmo_backend_server.AuthService.{
  World, Service, TokenData, Reply, refuse, IssueTokenRequest, on_db, on_redis, in_session,
  issue_token_pair,
}
use mmo_backend_server.AuthService.Refresh.{
  exchange, rotate, refresh_claimed, refresh_token, revoke_found, logout_claimed, logout,
  claimed_jti,
}
use mmo_backend_server.Jwt
use mmo_backend_server.Jwt.{create_access_token, decode_token}
use mmo_backend_server.Errors.{
  ErrorCode, auth_refresh_invalid, auth_user_exists, internal_error, auth_invalid_credentials,
  auth_forbidden,
}
use mmo_backend_server.AuthService.Exchange.{new_token}
use mmo_backend_server.AuthService.Spent.{Spent, Spent-append, Spent-revoke}

module _ {Db Rd Raw : Type 0} (sv : Service Db Rd Raw) (law : Contract sv.orm) (jti : String)
    (later : ℕ) where
  -- The stored rows, and inside a session also those that it sees, have the key used up.
  abbrev pub Out : World Db Rd → Type 0
  Out w = Spent jti later (law.stored w.db).tokens

  abbrev pub In : World Db Rd → Type 0
  In w = Spent jti later (law.seen w.db).tokens × Out w

  -- A call that keeps the key used up, inside a session.
  abbrev pub Safe : {A : Type 0} → Exec (World Db Rd) A → Type 0
  Safe m = Triple In In Out m

  pub result-Ends :
      {A : Type 0} (r : Result A) (w : World Db Rd)
      → ((a : A) → r ≡ ok a → In w)
      → ((e : Exception) → r ≡ raised e → Out w)
      → Ends In Out (r, w)
  result-Ends (ok a) w returned failed = returned a refl
  result-Ends (raised e) w returned failed = failed e refl

  pub on_db-Safe :
      {A : Type 0} (op : Exec Db A)
      → ((db : Db) → law.stored (op db).1 ≡ law.stored db)
      → ((db : Db) (a : A) → (op db).0 ≡ ok a → (law.seen (op db).1).tokens ≡ (law.seen db).tokens)
      → Safe (on_db op)
  on_db-Safe op stored seen w (inside, outside) =
      let kept : Out (on_db op w).1 =
        subst (λ t. Spent jti later t.tokens) (sym (stored w.db)) outside in
      result-Ends (op w.db).0 (on_db op w).1
        (λ a e. (subst (Spent jti later) (sym (seen w.db a e)) inside, kept)) (λ e h. kept)

  pub on_redis-Safe : {A : Type 0} (op : Exec Rd A) → Safe (on_redis op)
  on_redis-Safe op w h = result-Ends (op w.redis).0 (on_redis op w).1 (λ a e. h) (λ e x. h.1)

  pub lift-Safe : {A : Type 0} (r : Result A) → Safe (lift r)
  lift-Safe r w h = result-Ends r w (λ a e. h) (λ e x. h.1)

  add_token-Safe : (t : RefreshToken) → Safe (on_db (sv.orm.add_token t))
  add_token-Safe t w (inside, outside) =
      let kept : Out (on_db (sv.orm.add_token t) w).1 =
        subst (λ x. Spent jti later x.tokens) (sym (law.add_token_stored t w.db)) outside in
      result-Ends (sv.orm.add_token t w.db).0 (on_db (sv.orm.add_token t) w).1
        (λ a e. (
          subst (Spent jti later) (sym (law.add_token_seen t w.db e)) (
              Spent-append jti later t (law.seen w.db).tokens (law.add_token_fresh t w.db e)
                inside),
          kept,
        ))
        (λ e h. kept)

  pub set_revoked_at-Safe :
      (t : RefreshToken) (now : ℕ) → Safe (on_db (sv.orm.set_revoked_at t now))
  set_revoked_at-Safe t now w (inside, outside) =
      let kept : Out (on_db (sv.orm.set_revoked_at t now) w).1 =
        subst (λ x. Spent jti later x.tokens) (sym (law.set_revoked_at_stored t now w.db))
          outside in
      result-Ends (sv.orm.set_revoked_at t now w.db).0 (on_db (sv.orm.set_revoked_at t now) w).1
        (λ a e. (
          subst (Spent jti later) (sym (law.set_revoked_at_seen t now w.db e))
              (Spent-revoke jti t.jti now later (law.seen w.db).tokens inside),
          kept,
        ))
        (λ e h. kept)

  pub commit-Safe : Safe (on_db sv.orm.commit)
  commit-Safe w (inside, outside) =
      result-Ends (sv.orm.commit w.db).0 (on_db sv.orm.commit w).1
        (λ a e. (
          subst (Spent jti later) (sym (law.commit_seen w.db e)) inside,
          subst (λ x. Spent jti later x.tokens) (sym (law.commit_ok w.db e)) inside,
        ))
        (λ e h. subst (λ x. Spent jti later x.tokens) (sym (law.commit_raised w.db e h)) outside)

  pub Safe-bind :
      {A B : Type 0} (m : Exec (World Db Rd) A) (f : A → Exec (World Db Rd) B)
      → Safe m
      → ((a : A) → Safe (f a))
      → Safe (m >>= f)
  Safe-bind m f hm hf = Triple-bind In In In Out m f hm hf

  pub pure-Safe : {A : Type 0} (a : A) → Safe (pure a)
  pure-Safe a w h = h

  pub if-Safe :
      {A : Type 0} (b : Bool) (m k : Exec (World Db Rd) A)
      → Safe m
      → Safe k
      → Safe (if b then m else k)
  if-Safe b m k hm hk = Triple-if In In In Out b m k hm hk

  result-on_db-bind :
      {A B : Type 0} (f : A → Exec Db B)
      → ((a : A) → Safe (on_db (f a)))
      → (r : Result A) (w : World Db Rd) → Ends In Out (r, w)
      → Ends In Out (on_db (lift r >>= f) w)
  result-on_db-bind f hf (ok a) w h = hf a w h
  result-on_db-bind f hf (raised e) w h = h

  pub on_db-bind-Safe :
      {A B : Type 0} (m : Exec Db A) (f : A → Exec Db B)
      → Safe (on_db m)
      → ((a : A) → Safe (on_db (f a)))
      → Safe (on_db (m >>= f))
  on_db-bind-Safe m f hm hf w h = result-on_db-bind f hf (m w.db).0 (on_db m w).1 (hm w h)

  pub issue_token_pair-Safe :
      (now : ℕ) (fresh_jti : String) (account : Account)
      → Safe (issue_token_pair sv now fresh_jti account)
  unfolding issue_token_pair create_refresh_token
  issue_token_pair-Safe now fresh_jti account =
      let new : RefreshToken = new_token sv law now fresh_jti account in
      let created : Exec (World Db Rd) RefreshToken = on_db (sv.orm.add_token new >> pure new) in
      let (text, key) =
        Jwt.create_refresh_token sv.codec sv.show sv.jwt_manager now fresh_jti account.id
          sv.refresh_token_expires in
      let d : TokenData = record {
        token =
            create_access_token sv.codec sv.show sv.jwt_manager now account.id account.username
              sv.access_token_expires;
        refresh_token = text;
        expires_in = sv.access_token_expires;
        account_id = account.id;
      } in
      Safe-bind created (λ _. pure d)
        (on_db-bind-Safe (sv.orm.add_token new) (λ _. pure new) (add_token-Safe new)
          (λ _. pure-Safe new))
        (λ _. pure-Safe d)

  pub select_account-Safe : (p : Account → Bool) → Safe (on_db (sv.orm.select_account p))
  select_account-Safe p =
      on_db-Safe (sv.orm.select_account p) (law.select_account_stored p)
        (λ db a e. ap (λ t. t.tokens) (law.select_account_seen p db))

  pub select_token-Safe : (p : RefreshToken → Bool) → Safe (on_db (sv.orm.select_token p))
  select_token-Safe p =
      on_db-Safe (sv.orm.select_token p) (law.select_token_stored p)
        (λ db a e. ap (λ t. t.tokens) (law.select_token_seen p db))

  assign-Safe :
      (b : Bool) (id now : ℕ)
      → Safe (on_db (if b then sv.orm.set_last_login_at id now else pure tt))
  assign-Safe true id now =
      on_db-Safe (sv.orm.set_last_login_at id now) (law.set_last_login_at_stored id now)
        (λ db a e. law.set_last_login_at_seen id now db e)
  assign-Safe false id now = pure-Safe tt

  pub set_last_login-Safe : (id now : ℕ) → Safe (on_db (set_last_login sv.orm id now))
  unfolding set_last_login
  set_last_login-Safe id now =
      let assign : Option Credentials → Exec Db (Unit {0}) =
        λ c. if is_some c then sv.orm.set_last_login_at id now else pure tt in
      on_db-bind-Safe (sv.orm.select_credentials id) assign
        (on_db-Safe (sv.orm.select_credentials id) (law.select_credentials_stored id)
          (λ db a e. law.select_credentials_seen id db))
        (λ c. assign-Safe (is_some c) id now)

  Ends-Out : {A : Type 0} (out : Result A × World Db Rd) → Ends In Out out → Out out.1
  Ends-Out (ok a, w) h = h.1
  Ends-Out (raised e, w) h = h

  pub Safe-weaken : {A : Type 0} (m : Exec (World Db Rd) A) → Safe m → Triple In Out Out m
  Safe-weaken m safe w h = both-Ends Out (m w) (Ends-Out (m w) (safe w h))

  finally-Triple :
      {A : Type 0} (block : Exec (World Db Rd) A)
      → Triple In Out Out block
      → Triple In Out Out (try_finally block (on_db sv.orm.close))
  finally-Triple block safe w h =
      let whole = try_finally block (on_db sv.orm.close) w in
      both-Ends Out whole (
        subst Out (sym (try_finally-state block (on_db sv.orm.close) w)) (
          subst (λ t. Spent jti later t.tokens) (sym (law.close_stored (block w).1.db))
            (both-Ends-state Out (block w) (safe w h))))

  pub begin-Triple : Triple Out In Out (on_db sv.orm.begin)
  begin-Triple w h =
      let kept : Out (on_db sv.orm.begin w).1 =
        subst (λ t. Spent jti later t.tokens) (sym (law.begin_stored w.db)) h in
      result-Ends (sv.orm.begin w.db).0 (on_db sv.orm.begin w).1
        (λ a e. (subst (λ t. Spent jti later t.tokens) (sym (law.begin_seen w.db e)) h, kept))
        (λ e x. kept)

  pub Keeps-Triple : {A : Type 0} (m : Exec (World Db Rd) A) → Keeps Out m → Triple Out Out Out m
  Keeps-Triple m keeps w h = both-Ends Out (m w) (keeps w h)

  pub in_session-Keeps :
      {A : Type 0} (block : Exec (World Db Rd) A)
      → Triple In Out Out block
      → Keeps Out (in_session sv.orm block)
  in_session-Keeps block safe w h =
      let whole = in_session sv.orm block w in
      both-Ends-state Out whole (
        Triple-bind Out In Out Out (on_db sv.orm.begin)
          (λ _. try_finally block (on_db sv.orm.close)) begin-Triple
          (λ _. finally-Triple block safe) w h)

  pub in_session-Safe :
      {A : Type 0} (block : Exec (World Db Rd) A) → Safe block → Keeps Out (in_session sv.orm block)
  in_session-Safe block safe = in_session-Keeps block (Safe-weaken block safe)
