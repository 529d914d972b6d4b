-- ===== src/AuthService/Counting.antt =====
-- The bookkeeping of failed attempts in Redis, and the login that uses it.
use mmo_backend_server.Prelude.{
  ℕ, ◌+◌, String, ◌≡◌, refl, sym, ap, ◌∙◌, inl, inr, Bool, true, false, Option, none, some, [], ◌∷◌,
  ◌==◌, eq_iff, arith, nat_eq, leb, if◌then◌else◌, Bool-cases, Exec, ok, lift, pure, ◌>>=◌, ◌>>◌,
  bind-of-ok, bind-eq-ok, try_finally, try_finally-eq-ok, try_finally-state,
}
use mmo_backend_server.Errors.{auth_invalid_credentials}
use mmo_backend_server.Names.{key_auth_ban, key_auth_failed_attempts}
use mmo_backend_server.Names.Distinct.{key_auth_ban-ne-key_auth_failed_attempts}
use mmo_backend_server.RedisClient
use mmo_backend_server.RedisClient.Contract.{Contract}
use mmo_backend_server.Repository.{Account, get_by_username, set_last_login}
use mmo_backend_server.AuthService.{
  World, Service, TokenData, Reply, refuse, on_db, on_redis, issue_token_pair,
}
use mmo_backend_server.AuthService.Login.{
  note_failure, ban_if_reached, check_password, finish_login, login,
}

keys_differ :
    (username : String) → key_auth_failed_attempts username == key_auth_ban username ≡ false
keys_differ username =
    elim (Bool-cases (key_auth_failed_attempts username == key_auth_ban username)) [
      | inl same ↦ absurd (
          key_auth_ban-ne-key_auth_failed_attempts username username
            (sym ((eq_iff (key_auth_failed_attempts username) (key_auth_ban username)).0 same)))
      | inr other ↦ other
    ]

pub if_true : {A : Type 0} {b : Bool} (x y : A) → b ≡ true → (if b then x else y) ≡ x
if_true x y h = rw h refl

pub if_false : {A : Type 0} {b : Bool} (x y : A) → b ≡ false → (if b then x else y) ≡ y
if_false x y h = rw h refl

-- A block that goes on to return ends in the state of its first call, even if that raised.
and_return-state : {S A : Type 0} (m : Exec S A) (s : S) → ((m >> pure tt) s).1 ≡ (m s).1
and_return-state m s = ground arith

module _ {Db Rd Raw : Type 0} (sv : Service Db Rd Raw) (law : Contract sv.redis)
    (connected : sv.client.redis ≡ true) where
  abbrev pub attempts : String → World Db Rd → ℕ
  attempts username w = law.count w.redis (key_auth_failed_attempts username)

  abbrev pub banned : String → World Db Rd → Bool
  banned username w = law.has w.redis (key_auth_ban username)

  -- What one more failure does: a ban once the count reaches the limit, and one more counted before.
  abbrev pub Counted : String → Rd → Rd → Type 0
  Counted username before after =
      let n = law.count before (key_auth_failed_attempts username) + 1 in
      if leb sv.bruteforce_max_attempts n
      then law.has after (key_auth_ban username) ≡ true
      else law.count after (key_auth_failed_attempts username) ≡ n

  abbrev pub set_ban : String → Exec Rd (Unit {0})
  set_ban username =
      RedisClient.set sv.redis sv.client (key_auth_ban username) "1"
        (some sv.bruteforce_lock_ttl_sec)

  abbrev pub drop_attempts : String → Exec Rd ℕ
  drop_attempts username =
      RedisClient.delete sv.redis sv.client (key_auth_failed_attempts username ∷ [])

  abbrev banned_world : String → World Db Rd → World Db Rd
  banned_world username w = record w { redis = (set_ban username w.redis).1 }

  -- The bookkeeping bans the name once the count reaches the limit, and does nothing before.
  ban_if_reached-has :
      (username : String) (n : ℕ) (w : World Db Rd)
      → leb sv.bruteforce_max_attempts n ≡ true
      → banned username (ban_if_reached sv username n w).1 ≡ true
  unfolding ban_if_reached
  ban_if_reached-has username n w h =
      let bk = key_auth_ban username in
      let fk = key_auth_failed_attempts username in
      let ttl = some sv.bruteforce_lock_ttl_sec in
      let drop : Exec (World Db Rd) ℕ = on_redis (drop_attempts username) in
      let v = banned_world username w in
      ap (λ (m : Exec (World Db Rd) (Unit {0})). banned username (m w).1) (if_true _ _ h)
      ∙ ap (λ out. banned username out.1)
          (bind-of-ok (on_redis (set_ban username)) (λ _. drop >> pure tt) w
            (ap (λ (m : Exec Rd (Unit {0})). (m w.redis).0) (if_true _ _ connected)
              ∙ law.set_up bk "1" ttl w.redis))
      ∙ ap (banned username) (and_return-state drop v)
      ∙ ap (λ (m : Exec Rd ℕ). law.has (m v.redis).1 bk) (if_true _ _ connected)
      ∙ law.delete_has fk bk v.redis (keys_differ username)
      ∙ ap (λ (m : Exec Rd (Unit {0})). law.has (m w.redis).1 bk) (if_true _ _ connected)
      ∙ law.set_has bk "1" ttl w.redis

  ban_if_reached-below :
      (username : String) (n : ℕ) (w : World Db Rd)
      → leb sv.bruteforce_max_attempts n ≡ false
      → ban_if_reached sv username n w ≡ (ok tt, w)
  unfolding ban_if_reached
  ban_if_reached-below username n w h = rw h refl

  abbrev counted : String → World Db Rd → World Db Rd
  counted username w = record w {
    redis = (sv.redis.incr (key_auth_failed_attempts username) w.redis).1;
  }

  abbrev window : String → ℕ → Exec (World Db Rd) (Unit {0})
  window username n =
      if nat_eq n 1
      then on_redis
          (sv.redis.expire (key_auth_failed_attempts username) sv.bruteforce_window_ttl_sec)
      else pure tt

  -- Setting the window returns and leaves the count alone.
  window_lem :
      (username : String) (n : ℕ) (w : World Db Rd)
      → ((window username n w).0 ≡ ok tt)
        × (attempts username (window username n w).1 ≡ attempts username w)
  window_lem username n w =
      let key = key_auth_failed_attempts username in
      ground (
        arith,
        law.expire_up key sv.bruteforce_window_ttl_sec w.redis,
        law.expire_count key key sv.bruteforce_window_ttl_sec w.redis,
      )

  -- A failure is counted, and then the limit is tested.
  note_failure-steps :
      (username : String) (w : World Db Rd)
      → note_failure sv username w
        ≡ ban_if_reached sv username
            (attempts username w + 1)
            (window username (attempts username w + 1) (counted username w)).1
  unfolding note_failure
  note_failure-steps username w =
      let n = attempts username w + 1 in
      ap (λ (m : Exec (World Db Rd) (Unit {0})). m w) (if_true _ _ connected)
      ∙ (bind-of-ok (on_redis (sv.redis.incr (key_auth_failed_attempts username)))
            (λ k. window username k >> ban_if_reached sv username k) w
            (law.incr_up (key_auth_failed_attempts username) w.redis)
          ∙ bind-of-ok (window username n) (λ _. ban_if_reached sv username n) (counted username w)
              (window_lem username n (counted username w)).0)

  pub note_failure_lem :
      (username : String) (w : World Db Rd)
      → Counted username w.redis (note_failure sv username w).1.redis
  note_failure_lem username w =
      let n = attempts username w + 1 in
      let v = (window username n (counted username w)).1 in
      elim (Bool-cases (leb sv.bruteforce_max_attempts n)) [
        | inl reached ↦ rw reached (
            ap (λ out. banned username out.1) (note_failure-steps username w)
            ∙ ban_if_reached-has username n v reached)
        | inr below ↦ rw below (
            ap (λ out. attempts username out.1)
              (note_failure-steps username w ∙ ban_if_reached-below username n v below)
            ∙ (window_lem username n (counted username w)).1
            ∙ law.incr_count (key_auth_failed_attempts username) w.redis)
      ]

  -- A login that refused its password went through the bookkeeping, on the Redis server it was given.
  finish_login-invalid :
      (now : ℕ) (fresh_jti username : String) (checked : Option Account) (w : World Db Rd)
      → (finish_login sv now fresh_jti username checked w).0 ≡ ok (refuse auth_invalid_credentials)
      → (finish_login sv now fresh_jti username checked w).1 ≡ (note_failure sv username w).1
  unfolding finish_login
  finish_login-invalid now fresh_jti username none w e =
      let reply : Unit {0} → Exec (World Db Rd) (Reply TokenData) =
        λ _. pure (refuse auth_invalid_credentials) in
      let (u, noted, _) = bind-eq-ok (note_failure sv username) reply w e in
      ap (λ out. out.1) (bind-of-ok (note_failure sv username) reply w noted)
  finish_login-invalid now fresh_jti username (some account) w e =
      let k4 : TokenData → Exec (World Db Rd) (Reply TokenData) =
        λ d. on_db sv.orm.commit >> pure (some d, none) in
      let k3 : TokenData → Exec (World Db Rd) (Reply TokenData) =
        λ d. on_db (set_last_login sv.orm account.id now) >> k4 d in
      let k2 : ℕ → Exec (World Db Rd) (Reply TokenData) =
        λ _. issue_token_pair sv now fresh_jti account >>= k3 in
      let k5 : TokenData → Unit {0} → Exec (World Db Rd) (Reply TokenData) =
        λ d _. pure (some d, none) in
      let (_, _, r1) = bind-eq-ok (on_redis (drop_attempts username)) k2 w e in
      let (d, _, r2) = bind-eq-ok (issue_token_pair sv now fresh_jti account) k3 _ r1 in
      let (_, _, r3) = bind-eq-ok (on_db (set_last_login sv.orm account.id now)) (λ _. k4 d) _ r2 in
      let (_, _, r4) = bind-eq-ok (on_db sv.orm.commit) (k5 d) _ r3 in cc

  pub login-invalid :
      (now : ℕ) (fresh_jti username password : String) (w : World Db Rd)
      → (login sv now fresh_jti username password w).0 ≡ ok (refuse auth_invalid_credentials)
      → (v : World Db Rd) × (v.redis ≡ w.redis)
        × ((login sv now fresh_jti username password w).1.redis
            ≡ (note_failure sv username v).1.redis)
  unfolding login
  login-invalid now fresh_jti username password w e =
      let finish : Option Account → Exec (World Db Rd) (Reply TokenData) =
        finish_login sv now fresh_jti username in
      let check : Option Account → Exec (World Db Rd) (Reply TokenData) =
        λ account. lift (check_password sv password account) >>= finish in
      let find : Exec (World Db Rd) (Option Account) = on_db (get_by_username sv.orm username) in
      let block : Exec (World Db Rd) (Reply TokenData) = find >>= check in
      let rest : Exec (World Db Rd) (Reply TokenData) = try_finally block (on_db sv.orm.close) in
      let w1 : World Db Rd = record w { db = (sv.orm.begin w.db).1 } in
      let v : World Db Rd = record w { db = (get_by_username sv.orm username w1.db).1 } in
      let (u, began, ended) = bind-eq-ok (on_db {Rd = Rd} sv.orm.begin) (λ _. rest) w e in
      let returned = (try_finally-eq-ok block (on_db sv.orm.close) w1 ended).0 in
      let (account, found, r1) = bind-eq-ok find check w1 returned in
      let (checked, fits, r2) =
        bind-eq-ok (lift (check_password sv password account)) finish v r1 in
      (
        v,
        refl,
        ap (λ out. out.1.redis) (bind-of-ok (on_db {Rd = Rd} sv.orm.begin) (λ _. rest) w began)
            ∙ ap (λ x. x.redis) (try_finally-state block (on_db sv.orm.close) w1)
            ∙ ap (λ out. out.1.redis)
                (bind-of-ok find check w1 found
                  ∙ bind-of-ok (lift (check_password sv password account)) finish v fits)
            ∙ ap (λ x. x.redis) (finish_login-invalid now fresh_jti username checked v r2),
      )
