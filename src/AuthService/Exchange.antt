-- ===== src/AuthService/Exchange.antt =====
-- The steps of an exchange of a refresh token, and the key that it leaves dead.
use mmo_backend_server.Prelude.{
  ℕ, ◌+◌, String, ◌≡◌, subst, sym, ap, ◌∙◌, true, false, none, some, List, [], ◌∷◌, ◌++◌, map, ◌==◌,
  arith, any, Exec, ok, pure, ◌>>=◌, ◌>>◌, bind-of-ok, bind-eq-ok,
}
use mmo_backend_server.Jwt
use mmo_backend_server.Jwt.{Claims, decode_token}
use mmo_backend_server.Repository.{RefreshToken, Account, revoke_token, create_refresh_token}
use mmo_backend_server.Repository.Contract.{Contract, revoke_row}
use mmo_backend_server.AuthService.{World, Service, TokenData, Reply, on_db, issue_token_pair}
use mmo_backend_server.AuthService.Refresh.{exchange}
use mmo_backend_server.AuthService.Spent.{Spent, Spent-append}
use mmo_backend_server.AuthService.DeadKeys.{any-revoke_row, any-jti-revoke_row}

module _ {Db Rd Raw : Type 0} (sv : Service Db Rd Raw) (law : Contract sv.orm) where
  -- The row that a new pair adds.
  abbrev pub new_token : ℕ → String → Account → RefreshToken
  new_token now fresh_jti account =
      let (text, jti) =
        Jwt.create_refresh_token sv.codec sv.show sv.jwt_manager now fresh_jti account.id
          sv.refresh_token_expires in
      record {
        account_id = account.id;
        jti = jti;
        token_hash = sv.password_manager.hash_refresh_token text;
        user_agent = none;
        ip = none;
        expires_at = now + sv.refresh_token_expires;
        revoked_at = none;
      }

  -- A pair that was issued has added its row, and nothing else was written.
  issue_token_pair-adds :
      (now : ℕ) (fresh_jti : String) (account : Account) (w : World Db Rd) (d : TokenData)
      → (issue_token_pair sv now fresh_jti account w).0 ≡ ok d
      → ((sv.orm.add_token (new_token now fresh_jti account) w.db).0 ≡ ok tt)
        × ((issue_token_pair sv now fresh_jti account w).1.db
            ≡ (sv.orm.add_token (new_token now fresh_jti account) w.db).1)
  unfolding issue_token_pair create_refresh_token
  issue_token_pair-adds now fresh_jti account w d e = (ground arith, ground arith)

  -- The database after each step of an exchange.
  abbrev pub revoked_db : ℕ → RefreshToken → World Db Rd → Db
  revoked_db now t w = (sv.orm.set_revoked_at t now w.db).1

  abbrev loaded_db : ℕ → RefreshToken → World Db Rd → Db
  loaded_db now t w = (sv.orm.account_of t (revoked_db now t w)).1

  abbrev added_db : ℕ → String → RefreshToken → Account → World Db Rd → Db
  added_db now fresh_jti t account w =
      (sv.orm.add_token (new_token now fresh_jti account) (loaded_db now t w)).1

  -- The steps of an exchange that returned.
  record Exchanged (now : ℕ) (fresh_jti : String) (t : RefreshToken) (w : World Db Rd)
      : Type 0 where
    account : Account
    revoked : (sv.orm.set_revoked_at t now w.db).0 ≡ ok tt
    added : (sv.orm.add_token (new_token now fresh_jti account) (loaded_db now t w)).0 ≡ ok tt
    committed : (sv.orm.commit (added_db now fresh_jti t account w)).0 ≡ ok tt
    final :
        (exchange sv now fresh_jti t w).1.db
        ≡ (sv.orm.commit (added_db now fresh_jti t account w)).1

  exchange-steps :
      (now : ℕ) (fresh_jti : String) (t : RefreshToken) (w : World Db Rd) (r : Reply TokenData)
      → (exchange sv now fresh_jti t w).0 ≡ ok r
      → Exchanged now fresh_jti t w
  unfolding exchange revoke_token
  exchange-steps now fresh_jti t w r e =
      let w1 : World Db Rd = record w { db = revoked_db now t w } in
      let w2 : World Db Rd = record w { db = loaded_db now t w } in
      let k4 : Account → TokenData → Exec (World Db Rd) (Reply TokenData) =
        λ _ pair. on_db sv.orm.commit >> pure (some pair, none) in
      let k3 : Account → Exec (World Db Rd) (Reply TokenData) =
        λ account. issue_token_pair sv now fresh_jti account >>= k4 account in
      let k2 : Unit {0} → Exec (World Db Rd) (Reply TokenData) =
        λ _. on_db (sv.orm.account_of t) >>= k3 in
      let (u, e1, r1) = bind-eq-ok (on_db (sv.orm.set_revoked_at t now)) k2 w e in
      let (account, e2, r2) = bind-eq-ok (on_db (sv.orm.account_of t)) k3 w1 r1 in
      let (pair, e3, r3) =
        bind-eq-ok (issue_token_pair sv now fresh_jti account) (k4 account) w2 r2 in
      let (pair_ok, pair_db) = issue_token_pair-adds now fresh_jti account w2 pair e3 in
      let w3 : World Db Rd = (issue_token_pair sv now fresh_jti account w2).1 in
      let k5 : Unit {0} → Exec (World Db Rd) (Reply TokenData) = λ _. pure (some pair, none) in
      let (v, e4, _) = bind-eq-ok (on_db sv.orm.commit) k5 w3 r3 in
      record {
        account = account;
        revoked = e1;
        added = pair_ok;
        committed = rw (← pair_db) e4;
        final =
            ap (λ out. out.1.db)
              (bind-of-ok (on_db (sv.orm.set_revoked_at t now)) k2 w e1
                ∙ bind-of-ok (on_db (sv.orm.account_of t)) k3 w1 e2
                ∙ bind-of-ok (issue_token_pair sv now fresh_jti account) (k4 account) w2 e3
                ∙ bind-of-ok (on_db sv.orm.commit) k5 w3 e4)
            ∙ ap (λ db. (sv.orm.commit db).1) pair_db;
      }

  -- An exchange that succeeded leaves the key that it used used up.
  pub exchange-Spent :
      (now later : ℕ) (fresh_jti : String) (t : RefreshToken) (w : World Db Rd)
      (r : Reply TokenData)
      → any (λ row. row.jti == t.jti) (law.seen w.db).tokens ≡ true
      → (exchange sv now fresh_jti t w).0 ≡ ok r
      → Spent t.jti later (law.stored (exchange sv now fresh_jti t w).1.db).tokens
  exchange-Spent now later fresh_jti t w r known e =
      let s = exchange-steps now fresh_jti t w r e in
      let rows : List RefreshToken = map (revoke_row t.jti now) (law.seen w.db).tokens in
      let new : RefreshToken = new_token now fresh_jti s.account in
      let before : (law.seen (loaded_db now t w)).tokens ≡ rows =
        ap (λ x. x.tokens) (law.account_of_seen t (revoked_db now t w))
        ∙ law.set_revoked_at_seen t now w.db s.revoked in
      let stored : (law.stored (exchange sv now fresh_jti t w).1.db).tokens ≡ rows ++ new ∷ [] =
        ap (λ db. (law.stored db).tokens) s.final
        ∙ ap (λ x. x.tokens) (law.commit_ok _ s.committed)
        ∙ law.add_token_seen new (loaded_db now t w) s.added
        ∙ ap (λ l. l ++ new ∷ []) before in
      let fresh : any (λ row. row.jti == new.jti) rows ≡ false =
        ap (any (λ row. row.jti == new.jti)) (sym before)
        ∙ law.add_token_fresh new (loaded_db now t w) s.added in
      subst (Spent t.jti later) (sym stored) (
        Spent-append t.jti later new rows fresh (
          any-jti-revoke_row t.jti t.jti now (law.seen w.db).tokens ∙ known,
          any-revoke_row t.jti now later (law.seen w.db).tokens,
        ))
