-- ===== src/AuthService/LazyAccount.antt =====
-- `old_token.account` is a relationship that the query for the token does not load. An `AsyncSession`
-- refuses to load it when it is read.
use mmo_backend_server.Prelude.{
  ℕ, String, ◌≡◌, ◌≢◌, refl, ◌∙◌, Bool, true, false, Option, none, some, ◌==◌, if◌then◌else◌,
  Exception, Result, ok, raised, Exec, pure, lift, ◌>>=◌, ◌>>◌, Keeps-bind, bind-eq-ok,
}
use mmo_backend_server.Errors.{auth_refresh_invalid}
use mmo_backend_server.Jwt.{decode_token}
use mmo_backend_server.Repository.{
  Account, RefreshToken, Orm, is_live, get_refresh_token_by_jti, revoke_token,
}
use mmo_backend_server.Repository.Contract.{Contract}
use mmo_backend_server.AuthService.{
  World, Service, TokenData, Reply, refuse, on_db, issue_token_pair,
}
use mmo_backend_server.AuthService.Sessions.{in_session-eq-ok, in_session-stored}
use mmo_backend_server.AuthService.Refresh.{
  claimed_jti, exchange, rotate, refresh_claimed, refresh_token,
}

-- Reading the relationship raises, whatever the token and the session.
abbrev pub Refuses : {Db : Type 0} → Orm Db → Exception → Type 0
Refuses {Db} orm x = (t : RefreshToken) (db : Db) → (orm.account_of t db).0 ≡ raised x

module _ {Db Rd Raw : Type 0} (sv : Service Db Rd Raw) (law : Contract sv.orm) (x : Exception)
    (refuses : Refuses sv.orm x) where
  abbrev KeepsStored : {A : Type 0} → Exec (World Db Rd) A → Type 0
  KeepsStored m = (v : World Db Rd) → law.stored (m v).1.db ≡ law.stored v.db

  bind-KeepsStored :
      {A B : Type 0} (m : Exec (World Db Rd) A) (f : A → Exec (World Db Rd) B)
      → KeepsStored m
      → ((a : A) → KeepsStored (f a))
      → KeepsStored (m >>= f)
  bind-KeepsStored m f first next w =
      Keeps-bind (λ v. law.stored v.db ≡ law.stored w.db) m f (λ v e. first v ∙ e)
        (λ a v e. next a v ∙ e) w refl

  -- What follows the reading of the account is not reached.
  unread :
      {B : Type 0} (f : Account → Exec (World Db Rd) B) (out : Result Account × Db)
      (w : World Db Rd)
      → out.0 ≡ raised x
      → law.stored out.1 ≡ law.stored w.db
      → law.stored (((λ (v : World Db Rd). (out.0, record v { db = out.1 })) >>= f) w).1.db
        ≡ law.stored w.db
  unread f (ok a, db') w e kept = cc
  unread f (raised y, db') w e kept = kept

  account_of-KeepsStored :
      {B : Type 0} (t : RefreshToken) (f : Account → Exec (World Db Rd) B)
      → KeepsStored (on_db (sv.orm.account_of t) >>= f)
  account_of-KeepsStored t f w =
      unread f (sv.orm.account_of t w.db) w (refuses t w.db) (law.account_of_stored t w.db)

  -- The steps of the exchange after it.
  abbrev write : ℕ → String → Account → Exec (World Db Rd) (Reply TokenData)
  write now fresh_jti account = do
    response_data ← issue_token_pair sv now fresh_jti account
    on_db sv.orm.commit
    pure (some response_data, none)

  exchange-KeepsStored :
      (now : ℕ) (fresh_jti : String) (t : RefreshToken) → KeepsStored (exchange sv now fresh_jti t)
  unfolding exchange revoke_token
  exchange-KeepsStored now fresh_jti t =
      bind-KeepsStored (on_db (revoke_token sv.orm now t))
        (λ _. on_db (sv.orm.account_of t) >>= write now fresh_jti)
        (λ v. law.set_revoked_at_stored t now v.db)
        (λ _. account_of-KeepsStored t (write now fresh_jti))

  exchange-gives-none :
      (now : ℕ) (fresh_jti : String) (t : RefreshToken) (w : World Db Rd) (r : Reply TokenData)
      → (exchange sv now fresh_jti t w).0 ≢ ok r
  unfolding exchange
  exchange-gives-none now fresh_jti t w r e =
      let (_, _, r1) =
        bind-eq-ok (on_db (revoke_token sv.orm now t))
          (λ _. on_db (sv.orm.account_of t) >>= write now fresh_jti) w e in
      let w1 : World Db Rd = (on_db {Rd = Rd} (revoke_token sv.orm now t) w).1 in
      let (a, loaded, _) = bind-eq-ok (on_db (sv.orm.account_of t)) (write now fresh_jti) w1 r1 in
      cc (refuses t w1.db)

  -- Nothing is stored and no pair is given.
  abbrev Futile : Exec (World Db Rd) (Reply TokenData) → Type 0
  Futile m = KeepsStored m × ((w : World Db Rd) (d : TokenData) → (m w).0 ≢ ok (some d, none))

  refused-Futile : Futile (pure (refuse auth_refresh_invalid))
  refused-Futile = (λ v. refl, λ w d e. cc)

  if-Futile :
      (b : Bool) (m : Exec (World Db Rd) (Reply TokenData))
      → Futile m
      → Futile (if b then m else pure (refuse auth_refresh_invalid))
  if-Futile true m h = h
  if-Futile false m h = refused-Futile

  rotate-Futile :
      (now : ℕ) (fresh_jti text : String) (o : Option RefreshToken)
      → Futile (rotate sv now fresh_jti text o)
  unfolding rotate
  rotate-Futile now fresh_jti text none = refused-Futile
  rotate-Futile now fresh_jti text (some t) =
      if-Futile (t.token_hash == sv.password_manager.hash_refresh_token text)
        (exchange sv now fresh_jti t)
        (
          exchange-KeepsStored now fresh_jti t,
          λ w d. exchange-gives-none now fresh_jti t w (some d, none),
        )

  bind-Futile :
      {A : Type 0} (m : Exec (World Db Rd) A) (f : A → Exec (World Db Rd) (Reply TokenData))
      → KeepsStored m
      → ((a : A) → Futile (f a))
      → Futile (m >>= f)
  bind-Futile m f kept next = (
    bind-KeepsStored m f kept (λ a. (next a).0),
    λ w d e. let (a, _, r) = bind-eq-ok m f w e in (next a).1 (m w).1 d r,
  )

  refresh_claimed-Futile :
      (now : ℕ) (fresh_jti text : String) (o : Option String)
      → Futile (refresh_claimed sv now fresh_jti text o)
  unfolding refresh_claimed get_refresh_token_by_jti
  refresh_claimed-Futile now fresh_jti text none = refused-Futile
  refresh_claimed-Futile now fresh_jti text (some claimed) =
      let block : Exec (World Db Rd) (Reply TokenData) = (do
        jti ← lift (sv.parse_uuid claimed)
        old_token ← on_db (get_refresh_token_by_jti sv.orm jti now)
        rotate sv now fresh_jti text old_token) in
      let futile : Futile block =
        bind-Futile (lift (sv.parse_uuid claimed))
          (λ jti. on_db (get_refresh_token_by_jti sv.orm jti now) >>= rotate sv now fresh_jti text)
          (λ v. refl)
          (λ jti.
            bind-Futile (on_db (get_refresh_token_by_jti sv.orm jti now))
              (rotate sv now fresh_jti text) (λ v. law.select_token_stored (is_live jti now) v.db)
              (rotate-Futile now fresh_jti text)) in
      (
        λ v. in_session-stored sv.orm law block v futile.0,
        λ w d e.
            let (_, returned, _) = in_session-eq-ok sv.orm law block w e in
            futile.1 (record w { db = (sv.orm.begin w.db).1 }) d returned,
      )

  -- Where reading the relationship of a loaded token raises, as it does on an `AsyncSession`,
  -- `refresh_token` issues no pair for any text, and what is stored stays as it is: the token that was
  -- presented is not revoked. The database meets its contract.
  pub refresh_token-futile :
      (now : ℕ) (fresh_jti text : String) (w : World Db Rd)
      → (law.stored (refresh_token sv now fresh_jti text w).1.db ≡ law.stored w.db)
        × ((d : TokenData) → (refresh_token sv now fresh_jti text w).0 ≢ ok (some d, none))
  unfolding refresh_token
  refresh_token-futile now fresh_jti text w =
      let futile =
        bind-Futile (lift (decode_token sv.codec sv.show sv.jwt_manager text))
          (λ payload. refresh_claimed sv now fresh_jti text (claimed_jti payload)) (λ v. refl)
          (λ payload. refresh_claimed-Futile now fresh_jti text (claimed_jti payload)) in
      (futile.0 w, futile.1 w)
