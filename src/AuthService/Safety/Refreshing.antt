-- ===== src/AuthService/Safety/Refreshing.antt =====
-- `refresh_token` and `logout` keep a used-up key used up, however they end.
use mmo_backend_server.Prelude.{
  ℕ, String, ap, Option, none, some, ◌==◌, Exec, lift, pure, ◌>>=◌, ◌>>◌, Keeps, Keeps-bind, Triple,
}
use mmo_backend_server.Repository.{
  RefreshToken, Account, is_live, revoke_token, get_refresh_token_by_jti,
}
use mmo_backend_server.Repository.Contract.{Contract}
use mmo_backend_server.AuthService.{
  World, Service, TokenData, Reply, refuse, on_db, issue_token_pair,
}
use mmo_backend_server.AuthService.Refresh.{
  exchange, rotate, refresh_claimed, refresh_token, revoke_found, logout_claimed, logout,
  claimed_jti,
}
use mmo_backend_server.Jwt.{decode_token}
use mmo_backend_server.Errors.{ErrorCode, auth_refresh_invalid}
use mmo_backend_server.AuthService.Safety

module _ {Db Rd Raw : Type 0} (sv : Service Db Rd Raw) (law : Contract sv.orm) (jti : String)
    (later : ℕ) where
  abbrev Out : World Db Rd → Type 0
  Out = Safety.Out sv law jti later

  abbrev In : World Db Rd → Type 0
  In = Safety.In sv law jti later

  abbrev Safe : {A : Type 0} → Exec (World Db Rd) A → Type 0
  Safe m = Triple In In Out m

  exchange-Safe :
      (now : ℕ) (fresh_jti : String) (t : RefreshToken) → Safe (exchange sv now fresh_jti t)
  unfolding exchange revoke_token
  exchange-Safe now fresh_jti t =
      let k3 : TokenData → Exec (World Db Rd) (Reply TokenData) =
        λ pair. on_db sv.orm.commit >> pure (some pair, none) in
      let k2 : Account → Exec (World Db Rd) (Reply TokenData) =
        λ account. issue_token_pair sv now fresh_jti account >>= k3 in
      let k1 : Unit {0} → Exec (World Db Rd) (Reply TokenData) =
        λ _. on_db (sv.orm.account_of t) >>= k2 in
      Safety.Safe-bind sv law jti later (on_db (sv.orm.set_revoked_at t now)) k1
        (Safety.set_revoked_at-Safe sv law jti later t now)
        (λ _.
          Safety.Safe-bind sv law jti later (on_db (sv.orm.account_of t)) k2
            (Safety.on_db-Safe sv law jti later (sv.orm.account_of t) (law.account_of_stored t)
              (λ db a e. ap (λ x. x.tokens) (law.account_of_seen t db)))
            (λ account.
              Safety.Safe-bind sv law jti later (issue_token_pair sv now fresh_jti account) k3
                (Safety.issue_token_pair-Safe sv law jti later now fresh_jti account)
                (λ pair.
                  Safety.Safe-bind sv law jti later (on_db sv.orm.commit)
                    (λ _. pure (some pair, none)) (Safety.commit-Safe sv law jti later)
                    (λ _ w h. h))))

  rotate-Safe :
      (now : ℕ) (fresh_jti text : String) (o : Option RefreshToken)
      → Safe (rotate sv now fresh_jti text o)
  unfolding rotate
  rotate-Safe now fresh_jti text none = λ w h. h
  rotate-Safe now fresh_jti text (some t) =
      Safety.if-Safe sv law jti later (t.token_hash == sv.password_manager.hash_refresh_token text)
        (exchange sv now fresh_jti t) (pure (refuse auth_refresh_invalid))
        (exchange-Safe now fresh_jti t) (λ w h. h)

  refresh_claimed-Keeps :
      (now : ℕ) (fresh_jti text : String) (o : Option String)
      → Keeps Out (refresh_claimed sv now fresh_jti text o)
  unfolding refresh_claimed get_refresh_token_by_jti
  refresh_claimed-Keeps now fresh_jti text none = λ w h. h
  refresh_claimed-Keeps now fresh_jti text (some claimed) =
      let k2 : Option RefreshToken → Exec (World Db Rd) (Reply TokenData) =
        rotate sv now fresh_jti text in
      let k1 : String → Exec (World Db Rd) (Reply TokenData) =
        λ key. on_db (sv.orm.select_token (is_live key now)) >>= k2 in
      Safety.in_session-Safe sv law jti later (lift (sv.parse_uuid claimed) >>= k1) (
        Safety.Safe-bind sv law jti later (lift (sv.parse_uuid claimed)) k1
          (Safety.lift-Safe sv law jti later (sv.parse_uuid claimed))
          (λ key.
            Safety.Safe-bind sv law jti later (on_db (sv.orm.select_token (is_live key now))) k2
              (Safety.select_token-Safe sv law jti later (is_live key now))
              (rotate-Safe now fresh_jti text)))

  pub refresh_token-Keeps :
      (now : ℕ) (fresh_jti text : String) → Keeps Out (refresh_token sv now fresh_jti text)
  unfolding refresh_token
  refresh_token-Keeps now fresh_jti text =
      Keeps-bind Out (lift (decode_token sv.codec sv.show sv.jwt_manager text))
        (λ payload. refresh_claimed sv now fresh_jti text (claimed_jti payload)) (λ w h. h)
        (λ payload. refresh_claimed-Keeps now fresh_jti text (claimed_jti payload))

  revoke_found-Safe : (now : ℕ) (o : Option RefreshToken) → Safe (revoke_found sv now o)
  unfolding revoke_found revoke_token
  revoke_found-Safe now none = λ w h. h
  revoke_found-Safe now (some t) =
      let k2 : Unit {0} → Exec (World Db Rd) (Option ErrorCode) = λ _. pure none in
      let k1 : Unit {0} → Exec (World Db Rd) (Option ErrorCode) = λ _. on_db sv.orm.commit >>= k2 in
      Safety.Safe-bind sv law jti later (on_db (sv.orm.set_revoked_at t now)) k1
        (Safety.set_revoked_at-Safe sv law jti later t now)
        (λ _.
          Safety.Safe-bind sv law jti later (on_db sv.orm.commit) k2
            (Safety.commit-Safe sv law jti later) (λ _ w h. h))

  logout_claimed-Keeps : (now : ℕ) (o : Option String) → Keeps Out (logout_claimed sv now o)
  unfolding logout_claimed get_refresh_token_by_jti
  logout_claimed-Keeps now none = λ w h. h
  logout_claimed-Keeps now (some claimed) =
      let k2 : Option RefreshToken → Exec (World Db Rd) (Option ErrorCode) = revoke_found sv now in
      let k1 : String → Exec (World Db Rd) (Option ErrorCode) =
        λ key. on_db (sv.orm.select_token (is_live key now)) >>= k2 in
      Safety.in_session-Safe sv law jti later (lift (sv.parse_uuid claimed) >>= k1) (
        Safety.Safe-bind sv law jti later (lift (sv.parse_uuid claimed)) k1
          (Safety.lift-Safe sv law jti later (sv.parse_uuid claimed))
          (λ key.
            Safety.Safe-bind sv law jti later (on_db (sv.orm.select_token (is_live key now))) k2
              (Safety.select_token-Safe sv law jti later (is_live key now))
              (revoke_found-Safe now)))

  pub logout-Keeps : (now : ℕ) (text : String) → Keeps Out (logout sv now text)
  unfolding logout
  logout-Keeps now text =
      Keeps-bind Out (lift (decode_token sv.codec sv.show sv.jwt_manager text))
        (λ payload. logout_claimed sv now (claimed_jti payload)) (λ w h. h)
        (λ payload. logout_claimed-Keeps now (claimed_jti payload))
