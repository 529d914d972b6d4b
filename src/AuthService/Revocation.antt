-- ===== src/AuthService/Revocation.antt =====
-- `logout`: the key it leaves dead.
use mmo_backend_server.Prelude.{
  ℕ, ◌≤◌, String, ◌≡◌, sym, ap, subst, ◌∙◌, false, Option, none, some, List, map, any, Exec, ok,
  lift, pure, ◌>>=◌, ◌>>◌, bind-of-ok, bind-eq-ok,
}
use mmo_backend_server.Errors.{ErrorCode}
use mmo_backend_server.Jwt.{decode_token}
use mmo_backend_server.Repository.{RefreshToken, is_live, revoke_token, get_refresh_token_by_jti}
use mmo_backend_server.Repository.Contract.{Contract, Found, revoke_row}
use mmo_backend_server.AuthService.{World, Service, on_db, in_session}
use mmo_backend_server.AuthService.Sessions.{in_session-eq-ok}
use mmo_backend_server.AuthService.Refresh.{claimed_jti, revoke_found, logout_claimed, logout}
use mmo_backend_server.AuthService.DeadKeys.{IsDead, any-revoke_row, is_live_later, is_live-jti}
use mmo_backend_server.AuthService.Rotation.{Presents, in_block, queried}

module _ {Db Rd Raw : Type 0} (sv : Service Db Rd Raw) (law : Contract sv.orm) where
  logout_block : ℕ → String → Exec (World Db Rd) (Option ErrorCode)
  logout_block now jti = on_db (get_refresh_token_by_jti sv.orm jti now) >>= revoke_found sv now

  logout-is-session :
      (now : ℕ) (text jti : String) (p : Presents sv text jti) (w : World Db Rd)
      → logout sv now text w
        ≡ in_session sv.orm (lift (sv.parse_uuid p.claimed) >>= logout_block now) w
  unfolding logout logout_claimed logout_block
  logout-is-session now text jti p w =
      bind-of-ok (lift (decode_token sv.codec sv.show sv.jwt_manager text))
        (λ payload. logout_claimed sv now (claimed_jti payload)) w p.decoded
      ∙ ap (λ o. logout_claimed sv now o w) p.has_claim

  -- What a logout leaves once it looked its token up.
  revoke_found-IsDead :
      (now later : ℕ) (jti : String) (o : Option RefreshToken) (w : World Db Rd)
      → now ≤ later
      → Found (is_live jti now) (law.stored w.db).tokens (ok o)
      → (revoke_found sv now o w).0 ≡ ok none
      → IsDead jti later (law.stored (revoke_found sv now o w).1.db)
  unfolding revoke_found revoke_token
  revoke_found-IsDead now later jti none w le found e =
      is_live_later jti now later (law.stored w.db).tokens le found
  revoke_found-IsDead now later jti (some t) w le (live, _) e =
      let w1 : World Db Rd = record w { db = (sv.orm.set_revoked_at t now w.db).1 } in
      let revoke : Exec (World Db Rd) (Unit {0}) = on_db (sv.orm.set_revoked_at t now) in
      let k1 : Unit {0} → Exec (World Db Rd) (Option ErrorCode) = λ _. pure none in
      let k : Unit {0} → Exec (World Db Rd) (Option ErrorCode) =
        λ _. on_db sv.orm.commit >> pure none in
      let (u, e1, r1) = bind-eq-ok revoke k w e in
      let (v, e2, _) = bind-eq-ok (on_db sv.orm.commit) k1 w1 r1 in
      let rows : List RefreshToken = (law.seen w.db).tokens in
      let final : (law.stored (revoke_found sv now (some t) w).1.db).tokens
          ≡ map (revoke_row t.jti now) rows =
        ap (λ out. (law.stored out.1.db).tokens)
          (bind-of-ok revoke k w e1 ∙ bind-of-ok (on_db sv.orm.commit) k1 w1 e2)
        ∙ ap (λ x. x.tokens) (law.commit_ok w1.db e2)
        ∙ law.set_revoked_at_seen t now w.db e1 in
      subst
        (λ key.
          any (is_live key later) (law.stored (revoke_found sv now (some t) w).1.db).tokens ≡ false)
        (is_live-jti jti now t live)
        (ap (any (is_live t.jti later)) final ∙ any-revoke_row t.jti now later rows)

  -- After a logout that succeeded, the key it presented is dead from then on.
  pub logout-IsDead :
      (now later : ℕ) (text jti : String) (p : Presents sv text jti) (w : World Db Rd)
      → now ≤ later
      → (logout sv now text w).0 ≡ ok none
      → IsDead jti later (law.stored (logout sv now text w).1.db)
  unfolding logout_block get_refresh_token_by_jti
  logout-IsDead now later text jti p w le e =
      let find : Exec (World Db Rd) (Option RefreshToken) =
        on_db (get_refresh_token_by_jti sv.orm jti now) in
      let block : Exec (World Db Rd) (Option ErrorCode) =
        lift (sv.parse_uuid p.claimed) >>= logout_block now in
      let same : logout sv now text w ≡ in_session sv.orm block w =
        logout-is-session now text jti p w in
      let (began, returned, kept) =
        in_session-eq-ok sv.orm law block w (ap (λ out. out.0) (sym same) ∙ e) in
      let parsed : block (in_block sv w) ≡ logout_block now jti (in_block sv w) =
        bind-of-ok (lift (sv.parse_uuid p.claimed)) (logout_block now) (in_block sv w) p.parsed in
      let (o, asked, revoked) =
        bind-eq-ok find (revoke_found sv now) (in_block sv w)
          (ap (λ out. out.0) (sym parsed) ∙ returned) in
      let whole : block (in_block sv w) ≡ revoke_found sv now o (queried sv jti now w) =
        parsed ∙ bind-of-ok find (revoke_found sv now) (in_block sv w) asked in
      let rows : (law.seen (in_block sv w).db).tokens
          ≡ (law.stored (queried sv jti now w).db).tokens =
        ap (λ x. x.tokens)
          (law.begin_seen w.db began
            ∙ sym (
                law.select_token_stored (is_live jti now) (in_block sv w).db
                ∙ law.begin_stored w.db)) in
      let found : Found (is_live jti now) (law.stored (queried sv jti now w).db).tokens (ok o) =
        subst (λ l. Found (is_live jti now) l (ok o)) rows
          (subst (Found (is_live jti now) (law.seen (in_block sv w).db).tokens) asked
            (law.select_token_found (is_live jti now) (in_block sv w).db)) in
      subst (IsDead jti later)
        (sym (ap (λ out. law.stored out.1.db) same ∙ kept ∙ ap (λ out. law.stored out.1.db) whole))
        (revoke_found-IsDead now later jti o (queried sv jti now w) le found revoked)
