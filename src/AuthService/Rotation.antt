-- ===== src/AuthService/Rotation.antt =====
-- `refresh_token`: its steps when it issues a pair, and the key it leaves dead.
use mmo_backend_server.Prelude.{
  ℕ, String, ◌≡◌, ◌≢◌, refl, sym, ap, subst, ◌∙◌, Bool, true, false, Option, none, some, ◌==◌,
  eq_refl, any, true-ne-false, if◌then◌else◌, Exec, ok, lift, pure, ◌>>=◌, bind-of-ok, bind-eq-ok,
}
use mmo_backend_server.Errors.{auth_refresh_invalid}
use mmo_backend_server.Jwt.{Claims, decode_token}
use mmo_backend_server.Repository.{RefreshToken, is_live, get_refresh_token_by_jti}
use mmo_backend_server.Repository.Contract.{Contract, Found}
use mmo_backend_server.AuthService.{World, Service, TokenData, Reply, refuse, on_db, in_session}
use mmo_backend_server.AuthService.Sessions.{in_session-eq-ok}
use mmo_backend_server.AuthService.Refresh.{
  claimed_jti, exchange, rotate, refresh_claimed, refresh_token,
}
use mmo_backend_server.AuthService.DeadKeys.{IsDead, is_live-jti}
use mmo_backend_server.AuthService.Exchange.{exchange-Spent}
use mmo_backend_server.AuthService.Spent.{Spent}

module _ {Db Rd Raw : Type 0} (sv : Service Db Rd Raw) where
  -- The token text carries this key.
  pub record Presents (text jti : String) : Type 0 where
    pub payload : Option Claims
    pub claimed : String
    pub decoded : decode_token sv.codec sv.show sv.jwt_manager text ≡ ok payload
    pub has_claim : claimed_jti payload ≡ some claimed
    pub parsed : sv.parse_uuid claimed ≡ ok jti

  -- The database and the Redis server inside the session, and after its query.
  abbrev pub in_block : World Db Rd → World Db Rd
  in_block w = record w { db = (sv.orm.begin w.db).1 }

  abbrev pub queried : String → ℕ → World Db Rd → World Db Rd
  queried jti now w = record w { db = (get_refresh_token_by_jti sv.orm jti now (in_block w).db).1 }

module _ {Db Rd Raw : Type 0} (sv : Service Db Rd Raw) (law : Contract sv.orm) where
  -- The steps of `refresh_token` after its claims.
  after_lookup : ℕ → String → String → String → Exec (World Db Rd) (Reply TokenData)
  after_lookup now fresh_jti text jti = do
    old_token ← on_db (get_refresh_token_by_jti sv.orm jti now)
    rotate sv now fresh_jti text old_token

  refresh_block : ℕ → String → String → String → Exec (World Db Rd) (Reply TokenData)
  refresh_block now fresh_jti text claimed =
      lift (sv.parse_uuid claimed) >>= after_lookup now fresh_jti text

  refresh_token-is-session :
      (now : ℕ) (fresh_jti text jti : String) (p : Presents sv text jti) (w : World Db Rd)
      → refresh_token sv now fresh_jti text w
        ≡ in_session sv.orm (refresh_block now fresh_jti text p.claimed) w
  unfolding refresh_token refresh_claimed refresh_block after_lookup
  refresh_token-is-session now fresh_jti text jti p w =
      bind-of-ok (lift (decode_token sv.codec sv.show sv.jwt_manager text))
        (λ payload. refresh_claimed sv now fresh_jti text (claimed_jti payload)) w p.decoded
      ∙ ap (λ o. refresh_claimed sv now fresh_jti text o w) p.has_claim

  checked-eq-ok :
      (b : Bool) (m : Exec (World Db Rd) (Reply TokenData)) (w : World Db Rd) (d : TokenData)
      → ((if b then m else pure (refuse auth_refresh_invalid)) w).0 ≡ ok (some d, none)
      → (if b then m else pure (refuse auth_refresh_invalid)) w ≡ m w
  checked-eq-ok true m w d e = refl
  checked-eq-ok false m w d e = cc

  -- A rotation that issued a pair found a token and exchanged it.
  rotate-eq-ok :
      (now : ℕ) (fresh_jti text : String) (o : Option RefreshToken) (w : World Db Rd)
      (d : TokenData)
      → (rotate sv now fresh_jti text o w).0 ≡ ok (some d, none)
      → (t : RefreshToken) × (o ≡ some t)
        × (rotate sv now fresh_jti text o w ≡ exchange sv now fresh_jti t w)
  unfolding rotate
  rotate-eq-ok now fresh_jti text none w d e = cc
  rotate-eq-ok now fresh_jti text (some t) w d e = (
    t,
    refl,
    checked-eq-ok (t.token_hash == sv.password_manager.hash_refresh_token text)
        (exchange sv now fresh_jti t) w d e,
  )

  -- A lookup that found a token answers with a row of the table, whose key is the one asked for.
  pub lookup-known :
      (jti : String) (now : ℕ) (db : Db) (t : RefreshToken)
      → (get_refresh_token_by_jti sv.orm jti now db).0 ≡ ok (some t)
      → (t.jti ≡ jti)
        × (any
              (λ row. row.jti == t.jti)
              (law.seen (get_refresh_token_by_jti sv.orm jti now db).1).tokens
            ≡ true)
  unfolding get_refresh_token_by_jti
  lookup-known jti now db t e =
      let (live, among) =
        subst (Found (is_live jti now) (law.seen db).tokens) e
          (law.select_token_found (is_live jti now) db) in
      (
        is_live-jti jti now t live,
        ap (λ x. any (λ row. row.jti == t.jti) x.tokens)
              (law.select_token_seen (is_live jti now) db)
            ∙ among (λ row. row.jti == t.jti) (eq_refl t.jti),
      )

  -- The steps of a refresh that issued a pair.
  record Refreshed (now : ℕ) (fresh_jti text jti : String) (w : World Db Rd) (d : TokenData)
      : Type 0 where
    t : RefreshToken
    began : (sv.orm.begin w.db).0 ≡ ok tt
    found : (get_refresh_token_by_jti sv.orm jti now (in_block sv w).db).0 ≡ ok (some t)
    exchanged : (exchange sv now fresh_jti t (queried sv jti now w)).0 ≡ ok (some d, none)
    final :
        law.stored (refresh_token sv now fresh_jti text w).1.db
        ≡ law.stored (exchange sv now fresh_jti t (queried sv jti now w)).1.db

  refresh_token-steps :
      (now : ℕ) (fresh_jti text jti : String) (p : Presents sv text jti) (w : World Db Rd)
      (d : TokenData)
      → (refresh_token sv now fresh_jti text w).0 ≡ ok (some d, none)
      → Refreshed now fresh_jti text jti w d
  unfolding refresh_block after_lookup
  refresh_token-steps now fresh_jti text jti p w d e =
      let block : Exec (World Db Rd) (Reply TokenData) =
        refresh_block now fresh_jti text p.claimed in
      let same : refresh_token sv now fresh_jti text w ≡ in_session sv.orm block w =
        refresh_token-is-session now fresh_jti text jti p w in
      let (began, returned, kept) =
        in_session-eq-ok sv.orm law block w (ap (λ out. out.0) (sym same) ∙ e) in
      let parsed : block (in_block sv w) ≡ after_lookup now fresh_jti text jti (in_block sv w) =
        bind-of-ok (lift (sv.parse_uuid p.claimed)) (after_lookup now fresh_jti text)
          (in_block sv w) p.parsed in
      let k : Option RefreshToken → Exec (World Db Rd) (Reply TokenData) =
        rotate sv now fresh_jti text in
      let looked_up : Exec (World Db Rd) (Option RefreshToken) =
        on_db (get_refresh_token_by_jti sv.orm jti now) in
      let (o, asked, rotated) =
        bind-eq-ok looked_up k (in_block sv w) (ap (λ out. out.0) (sym parsed) ∙ returned) in
      let (t, is_found, exchanges) =
        rotate-eq-ok now fresh_jti text o (queried sv jti now w) d rotated in
      let whole : block (in_block sv w) ≡ exchange sv now fresh_jti t (queried sv jti now w) =
        parsed ∙ bind-of-ok looked_up k (in_block sv w) asked ∙ exchanges in
      record {
        t = t;
        began = began;
        found = asked ∙ ap ok is_found;
        exchanged = ap (λ out. out.0) (sym whole) ∙ returned;
        final = ap (λ out. law.stored out.1.db) same ∙ kept ∙ ap (λ out. law.stored out.1.db) whole;
      }

  -- After a refresh that issued a pair, the key it presented is used up.
  pub refresh_token-Spent :
      (now later : ℕ) (fresh_jti text jti : String) (p : Presents sv text jti) (w : World Db Rd)
      (d : TokenData)
      → (refresh_token sv now fresh_jti text w).0 ≡ ok (some d, none)
      → Spent jti later (law.stored (refresh_token sv now fresh_jti text w).1.db).tokens
  refresh_token-Spent now later fresh_jti text jti p w d e =
      let s = refresh_token-steps now fresh_jti text jti p w d e in
      let (key, known) = lookup-known jti now (in_block sv w).db s.t s.found in
      rw s.final (
        subst
          (λ k.
            Spent k later
              (law.stored (exchange sv now fresh_jti s.t (queried sv jti now w)).1.db).tokens)
          key
          (exchange-Spent sv law now later fresh_jti s.t (queried sv jti now w) (some d, none) known
            s.exchanged))

  -- A refresh with a dead key issues no pair.
  pub refresh_token-of-IsDead :
      (now : ℕ) (fresh_jti text jti : String) (p : Presents sv text jti) (w : World Db Rd)
      (d : TokenData)
      → IsDead jti now (law.stored w.db)
      → (refresh_token sv now fresh_jti text w).0 ≢ ok (some d, none)
  unfolding get_refresh_token_by_jti
  refresh_token-of-IsDead now fresh_jti text jti p w d dead e =
      let s = refresh_token-steps now fresh_jti text jti p w d e in
      let (live, among) =
        subst (Found (is_live jti now) (law.seen (in_block sv w).db).tokens) s.found
          (law.select_token_found (is_live jti now) (in_block sv w).db) in
      let seen : (law.seen (in_block sv w).db).tokens ≡ (law.stored w.db).tokens =
        ap (λ x. x.tokens) (law.begin_seen w.db s.began) in
      true-ne-false (sym (among (is_live jti now) live) ∙ ap (any (is_live jti now)) seen ∙ dead)
