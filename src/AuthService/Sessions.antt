-- ===== src/AuthService/Sessions.antt =====
-- What a block leaves in the database, inside and outside its session.
use mmo_backend_server.Prelude.{
  ◌≡◌, refl, ap, ◌∙◌, Exec, ok, bind-of-ok, bind-eq-ok, try_finally, try_finally-eq-ok,
  try_finally-state, Keeps-bind,
}
use mmo_backend_server.Repository.{Orm}
use mmo_backend_server.Repository.Contract.{Contract}
use mmo_backend_server.AuthService.{World, on_db, in_session}

module _ {Db Rd A : Type 0} (orm : Orm Db) (law : Contract orm) (block : Exec (World Db Rd) A) where
  -- A session that returned `a`: it began, its block returned `a`, and what is stored afterwards is
  -- what the block left.
  pub in_session-eq-ok :
      (w : World Db Rd) {a : A}
      → (in_session orm block w).0 ≡ ok a
      → let w1 : World Db Rd = record w { db = (orm.begin w.db).1 } in
        ((orm.begin w.db).0 ≡ ok tt)
        × ((block w1).0 ≡ ok a)
        × (law.stored (in_session orm block w).1.db ≡ law.stored (block w1).1.db)
  in_session-eq-ok w e =
      let w1 : World Db Rd = record w { db = (orm.begin w.db).1 } in
      let rest : Exec (World Db Rd) A = try_finally block (on_db orm.close) in
      let (u, began, ended) = bind-eq-ok (on_db {Rd = Rd} orm.begin) (λ _. rest) w e in
      (
        began,
        (try_finally-eq-ok block (on_db orm.close) w1 ended).0,
        ap (λ out. law.stored out.1.db) (bind-of-ok (on_db orm.begin) (λ _. rest) w began)
            ∙ ap (λ v. law.stored v.db) (try_finally-state block (on_db orm.close) w1)
            ∙ law.close_stored (block w1).1.db,
      )

  -- However it ends, a session whose block leaves the stored rows alone leaves them alone.
  pub in_session-stored :
      (w : World Db Rd)
      → ((v : World Db Rd) → law.stored (block v).1.db ≡ law.stored v.db)
      → law.stored (in_session orm block w).1.db ≡ law.stored w.db
  in_session-stored w kept =
      Keeps-bind (λ v. law.stored v.db ≡ law.stored w.db) (on_db orm.begin)
        (λ _. try_finally block (on_db orm.close)) (λ v e. law.begin_stored v.db ∙ e)
        (λ _ v e.
          ap (λ u. law.stored u.db) (try_finally-state block (on_db orm.close) v)
          ∙ law.close_stored (block v).1.db
          ∙ kept v
          ∙ e)
        w refl
