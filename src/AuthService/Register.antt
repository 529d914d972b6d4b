-- ===== src/AuthService/Register.antt =====
-- apps/auth_svc/services/auth_service.py: `register`.

use mmo_backend_server.Prelude.{
  Bool, true, Option, none, some, is_some, if◌then◌else◌, Exception, unique_violation, Exec, pure,
  lift, ◌>>=◌, ◌>>◌, try_except,
}
use mmo_backend_server.Errors.{auth_user_exists, internal_error}
use mmo_backend_server.Repository.{
  Account, RegisterRequest, get_by_username, get_by_email, create_account,
}
use mmo_backend_server.AuthService.{World, Service, Reply, refuse, on_db, in_session}

module _ {Db Rd Raw : Type 0} (sv : Service Db Rd Raw) where
  -- The lookups of `register`; the second is made only if the first finds nothing.
  unfoldable pub is_taken : RegisterRequest → Option Account → Exec (World Db Rd) Bool
  is_taken dto (some _) = pure true
  is_taken dto none = do
    found ← on_db (get_by_email sv.orm sv.same_email dto.email)
    pure (is_some found)

  unfoldable pub register_account : RegisterRequest → Exec (World Db Rd) (Reply Account)
  unfolding is_taken
  register_account dto = do
    found ← on_db (get_by_username sv.orm dto.username)
    taken ← is_taken dto found
    if taken then pure (refuse auth_user_exists) else do
      hashed_password ← lift (sv.password_manager.hash_password dto.password)
      new_account ← on_db (create_account sv.orm sv.lower dto hashed_password)
      on_db sv.orm.commit
      account ← on_db (sv.orm.added_account new_account)
      pure (some account, none)

  unfoldable pub registration_failed : Exception → Exec (World Db Rd) (Reply Account)
  registration_failed unique_violation = on_db sv.orm.rollback >> pure (refuse auth_user_exists)
  registration_failed e = on_db sv.orm.rollback >> pure (refuse internal_error)

  unfoldable pub register : RegisterRequest → Exec (World Db Rd) (Reply Account)
  register dto = in_session sv.orm (try_except (register_account dto) registration_failed)
