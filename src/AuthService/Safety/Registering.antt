-- ===== src/AuthService/Safety/Registering.antt =====
-- `register` keeps a used-up key used up, however it ends.
use mmo_backend_server.Prelude.{
  ℕ, String, sym, subst, Bool, Option, none, some, is_some, if◌then◌else◌, Exception,
  unique_violation, Exec, lift, pure, ◌>>=◌, ◌>>◌, try_except, Keeps, Keeps-bind, Triple,
  Triple-try,
}
use mmo_backend_server.Repository.{
  Account, NewAccount, RegisterRequest, active, user, has_username, get_by_username, get_by_email,
  create_account,
}
use mmo_backend_server.Repository.Contract.{Contract}
use mmo_backend_server.AuthService.{World, Service, Reply, refuse, on_db}
use mmo_backend_server.Errors.{ErrorCode, auth_user_exists, internal_error}
use mmo_backend_server.AuthService.Safety
use mmo_backend_server.AuthService.Spent.{Spent}
use mmo_backend_server.AuthService.Register.{
  is_taken, register_account, registration_failed, register,
}

module _ {Db Rd Raw : Type 0} (sv : Service Db Rd Raw) (law : Contract sv.orm) (jti : String)
    (later : ℕ) where
  abbrev Out : World Db Rd → Type 0
  Out = Safety.Out sv law jti later

  abbrev In : World Db Rd → Type 0
  In = Safety.In sv law jti later

  abbrev Safe : {A : Type 0} → Exec (World Db Rd) A → Type 0
  Safe m = Triple In In Out m

  is_taken-Safe : (dto : RegisterRequest) (found : Option Account) → Safe (is_taken sv dto found)
  unfolding is_taken get_by_email
  is_taken-Safe dto (some a) = λ w h. h
  is_taken-Safe dto none =
      let k1 : Option Account → Exec (World Db Rd) Bool = λ o. pure (is_some o) in
      let find : Account → Bool = λ a. sv.same_email a.email dto.email in
      Safety.Safe-bind sv law jti later (on_db (sv.orm.select_account find)) k1
        (Safety.select_account-Safe sv law jti later find) (λ _ w h. h)

  create_account-Safe :
      (dto : RegisterRequest) (password_hash : String)
      → Safe (on_db (create_account sv.orm sv.lower dto password_hash))
  unfolding create_account
  create_account-Safe dto password_hash =
      let new : NewAccount = record {
        username = dto.username;
        email = sv.lower dto.email;
        status = active;
        role = user;
        credentials = some (record { password_hash = password_hash; last_login_at = none });
      } in
      Safety.on_db-bind-Safe sv law jti later (sv.orm.add_account new) (λ _. pure new)
        (Safety.on_db-Safe sv law jti later (sv.orm.add_account new) (law.add_account_stored new)
          (λ db a e. law.add_account_seen new db e))
        (λ _ w h. h)

  register_account-Safe : (dto : RegisterRequest) → Safe (register_account sv dto)
  unfolding register_account get_by_username
  register_account-Safe dto =
      let k6 : Account → Exec (World Db Rd) (Reply Account) =
        λ account. pure (some account, none) in
      let k5 : NewAccount → Unit {0} → Exec (World Db Rd) (Reply Account) =
        λ new _. on_db (sv.orm.added_account new) >>= k6 in
      let k4 : NewAccount → Exec (World Db Rd) (Reply Account) =
        λ new. on_db sv.orm.commit >>= k5 new in
      let k3 : String → Exec (World Db Rd) (Reply Account) =
        λ hashed. on_db (create_account sv.orm sv.lower dto hashed) >>= k4 in
      let store : Exec (World Db Rd) (Reply Account) =
        lift (sv.password_manager.hash_password dto.password) >>= k3 in
      let k2 : Bool → Exec (World Db Rd) (Reply Account) =
        λ taken. if taken then pure (refuse auth_user_exists) else store in
      let k1 : Option Account → Exec (World Db Rd) (Reply Account) =
        λ found. is_taken sv dto found >>= k2 in
      let find : Exec Db (Option Account) = sv.orm.select_account (has_username dto.username) in
      let store-Safe : Safe store =
        Safety.Safe-bind sv law jti later (lift (sv.password_manager.hash_password dto.password)) k3
          (Safety.lift-Safe sv law jti later (sv.password_manager.hash_password dto.password))
          (λ hashed.
            Safety.Safe-bind sv law jti later (on_db (create_account sv.orm sv.lower dto hashed)) k4
              (create_account-Safe dto hashed)
              (λ new.
                Safety.Safe-bind sv law jti later (on_db sv.orm.commit) (k5 new)
                  (Safety.commit-Safe sv law jti later)
                  (λ _.
                    Safety.Safe-bind sv law jti later (on_db (sv.orm.added_account new)) k6
                      (Safety.on_db-Safe sv law jti later (sv.orm.added_account new)
                        (law.added_account_stored new) (λ db a e. law.added_account_seen new db))
                      (λ _ w h. h)))) in
      Safety.Safe-bind sv law jti later (on_db find) k1
        (Safety.select_account-Safe sv law jti later (has_username dto.username))
        (λ found.
          Safety.Safe-bind sv law jti later (is_taken sv dto found) k2 (is_taken-Safe dto found)
            (λ taken.
              Safety.if-Safe sv law jti later taken (pure (refuse auth_user_exists)) store
                (λ w h. h) store-Safe))

  rollback-Keeps :
      (code : ErrorCode) → Keeps Out (on_db sv.orm.rollback >> pure (refuse {A = Account} code))
  rollback-Keeps code =
      Keeps-bind Out (on_db sv.orm.rollback) (λ _. pure (refuse {A = Account} code))
        (λ w h. subst (λ t. Spent jti later t.tokens) (sym (law.rollback_stored w.db)) h)
        (λ _ w h. h)

  registration_failed-Keeps : (e : Exception) → Keeps Out (registration_failed sv e)
  unfolding registration_failed
  registration_failed-Keeps unique_violation = rollback-Keeps auth_user_exists
  registration_failed-Keeps _ = rollback-Keeps internal_error

  pub register-Keeps : (dto : RegisterRequest) → Keeps Out (register sv dto)
  unfolding register
  register-Keeps dto =
      Safety.in_session-Keeps sv law jti later
        (try_except (register_account sv dto) (registration_failed sv))
        (Triple-try In Out Out Out (register_account sv dto) (registration_failed sv)
          (Safety.Safe-weaken sv law jti later (register_account sv dto)
            (register_account-Safe dto))
          (λ e.
            Safety.Keeps-Triple sv law jti later (registration_failed sv e)
              (registration_failed-Keeps e)))
