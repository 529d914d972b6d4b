-- ===== src/Repository/Contract.antt =====
-- What the service relies on of the database: documented behaviour of SQL and of SQLAlchemy's
-- session, stated on the rows that the session sees and on those that are stored.
use mmo_backend_server.Prelude.{
  ℕ, String, ◌≡◌, Bool, true, false, Option, none, some, List, [], ◌∷◌, ◌++◌, map, ◌==◌,
  if◌then◌else◌, any, ok, Exception, Result, raised,
}
use mmo_backend_server.Repository.{Account, RefreshToken, NewAccount, Orm}

pub record Tables : Type 0 where
  pub accounts : List Account
  pub tokens : List RefreshToken

-- The rows of the tokens after an assignment to `revoked_at` of the row with the key `jti`.
abbrev pub revoke_row : String → ℕ → RefreshToken → RefreshToken
revoke_row jti now t = if t.jti == jti then record t { revoked_at = some now } else t

-- What a query may answer: a row of the table that meets the clauses (so any test that it passes
-- is passed by some row), or no row where none meets them.
abbrev pub Found : {A : Type 0} → (A → Bool) → List A → Result (Option A) → Type 0
Found p rows (ok none) = any p rows ≡ false
Found {A} p rows (ok (some a)) = (p a ≡ true) × ((q : A → Bool) → q a ≡ true → any q rows ≡ true)
Found p rows (raised e) = Unit

-- `seen` is what the session's queries read, `stored` what the database keeps. No law says that a
-- call returns.
pub record Contract {Db : Type 0} (orm : Orm Db) : Type 0 where
  pub seen : Db → Tables
  pub stored : Db → Tables
  pub begin_stored : (db : Db) → stored (orm.begin db).1 ≡ stored db
  pub begin_seen : (db : Db) → (orm.begin db).0 ≡ ok tt → seen (orm.begin db).1 ≡ stored db
  pub close_stored : (db : Db) → stored (orm.close db).1 ≡ stored db
  pub commit_ok : (db : Db) → (orm.commit db).0 ≡ ok tt → stored (orm.commit db).1 ≡ seen db
  pub commit_raised :
      (db : Db) (e : Exception)
      → (orm.commit db).0 ≡ raised e
      → stored (orm.commit db).1 ≡ stored db
  pub rollback_stored : (db : Db) → stored (orm.rollback db).1 ≡ stored db
  -- queries
  pub select_account_found :
      (p : Account → Bool) (db : Db) → Found p (seen db).accounts (orm.select_account p db).0
  pub select_account_seen :
      (p : Account → Bool) (db : Db) → seen (orm.select_account p db).1 ≡ seen db
  pub select_account_stored :
      (p : Account → Bool) (db : Db) → stored (orm.select_account p db).1 ≡ stored db
  pub select_token_found :
      (p : RefreshToken → Bool) (db : Db) → Found p (seen db).tokens (orm.select_token p db).0
  pub select_token_seen :
      (p : RefreshToken → Bool) (db : Db) → seen (orm.select_token p db).1 ≡ seen db
  pub select_token_stored :
      (p : RefreshToken → Bool) (db : Db) → stored (orm.select_token p db).1 ≡ stored db
  pub select_credentials_stored :
      (id : ℕ) (db : Db) → stored (orm.select_credentials id db).1 ≡ stored db
  pub account_of_seen : (t : RefreshToken) (db : Db) → seen (orm.account_of t db).1 ≡ seen db
  pub account_of_stored : (t : RefreshToken) (db : Db) → stored (orm.account_of t db).1 ≡ stored db
  pub added_account_stored :
      (a : NewAccount) (db : Db) → stored (orm.added_account a db).1 ≡ stored db
  -- writes, which other sessions do not see before the commit
  pub add_account_stored : (a : NewAccount) (db : Db) → stored (orm.add_account a db).1 ≡ stored db
  pub add_token_stored : (t : RefreshToken) (db : Db) → stored (orm.add_token t db).1 ≡ stored db
  pub add_token_seen :
      (t : RefreshToken) (db : Db)
      → (orm.add_token t db).0 ≡ ok tt
      → (seen (orm.add_token t db).1).tokens ≡ (seen db).tokens ++ t ∷ []
  -- the unique constraint on `jti`
  pub add_token_fresh :
      (t : RefreshToken) (db : Db)
      → (orm.add_token t db).0 ≡ ok tt
      → any (λ r. r.jti == t.jti) (seen db).tokens ≡ false
  pub set_revoked_at_stored :
      (t : RefreshToken) (now : ℕ) (db : Db) → stored (orm.set_revoked_at t now db).1 ≡ stored db
  pub set_revoked_at_seen :
      (t : RefreshToken) (now : ℕ) (db : Db)
      → (orm.set_revoked_at t now db).0 ≡ ok tt
      → (seen (orm.set_revoked_at t now db).1).tokens ≡ map (revoke_row t.jti now) (seen db).tokens
  pub set_last_login_at_stored :
      (id now : ℕ) (db : Db) → stored (orm.set_last_login_at id now db).1 ≡ stored db
  -- queries and assignments to other tables leave the tokens that the session sees alone
  pub select_credentials_seen :
      (id : ℕ) (db : Db) → (seen (orm.select_credentials id db).1).tokens ≡ (seen db).tokens
  pub added_account_seen :
      (a : NewAccount) (db : Db) → (seen (orm.added_account a db).1).tokens ≡ (seen db).tokens
  pub add_account_seen :
      (a : NewAccount) (db : Db)
      → (orm.add_account a db).0 ≡ ok tt
      → (seen (orm.add_account a db).1).tokens ≡ (seen db).tokens
  pub set_last_login_at_seen :
      (id now : ℕ) (db : Db)
      → (orm.set_last_login_at id now db).0 ≡ ok tt
      → (seen (orm.set_last_login_at id now db).1).tokens ≡ (seen db).tokens
  -- `expire_on_commit=False`
  pub commit_seen :
      (db : Db) → (orm.commit db).0 ≡ ok tt → (seen (orm.commit db).1).tokens ≡ (seen db).tokens
