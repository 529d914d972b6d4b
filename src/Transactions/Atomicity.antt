-- ===== src/Transactions/Atomicity.antt =====
-- A transaction keeps all of its block's writes, or none.
use mmo_backend_server.Prelude.{
  ◌≡◌, refl, ◌∙◌, Bool, true, false, if◌then◌else◌, Exception, Result, ok, raised, Exec, pure,
  raise, lift, ◌>>=◌, try_except, try_finally, finish, Ends, both-Ends, subst, Triple-bind,
}
use mmo_backend_server.Repository.{Orm}
use mmo_backend_server.Repository.Contract.{Contract, Tables}
use mmo_backend_server.Transactions.{committed, roll_back, transactional, with_worker_db_session}

-- What is stored after a call: `after` if it returned, `before` if it raised.
abbrev pub Stores :
    {Db A : Type 0} {orm : Orm Db} → Contract orm → Tables → Tables → Result A × Db → Type 0
Stores law after before = Ends (λ db. law.stored db ≡ after) (λ db. law.stored db ≡ before)

roll_back-Stores :
    {Db : Type 0} (A : Type 0) (orm : Orm Db) (law : Contract orm) (in_transaction : Db → Bool)
    (e : Exception) (after before : Tables) (db : Db)
    → law.stored db ≡ before
    → Stores {A = A} law after before (roll_back orm in_transaction e db)
unfolding roll_back
roll_back-Stores {Db = Db} A orm law in_transaction e after before db h =
    let Before : Db → Type 0 = λ v. law.stored v ≡ before in
    let After : Db → Type 0 = λ v. law.stored v ≡ after in
    Triple-bind Before Before After Before
      (λ v. if in_transaction v then orm.rollback v else pure tt v) (λ _. raise {A = A} e)
      (λ v k.
        both-Ends Before (if in_transaction v then orm.rollback v else pure tt v)
          (rolled (in_transaction v) v k))
      (λ _ v k. k) db h
  where
    rolled :
        (b : Bool) (v : Db)
        → law.stored v ≡ before
        → law.stored (if b then orm.rollback v else pure tt v).1 ≡ before
    rolled true v k = law.rollback_stored v ∙ k
    rolled false v k = k

module _ {Db A : Type 0} (orm : Orm Db) (law : Contract orm) (in_transaction : Db → Bool)
    (close_returns : (db : Db) → (orm.close db).0 ≡ ok tt) where
  commit_from :
      (a : A) (db : Db) (t : Tables) (r : Result (Unit {0}))
      → (orm.commit db).0 ≡ r
      → law.stored db ≡ t
      → Stores law (law.seen db) t ((lift r >>= λ _. pure a) (orm.commit db).1)
  commit_from a db t (ok _) e h = law.commit_ok db e
  commit_from a db t (raised x) e h = law.commit_raised db x e ∙ h

  committed_from :
      (r : Result A) (db : Db) (t : Tables)
      → law.stored db ≡ t
      → Stores law (law.seen db) t (committed orm in_transaction (λ _. (r, db)) db)
  committed_from (ok a) db t h = commit_from a db t (orm.commit db).0 refl h
  committed_from (raised e) db t h = h

  closed_from :
      (r : Result A) (closed : Result (Unit {0})) (db : Db) (after before : Tables)
      → closed ≡ ok tt
      → Stores law after before (r, db)
      → Stores law after before (finish r (closed, db))
  closed_from r (ok _) db after before e h = h
  closed_from r (raised x) db after before e h = cc

  stays :
      (r : Result A) (db db' : Db) (after before : Tables)
      → law.stored db' ≡ law.stored db
      → Stores law after before (r, db)
      → Stores law after before (r, db')
  stays (ok a) db db' after before e h = e ∙ h
  stays (raised x) db db' after before e h = e ∙ h

  -- Closing the session changes nothing.
  try_finally-Stores :
      (m : Exec Db A) (db : Db) (after before : Tables)
      → Stores law after before (m db)
      → Stores law after before (try_finally m orm.close db)
  try_finally-Stores m db after before h =
      closed_from (m db).0 (orm.close (m db).1).0 (orm.close (m db).1).1 after before
        (close_returns (m db).1)
        (stays (m db).0 (m db).1 (orm.close (m db).1).1 after before (law.close_stored (m db).1) h)

  try_except-Stores :
      (m : Exec Db A) (db : Db) (after before : Tables)
      → Stores law after before (m db)
      → Stores law after before (try_except m (roll_back orm in_transaction) db)
  try_except-Stores m db after before h = handled (m db).0 (m db).1 h
    where
      handled :
          (r : Result A) (v : Db)
          → Stores law after before (r, v)
          → Stores law after before
              (try_except (λ (_ : Db). (r, v)) (roll_back orm in_transaction) v)
      handled (ok a) v k = k
      handled (raised e) v k = roll_back-Stores A orm law in_transaction e after before v k

  module _ (block : Exec Db A) (keeps : (db : Db) → law.stored (block db).1 ≡ law.stored db) where
    -- What the block's session sees at its end.
    abbrev pub written : Db → Tables
    written db = law.seen (block (orm.begin db).1).1

    committed-Stores :
        (db : Db)
        → Stores law (law.seen (block db).1) (law.stored db) (committed orm in_transaction block db)
    committed-Stores db = committed_from (block db).0 (block db).1 (law.stored db) (keeps db)

    began :
        (m : Exec Db A) (db : Db) (r : Result (Unit {0}))
        → (orm.begin db).0 ≡ r
        → Stores law (written db) (law.stored db) (m (orm.begin db).1)
        → Stores law (written db) (law.stored db) ((lift r >>= λ _. m) (orm.begin db).1)
    began m db (ok _) e h = h
    began m db (raised x) e h = law.begin_stored db

    committed_in_session :
        (db : Db)
        → Stores law
            (written db)
            (law.stored db)
            (committed orm in_transaction block (orm.begin db).1)
    committed_in_session db =
        subst (λ t. Stores law (written db) t (committed orm in_transaction block (orm.begin db).1))
          (law.begin_stored db) (committed-Stores (orm.begin db).1)

    -- A block in a transaction, under the decorator `transactional` or in `get_worker_db_session`, is
    -- done entirely or not at all: if the call returns, what its session saw at the end of the block is
    -- stored, and if it raises, what was stored before is stored still. Conditions: the block does not
    -- commit itself, closing a session returns, and the database meets its contract.
    pub transactional-Stores :
        (db : Db)
        → Stores law (written db) (law.stored db) (transactional orm in_transaction block db)
          × Stores law
              (written db)
              (law.stored db)
              (with_worker_db_session orm in_transaction block db)
    unfolding transactional with_worker_db_session
    transactional-Stores db =
        let done : Exec Db A = committed orm in_transaction block in
        let db1 : Db = (orm.begin db).1 in
        (
          began (try_except (try_finally done orm.close) (roll_back orm in_transaction)) db
              (orm.begin db).0 refl
              (try_except-Stores (try_finally done orm.close) db1 (written db) (law.stored db) (
                try_finally-Stores done db1 (written db) (law.stored db)
                  (committed_in_session db))),
          began (try_finally (try_except done (roll_back orm in_transaction)) orm.close) db
              (orm.begin db).0 refl
              (try_finally-Stores (try_except done (roll_back orm in_transaction)) db1 (written db)
                (law.stored db)
                (try_except-Stores done db1 (written db) (law.stored db)
                  (committed_in_session db))),
        )
