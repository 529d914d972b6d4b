-- ===== src/Transactions.antt =====
-- Sessions with a transaction around a block: libs/utils/transactional_decorator.py,
-- libs/infra/worker_db_utils.py and libs/infra/db.py.
-- SQLAlchemy is the parameter `Orm`, as for the repository; `in_transaction` is the session's.
pub mod Atomicity
use mmo_backend_server.Prelude.{
  Bool, if◌then◌else◌, Exception, Exec, pure, raise, ◌>>=◌, ◌>>◌, try_except, try_finally,
}
use mmo_backend_server.Repository.{Orm}

module _ {Db A : Type 0} (orm : Orm Db) (in_transaction : Db → Bool) where
  -- The block, and then the commit.
  abbrev pub committed : Exec Db A → Exec Db A
  committed block = do result ← block; orm.commit; pure result

  -- `if session.in_transaction(): await session.rollback()`, and `raise`.
  unfoldable pub roll_back : Exception → Exec Db A
  roll_back e = (λ s. if in_transaction s then orm.rollback s else pure tt s) >> raise e

  -- The wrapper of `transactional`: the session is closed before the exception is handled.
  unfoldable pub transactional : Exec Db A → Exec Db A
  transactional func = orm.begin >> try_except (try_finally (committed func) orm.close) roll_back

  -- `async with get_worker_db_session() as session: block`
  unfoldable pub with_worker_db_session : Exec Db A → Exec Db A
  with_worker_db_session block =
      orm.begin >> try_finally (try_except (committed block) roll_back) orm.close

  -- `async with get_db_session() as session: block`
  unfoldable pub with_db_session : Exec Db A → Exec Db A
  with_db_session block = orm.begin >> try_finally block orm.close
