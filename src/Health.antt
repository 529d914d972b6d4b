-- ===== src/Health.antt =====
-- libs/app/health.py, the readiness probe, with the checks that libs/app/bootstrap.py gives it.
-- A check is its name and its call; what it asks is a parameter over a state `S`.
pub mod Readiness
use mmo_backend_server.Prelude.{
  ℕ, String, Bool, true, false, ◌&&◌, Option, none, some, List, [], ◌∷◌, if◌then◌else◌, Exception,
  Result, ok, raised, Exec, pure, gets, ◌>>=◌, try_except,
}
use mmo_backend_server.Prelude.Dict.{Dict, insert}

pub record ReadinessStatus : Type 0 where
  pub ready : Bool
  pub dependencies : Dict Bool

-- The body of the answer and its HTTP status.
pub record Probe : Type 0 where
  pub status_code : ℕ
  pub body : ReadinessStatus

-- `"name", is_ready`, or `None`.
abbrev pub Answer : Type 0
Answer = Option (String × Bool)

abbrev pub Check : Type 0 → Type 0
Check S = String × Exec S Answer

abbrev pub note : String → Bool → ReadinessStatus → ReadinessStatus
note name is_ready st = record {
  ready = st.ready && is_ready;
  dependencies = insert name is_ready st.dependencies;
}

-- What one check's outcome does to `all_ready` and `dep_statuses`.
unfoldable pub take_outcome : String → Result Answer → ReadinessStatus → ReadinessStatus
take_outcome name (raised e) st = note name false st
take_outcome name (ok none) st = st
take_outcome name (ok (some (dependency, is_ready))) st = note dependency is_ready st

module _ {S : Type 0} where
  unfoldable pub run_checks : List (Check S) → ReadinessStatus → S → ReadinessStatus × S
  run_checks [] st s = (st, s)
  run_checks ((name, check_fn) ∷ checks) st s =
      let (r, s') = check_fn s in run_checks checks (take_outcome name r st) s'

  unfoldable pub readiness_check : List (Check S) → S → Probe × S
  readiness_check checks s =
      let (st, s') = run_checks checks (record { ready = true; dependencies = [] }) s in
      (record { status_code = if st.ready then 200 else 503; body = st }, s')

-- What the checks of `create_service_app` ask: the bus, the database over `check_db_connection`, and
-- the Redis client, if the container has them.
pub record Dependencies (S : Type 0) : Type 0 where
  pub is_connected : Exec S Bool
  pub has_session_factory : Bool
  pub select_1 : Exec S (Unit {0})
  pub has_redis : Bool
  pub ping : Exec S Bool

module _ {S : Type 0} (d : Dependencies S) where
  -- libs/infra/db.py
  unfoldable pub check_db_connection : Exec S Bool
  check_db_connection = try_except (d.select_1 >>= λ _. pure true) (λ e. pure false)

  abbrev pub named : String → Bool → Answer
  named name is_ready = some (name, is_ready)

  unfoldable pub rmq_check : Exec S Answer
  rmq_check = d.is_connected >>= λ is_ready. pure (named "rabbitmq" is_ready)

  unfoldable pub db_check : Exec S Answer
  db_check =
      if d.has_session_factory
      then (check_db_connection >>= λ is_ready. pure (named "postgres" is_ready))
      else pure none

  unfoldable pub redis_check : Exec S Answer
  redis_check =
      if d.has_redis
      then try_except (d.ping >>= λ is_ready. pure (named "redis" is_ready))
          (λ e. pure (named "redis" false))
      else pure none

  abbrev pub readiness_checks : List (Check S)
  readiness_checks =
      ("rmq_check", rmq_check) ∷ ("db_check", db_check) ∷ ("redis_check", redis_check) ∷ []
