-- ===== src/Health/Readiness.antt =====
-- When a service is ready.
use mmo_backend_server.Prelude.{
  String, ◌≡◌, refl, sym, ap, ◌∙◌, Bool, true, false, ◌&&◌, none, some, List, [], ◌∷◌,
  if◌then◌else◌, Result, ok, raised, Exec, pure, ◌>>=◌, try_except,
}
use mmo_backend_server.Health.{
  ReadinessStatus, Answer, Check, take_outcome, run_checks, readiness_check, Dependencies, named,
  check_db_connection, rmq_check, db_check, redis_check, readiness_checks,
}

-- An outcome that speaks against the service.
abbrev pub is_healthy : Result Answer → Bool
is_healthy (raised e) = false
is_healthy (ok none) = true
is_healthy (ok (some (dependency, is_ready))) = is_ready

and_assoc : (a b c : Bool) → (a && b) && c ≡ a && (b && c)
and_assoc true b c = refl
and_assoc false b c = refl

and_true : (a : Bool) → a && true ≡ a
and_true true = refl
and_true false = refl

take_outcome-ready :
    (name : String) (r : Result Answer) (st : ReadinessStatus)
    → (take_outcome name r st).ready ≡ st.ready && is_healthy r
unfolding take_outcome
take_outcome-ready name (raised e) st = refl
take_outcome-ready name (ok none) st = sym (and_true st.ready)
take_outcome-ready name (ok (some (dependency, is_ready))) st = refl

module _ {S : Type 0} where
  -- Whether every check, run in order from a state, speaks for the service.
  abbrev pub all_healthy : List (Check S) → S → Bool
  all_healthy [] s = true
  all_healthy ((name, check_fn) ∷ checks) s =
      let rest = all_healthy checks (check_fn s).1 in is_healthy (check_fn s).0 && rest

  run_checks-ready :
      (checks : List (Check S)) (st : ReadinessStatus) (s : S)
      → (run_checks checks st s).0.ready ≡ st.ready && all_healthy checks s
  unfolding run_checks
  run_checks-ready [] st s = sym (and_true st.ready)
  run_checks-ready ((name, check_fn) ∷ checks) st s =
      run_checks-ready checks (take_outcome name (check_fn s).0 st) (check_fn s).1
      ∙ ap (λ b. b && all_healthy checks (check_fn s).1) (take_outcome-ready name (check_fn s).0 st)
      ∙ and_assoc st.ready (is_healthy (check_fn s).0) (all_healthy checks (check_fn s).1)

abbrev pub answered : Result Bool → Bool
answered (ok b) = b
answered (raised e) = false

abbrev pub returned : Result (Unit {0}) → Bool
returned (ok _) = true
returned (raised e) = false

module _ {S : Type 0} (d : Dependencies S) where
  -- A dependency that the container does not have is passed over, its state with it.
  abbrev pub database_up : Bool → S → Bool × S
  database_up true s = (returned (d.select_1 s).0, (d.select_1 s).1)
  database_up false s = (true, s)

  abbrev pub redis_up : Bool → S → Bool × S
  redis_up true s = (answered (d.ping s).0, (d.ping s).1)
  redis_up false s = (true, s)

  -- The bus is connected, and the database and Redis answer, where the container has them.
  abbrev pub service_up : S → Bool
  service_up s =
      let s1 = (d.is_connected s).1 in
      let (database, s2) = database_up d.has_session_factory s1 in
      let (redis, s3) = redis_up d.has_redis s2 in
      answered (d.is_connected s).0 && (database && (redis && true))

  rmq_check_lem :
      (s : S)
      → (is_healthy (rmq_check d s).0 ≡ answered (d.is_connected s).0)
        × ((rmq_check d s).1 ≡ (d.is_connected s).1)
  unfolding rmq_check
  rmq_check_lem s = of_result (d.is_connected s).0 (d.is_connected s).1
    where
      of_result :
          (r : Result Bool) (v : S)
          → let out = ((λ (_ : S). (r, v)) >>= λ b. pure (named d "rabbitmq" b)) s in
            (is_healthy out.0 ≡ answered r) × (out.1 ≡ v)
      of_result (ok b) v = (refl, refl)
      of_result (raised e) v = (refl, refl)

  db_check_lem :
      (s : S)
      → (is_healthy (db_check d s).0 ≡ (database_up d.has_session_factory s).0)
        × ((db_check d s).1 ≡ (database_up d.has_session_factory s).1)
  unfolding db_check check_db_connection
  db_check_lem s = of_flag d.has_session_factory
    where
      of_result :
          (r : Result (Unit {0})) (v : S)
          → let out =
              (try_except ((λ (_ : S). (r, v)) >>= λ _. pure true) (λ e. pure false) >>= λ b.
              pure (named d "postgres" b))
                s in
            (is_healthy out.0 ≡ returned r) × (out.1 ≡ v)
      of_result (ok b) v = (refl, refl)
      of_result (raised e) v = (refl, refl)

      of_flag :
          (b : Bool)
          → let out =
              (if b
                  then (check_db_connection d >>= λ is_ready. pure (named d "postgres" is_ready))
                  else pure none)
                s in
            (is_healthy out.0 ≡ (database_up b s).0) × (out.1 ≡ (database_up b s).1)
      of_flag true = of_result (d.select_1 s).0 (d.select_1 s).1
      of_flag false = (refl, refl)

  redis_check_lem :
      (s : S)
      → (is_healthy (redis_check d s).0 ≡ (redis_up d.has_redis s).0)
        × ((redis_check d s).1 ≡ (redis_up d.has_redis s).1)
  unfolding redis_check
  redis_check_lem s = of_flag d.has_redis
    where
      asking : Exec S Answer → Exec S Answer
      asking m = try_except m (λ e. pure (named d "redis" false))

      of_result :
          (r : Result Bool) (v : S)
          → let out = asking ((λ (_ : S). (r, v)) >>= λ b. pure (named d "redis" b)) s in
            (is_healthy out.0 ≡ answered r) × (out.1 ≡ v)
      of_result (ok b) v = (refl, refl)
      of_result (raised e) v = (refl, refl)

      of_flag :
          (b : Bool)
          → let out =
              (if b
                  then asking (d.ping >>= λ is_ready. pure (named d "redis" is_ready))
                  else pure none)
                s in
            (is_healthy out.0 ≡ (redis_up b s).0) × (out.1 ≡ (redis_up b s).1)
      of_flag true = of_result (d.ping s).0 (d.ping s).1
      of_flag false = (refl, refl)

  all_healthy-service_up : (s : S) → all_healthy (readiness_checks d) s ≡ service_up s
  all_healthy-service_up s =
      let (rmq, s1) = rmq_check_lem s in
      let (db, s2) = db_check_lem (rmq_check d s).1 in
      let (redis, s3) = redis_check_lem (db_check d (rmq_check d s).1).1 in
      rw rmq (rw db (rw redis (rw s2 (rw s1 refl))))

  -- The readiness probe of a service answers 200 and `ready` if the bus is connected, and the database
  -- and Redis answer where the container has them, and 503 and not `ready` in every other case, a check
  -- that raises among them.
  pub readiness_check-service_up :
      (s : S)
      → let probe = (readiness_check (readiness_checks d) s).0 in
        (probe.body.ready ≡ service_up s)
        × (probe.status_code ≡ (if service_up s then 200 else 503))
  unfolding readiness_check
  readiness_check-service_up s =
      let ready : (readiness_check (readiness_checks d) s).0.body.ready ≡ service_up s =
        run_checks-ready (readiness_checks d) (record { ready = true; dependencies = [] }) s
        ∙ all_healthy-service_up s in
      (ready, ap (λ b. if b then 200 else 503) ready)
