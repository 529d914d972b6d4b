-- ===== src/Tests/Service.antt =====
-- A service at concrete inputs: its readiness, a transaction, and a start that fails halfway.
use mmo_backend_server.Prelude.{
  String, sym, ap, ◌∙◌, ◌==◌, eq_refl, ok-injective, ℕ, ◌≡◌, refl, true, false, none, List, [], ◌∷◌,
  ◌++◌, map, nat_eq, if◌then◌else◌, runtime_error, ok, raised,
}
use mmo_backend_server.Health.{Dependencies, readiness_check, readiness_checks}
use mmo_backend_server.Health.Readiness.{readiness_check-service_up}
use mmo_backend_server.Repository.{RefreshToken}
use mmo_backend_server.Transactions.{transactional, with_worker_db_session}
use mmo_backend_server.Transactions.Atomicity.{Stores, transactional-Stores}
use mmo_backend_server.Bootstrap.{Parts, service_lifespan}
use mmo_backend_server.Bootstrap.Cleanup.{Event, started, stopped, shut, Observed}
use mmo_backend_server.Bootstrap.Runs.{service_lifespan-log}
use mmo_backend_server.Passwords.{
  Hashing, HashingLaw, hash_password, verify_password, verify_password-hash_password,
}
use mmo_backend_server.Tests.Store.{Db, orm, contract}

-- The database does not answer, and there is no Redis.
abbrev dependencies : Dependencies ℕ
dependencies = record {
  is_connected = λ s. (ok true, s);
  has_session_factory = true;
  select_1 = λ s. (raised runtime_error, s);
  has_redis = false;
  ping = λ s. (ok true, s);
}

readiness_check-service_up_example :
    ((readiness_check (readiness_checks dependencies) 0).0.body.ready ≡ false)
    × ((readiness_check (readiness_checks dependencies) 0).0.status_code ≡ 503)
readiness_check-service_up_example = readiness_check-service_up dependencies 0

abbrev token : RefreshToken
token = record {
  account_id = 1;
  jti = "t1";
  token_hash = "t1";
  user_agent = none;
  ip = none;
  expires_at = 500;
  revoked_at = none;
}

abbrev empty : Db
empty = record {
  stored = record { accounts = []; tokens = [] };
  seen = record { accounts = []; tokens = [] };
}

transactional-Stores_example :
    Stores contract
      (contract.seen (orm.add_token token empty).1)
      (contract.stored empty)
      (transactional orm (λ db. false) (orm.add_token token) empty)
    × Stores contract
        (contract.seen (orm.add_token token empty).1)
        (contract.stored empty)
        (with_worker_db_session orm (λ db. false) (orm.add_token token) empty)
transactional-Stores_example =
    transactional-Stores orm contract (λ db. false) (λ db. refl) (orm.add_token token)
      (contract.add_token_stored token) empty

abbrev Log : Type 0
Log = List (Event ℕ ℕ)

-- Two listeners, of which the second is started first and the first does not start.
abbrev parts : Parts Log ℕ ℕ ℕ ℕ
parts = record {
  settings = none;
  takes_settings = false;
  container_factory = λ o s. (ok 7, s);
  topology_declarator = λ c s. (ok tt, s);
  listener_factories = (λ c s. (ok 1, s)) ∷ (λ c s. (ok 2, s)) ∷ [];
  background_tasks = [];
  start = λ l s. (if nat_eq l 1 then raised runtime_error else ok tt, s ++ started l ∷ []);
  stop = λ l s. (raised runtime_error, s ++ stopped l ∷ []);
  cancel = λ t s. s;
  await_tasks = λ ts s. s;
  shutdown = λ c s. (ok tt, s ++ shut c ∷ []);
  serve = λ s. (ok tt, s);
}

abbrev observed : Observed parts
observed = record {
  log = λ s. s;
  start_log = λ l s. refl;
  stop_log = λ l s. refl;
  shutdown_log = λ c s. refl;
  container_factory_log = λ o s. refl;
  topology_declarator_log = λ c s. refl;
  listener_factories_log = (λ c s. refl, (λ c s. refl, tt));
  background_tasks_log = tt;
  cancel_log = λ t s. refl;
  await_tasks_log = λ ts s. refl;
  serve_log = λ s. refl;
}

service_lifespan-log_example :
    (xs rest : List ℕ) × ((service_lifespan parts []).1
      ≡ (map started xs ++ map stopped (xs ++ rest)) ++ shut 7 ∷ [])
service_lifespan-log_example = service_lifespan-log parts observed []

-- Texts for bytes, and a password that is its own hash.
abbrev hashing : Hashing String
hashing = record {
  encode = λ s. ok s;
  decode = λ b. ok b;
  gensalt = λ rounds. ok "salt";
  hashpw = λ p salt. ok p;
  checkpw = λ p b. ok (p == b);
  sha256_hexdigest = λ s. s;
}

hashing_holds : HashingLaw hashing
hashing_holds = record {
  encode_decode = λ b s e. sym e;
  checkpw_hashpw = λ p salt b e. ap (λ x. ok (p == x)) (sym (ok-injective e)) ∙ ap ok (eq_refl p);
}

hashes : hash_password hashing 12 "pw" ≡ ok "pw"
unfolding hash_password
hashes = refl

verify_password-hash_password_example : verify_password hashing 12 "pw" "pw" ≡ ok true
verify_password-hash_password_example =
    verify_password-hash_password hashing hashing_holds 12 "pw" "pw" hashes
