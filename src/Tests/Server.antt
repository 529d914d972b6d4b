-- ===== src/Tests/Server.antt =====
-- A Redis server that is a set of keys and their counters: it meets its contract.
use mmo_backend_server.Prelude.{
  ap, ℕ, ◌+◌, String, ◌≡◌, refl, Bool, true, false, none, List, [], ◌∷◌, ◌==◌, eq_refl, arith,
  if◌then◌else◌, ok, pure,
}
use mmo_backend_server.RedisClient.{Redis}
use mmo_backend_server.RedisClient.Contract.{Contract}

-- Redis: which keys there are, and the counters.
pub record Rd : Type 0 where
  pub has : String → Bool
  pub count : String → ℕ

abbrev how_many : Rd → List String → ℕ
how_many rd [] = 0
how_many rd (k ∷ ks) = (if rd.has k then 1 else 0) + how_many rd ks

abbrev set_key : String → Bool → ℕ → Rd → Rd
set_key k there n rd = record {
  has = λ j. if k == j then there else rd.has j;
  count = λ j. if k == j then n else rd.count j;
}

abbrev drop_keys : List String → Rd → Rd
drop_keys [] rd = rd
drop_keys (k ∷ ks) rd = drop_keys ks (set_key k false 0 rd)

abbrev pub redis : Redis Rd String
redis = record {
  get = λ k rd. (ok none, rd);
  get_raw = λ k rd. (ok none, rd);
  set = λ k v ex rd. (ok tt, set_key k true 0 rd);
  set_raw = λ k v ex rd. (ok tt, set_key k true 0 rd);
  delete = λ ks rd. (ok (how_many rd ks), drop_keys ks rd);
  exists = λ ks rd. (ok (how_many rd ks), rd);
  incr = λ k rd. (ok (rd.count k + 1), set_key k true (rd.count k + 1) rd);
  expire = λ k ttl. pure tt;
  hget = λ k f. pure none;
  hset = λ k f v. pure tt;
  hset_raw = λ name mapping rd. (ok tt, rd);
  hgetall = λ k. pure [];
  hdel = λ k fs. pure 0;
  publish = λ ch m. pure tt;
  ping = pure tt;
  close = pure tt;
}

pub add_zero : (n : ℕ) → n + 0 ≡ n
add_zero n = omega arith

abbrev pub redis_contract : Contract redis
redis_contract = record {
  has = λ rd k. rd.has k;
  count = λ rd k. rd.count k;
  exists_up = λ k rd. ap (λ n. (ok n, rd)) (add_zero (if rd.has k then 1 else 0));
  incr_up = λ k rd. refl;
  incr_count = λ k rd. rw (eq_refl k) refl;
  expire_up = λ k ttl rd. refl;
  expire_count = λ k j ttl rd. refl;
  set_up = λ k v ttl rd. refl;
  set_has = λ k v ttl rd. rw (eq_refl k) refl;
  delete_has = λ k j rd h. rw h refl;
}
