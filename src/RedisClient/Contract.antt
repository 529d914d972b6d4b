-- ===== src/RedisClient/Contract.antt =====
-- What the service relies on of a Redis server that is up: documented behaviour of its commands,
-- stated on which keys exist and on the numbers that its counters hold. No key expires meanwhile.
use mmo_backend_server.Prelude.{
  ℕ, ◌+◌, String, ◌≡◌, Bool, true, false, Option, [], ◌∷◌, ok, ◌==◌, if◌then◌else◌,
}
use mmo_backend_server.RedisClient.{Redis}

pub record Contract {Rd Raw : Type 0} (r : Redis Rd Raw) : Type 0 where
  pub has : Rd → String → Bool
  pub count : Rd → String → ℕ
  pub exists_up :
      (k : String) (rd : Rd) → r.exists (k ∷ []) rd ≡ (ok (if has rd k then 1 else 0), rd)
  pub incr_up : (k : String) (rd : Rd) → (r.incr k rd).0 ≡ ok (count rd k + 1)
  pub incr_count : (k : String) (rd : Rd) → count (r.incr k rd).1 k ≡ count rd k + 1
  pub expire_up : (k : String) (ttl : ℕ) (rd : Rd) → (r.expire k ttl rd).0 ≡ ok tt
  pub expire_count : (k j : String) (ttl : ℕ) (rd : Rd) → count (r.expire k ttl rd).1 j ≡ count rd j
  pub set_up : (k v : String) (ttl : Option ℕ) (rd : Rd) → (r.set k v ttl rd).0 ≡ ok tt
  pub set_has : (k v : String) (ttl : Option ℕ) (rd : Rd) → has (r.set k v ttl rd).1 k ≡ true
  pub delete_has :
      (k j : String) (rd : Rd) → (k == j) ≡ false → has (r.delete (k ∷ []) rd).1 j ≡ has rd j
