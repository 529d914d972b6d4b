-- ===== src/RedisClient.antt =====
-- libs/infra/central_redis_client.py: the wrapper around the Redis client.
-- The Redis server and its driver are the parameter `Redis`, over a state `Rd`. A wrapper method
-- whose client is not connected logs and answers with a default.
pub mod Contract
use mmo_backend_server.Prelude.{
  ℕ, String, Bool, true, false, Option, none, some, List, [], ◌∷◌, if◌then◌else◌, Exception, Result,
  ok, raised, Exec, pure, raise, runtime_error, try_except, ◌>>=◌, ◌>>◌, modify, gets, lift,
}

-- The driver's commands that the program uses; a key's value is a text or bytes `Raw`.
pub record Redis (Rd Raw : Type 0) : Type 0 where
  pub get : String → Exec Rd (Option String)
  pub get_raw : String → Exec Rd (Option Raw)
  pub set : String → String → Option ℕ → Exec Rd (Unit {0})
  pub set_raw : String → Raw → Option ℕ → Exec Rd (Unit {0})
  pub delete : List String → Exec Rd ℕ
  pub exists : List String → Exec Rd ℕ
  pub incr : String → Exec Rd ℕ
  pub expire : String → ℕ → Exec Rd (Unit {0})
  pub hget : String → String → Exec Rd (Option String)
  pub hset : String → String → String → Exec Rd (Unit {0})
  pub hset_raw : String → List (String × Raw) → Exec Rd (Unit {0})
  pub hgetall : String → Exec Rd (List (String × String))
  pub hdel : String → List String → Exec Rd ℕ
  pub publish : String → String → Exec Rd (Unit {0})
  pub ping : Exec Rd (Unit {0})
  pub close : Exec Rd (Unit {0})

-- Whether `self.redis` and `self.redis_raw` are set.
pub record Client : Type 0 where
  pub redis : Bool
  pub redis_raw : Bool

abbrev pub connected : Client
connected = record { redis = true; redis_raw = true }

abbrev pub disconnected : Client
disconnected = record { redis = false; redis_raw = false }

-- A pair of a mapping put before the others, if all of them could be encoded.
abbrev pub encoded :
    {Raw : Type 0}
    → String
    → Result Raw
    → Result (List (String × Raw))
    → Result (List (String × Raw))
encoded k (raised e) rest = raised e
encoded k (ok v) (raised e) = raised e
encoded k (ok v) (ok others) = ok ((k, v) ∷ others)

module _ {Rd Raw : Type 0} (r : Redis Rd Raw) where
  -- `from_url` only builds the pools; the two pings are the first traffic. A failure leaves both
  -- clients unset.
  unfoldable pub connect : Exec (Client × Rd) (Unit {0})
  connect (c, rd) =
      if c.redis
      then (ok tt, (c, rd))
      else let (out, rd') = (r.ping >> r.ping) rd in
        elim out [ ok _ ↦ (ok tt, (connected, rd')) | raised e ↦ (raised e, (disconnected, rd')) ]

  close_if : Bool → Exec Rd (Unit {0})
  close_if true = r.close
  close_if false = pure tt

  unfoldable pub close : Exec (Client × Rd) (Unit {0})
  unfolding close_if
  close (c, rd) =
      let (out, rd') = (close_if c.redis >> close_if c.redis_raw) rd in
      elim out [ ok _ ↦ (ok tt, (disconnected, rd')) | raised e ↦ (raised e, (c, rd')) ]

  module _ (c : Client) where
    abbrev pub get : String → Exec Rd (Option String)
    get key = if c.redis then r.get key else pure none

    abbrev pub set : String → String → Option ℕ → Exec Rd (Unit {0})
    set key v ex = if c.redis then r.set key v ex else pure tt

    abbrev pub delete : List String → Exec Rd ℕ
    delete names = if c.redis then r.delete names else pure 0

    abbrev pub exists : List String → Exec Rd ℕ
    exists names = if c.redis then r.exists names else pure 0

    unfoldable pub hget : String → String → Exec Rd (Option String)
    hget name key = if c.redis then r.hget name key else pure none

    unfoldable pub hset : String → String → String → Exec Rd (Unit {0})
    hset name key v = if c.redis then r.hset name key v else pure tt

    unfoldable pub hgetall : String → Exec Rd (List (String × String))
    hgetall name = if c.redis then r.hgetall name else pure []

    unfoldable pub hdel : String → List String → Exec Rd ℕ
    hdel name names = if c.redis then r.hdel name names else pure 0

    unfoldable pub publish : String → String → Exec Rd (Unit {0})
    publish channel message = if c.redis then r.publish channel message else pure tt

    -- `pipeline` raises where the others answer with a default.
    unfoldable pub pipeline : Exec Rd (Unit {0})
    pipeline = if c.redis then pure tt else raise runtime_error

    -- JSON values, in UTF-8: `loads` parses stored bytes, and fails with `json_error` (a
    -- `JSONDecodeError` or `UnicodeDecodeError`); `dumps` may fail too.
    module _ {Json : Type 0} (loads : Raw → Option Json) (dumps : Json → Result Raw)
        (is_empty : Raw → Bool) where
      abbrev decode : Option Raw → Option Json
      decode none = none
      decode (some data_bytes) = if is_empty data_bytes then none else loads data_bytes

      unfoldable pub get_json : String → Exec Rd (Option Json)
      get_json key =
          if c.redis_raw
          then (do data_bytes ← r.get_raw key; pure (decode data_bytes))
          else pure none

      abbrev save : String → Option ℕ → Result Raw → Exec Rd (Unit {0})
      save key ex (ok json_bytes) = r.set_raw key json_bytes ex
      save key ex (raised e) = raise e

      -- Every failure is logged and swallowed.
      unfoldable pub set_json : String → Json → Option ℕ → Exec Rd (Unit {0})
      set_json key v ex =
          if c.redis_raw then try_except (save key ex (dumps v)) (λ _. pure tt) else pure tt

      -- The values encoded, or the first failure.
      unfoldable pub encode_mapping : List (String × Json) → Result (List (String × Raw))
      encode_mapping [] = ok []
      encode_mapping ((k, v) ∷ mapping) = encoded k (dumps v) (encode_mapping mapping)

      -- Every failure is logged and swallowed; nothing is stored if a value cannot be encoded.
      unfoldable pub hsetall_json : String → List (String × Json) → Exec Rd (Unit {0})
      hsetall_json name mapping =
          if c.redis_raw
          then try_except (lift (encode_mapping mapping) >>= r.hset_raw name) (λ _. pure tt)
          else pure tt
