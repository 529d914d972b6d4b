-- ===== src/Names.antt =====
-- libs/messaging/rabbitmq_names.py and libs/utils/redis_keys.py: the names of exchanges, queues
-- and Redis keys. `str(account_id)` is the parameter `show` of the keys that hold a number.
pub mod Distinct
use Prim.Native.String.{◌++◌}
use mmo_backend_server.Prelude.{ℕ, String, List, [], ◌∷◌}
pub mod Exchanges
pub mod Queues

-- f"{base_name}.retry"
unfoldable pub get_retry_queue_name : String → String
get_retry_queue_name base_name = base_name ++ ".retry"

-- f"{base_name}.dlq"
unfoldable pub get_dlq_name : String → String
get_dlq_name base_name = base_name ++ ".dlq"

-- ':'.join(parts)
unfoldable pub join : List String → String
join [] = ""
join (part ∷ []) = part
join (part ∷ rest) = part ++ (":" ++ join rest)

unfoldable pub make_key : List String → String
unfolding join
make_key parts = "core:" ++ join parts

unfoldable pub key_auth_failed_attempts : String → String
unfolding make_key
key_auth_failed_attempts user = make_key ("auth" ∷ "rate" ∷ "login" ∷ user ∷ [])

unfoldable pub key_auth_ban : String → String
unfolding make_key
key_auth_ban user = make_key ("auth" ∷ "ban" ∷ "login" ∷ user ∷ [])

unfoldable pub key_auth_cache_account : (ℕ → String) → ℕ → String
unfolding make_key
key_auth_cache_account show account_id =
    make_key ("auth" ∷ "cache" ∷ "account" ∷ show account_id ∷ [])

unfoldable pub key_ws_online_user : (ℕ → String) → ℕ → String
unfolding make_key
key_ws_online_user show account_id = make_key ("ws" ∷ "online" ∷ show account_id ∷ [])
