-- ===== src/Topology/Routing.antt =====
-- Where RabbitMQ takes a message in the declared topology: an exchange passes it on by its type, and a
-- queue with a time to live dead-letters it when that is over. The matching of the patterns of a topic
-- exchange is a parameter.
use mathlib.Core.List.{append-nil}
use mmo_backend_server.Prelude.{
  ℕ, zero, suc, ◌+◌, ◌*◌, String, ◌≡◌, refl, ◌∙◌, ap, Bool, false, true, ◌&&◌, Option, none, some,
  List, [], ◌∷◌, ◌++◌, map, ◌==◌, if◌then◌else◌, All, arith,
}
use mmo_backend_server.Names.{get_retry_queue_name, get_dlq_name}
use mmo_backend_server.Names.Exchanges
use mmo_backend_server.Names.Queues
use mmo_backend_server.Topology.{Arguments, Declaration, declare_auth_topology}

-- The type of an exchange, by its first declaration.
abbrev type_of : List Declaration → String → Option String
type_of [] name = none
type_of (Declaration.exchange ex type durable ∷ ds) name =
    if ex == name then some type else type_of ds name
type_of (_ ∷ ds) name = type_of ds name

-- The arguments of a queue, by its first declaration.
abbrev arguments : List Declaration → String → Option Arguments
arguments [] name = none
arguments (Declaration.queue q durable args ∷ ds) name =
    if q == name then some args else arguments ds name
arguments (_ ∷ ds) name = arguments ds name

abbrev each : {A B : Type 0} → (A → List B) → List A → List B
each f [] = []
each f (x ∷ xs) = f x ++ each f xs

-- The RPC queues of auth_svc.
abbrev pub rpc_queues : List String
rpc_queues =
    Queues.auth_issue_token_rpc ∷ Queues.auth_validate_token_rpc ∷ Queues.auth_register_rpc
    ∷ Queues.auth_refresh_token_rpc ∷ Queues.auth_logout_rpc ∷ []

module _ (topic_matches : String → String → Bool) where
  -- Whether an exchange of a type passes a message on over a binding.
  abbrev passes : Option String → String → String → Bool
  passes none key routing_key = false
  passes (some type) key routing_key =
      if type == "direct"
      then key == routing_key
      else if type == "fanout"
      then true
      else if type == "topic"
      then topic_matches key routing_key
      else false

  abbrev bound : Option String → List Declaration → String → String → List String
  bound type [] exchange routing_key = []
  bound type (Declaration.binding queue ex key ∷ ds) exchange routing_key =
      let rest = bound type ds exchange routing_key in
      if ex == exchange && passes type key routing_key then queue ∷ rest else rest
  bound type (_ ∷ ds) exchange routing_key = bound type ds exchange routing_key

  -- The queues that a message reaches, published to an exchange with a routing key.
  unfoldable pub route : List Declaration → String → String → List String
  route ds exchange routing_key = bound (type_of ds exchange) ds exchange routing_key

  abbrev dead_letter_target : List Declaration → Option String → Option String → List String
  dead_letter_target ds (some exchange) (some key) = route ds exchange key
  dead_letter_target ds _ _ = []

  -- Where a queue takes a message that it dead-letters.
  unfoldable pub dead_letter : List Declaration → String → List String
  unfolding route
  dead_letter ds name = elim (arguments ds name) [
    | none ↦ []
    | some args ↦ dead_letter_target ds args.dead_letter_exchange args.dead_letter_routing_key
  ]

  -- Where a message goes that waits in a queue with no consumer, and after how many milliseconds:
  -- nowhere, if the queue has no time to live.
  abbrev pub expired : List Declaration → String → List (String × ℕ)
  expired ds name = elim (arguments ds name) [
    | none ↦ []
    | some args ↦ elim args.message_ttl [
      | none ↦ []
      | some ttl ↦ map (λ q. (q, ttl)) (dead_letter ds name)
    ]
  ]

  -- Where a message comes to that a consumer of the queue rejects, and after how long.
  unfoldable pub rejected : List Declaration → String → List (String × ℕ)
  unfolding dead_letter
  rejected ds name = each (expired ds) (dead_letter ds name)

  -- Where a message is that was rejected so many times, from a queue on, and how long it waited.
  unfoldable pub travel : List Declaration → ℕ → ℕ → String → List (String × ℕ)
  travel ds zero waited q = (q, waited) ∷ []
  travel ds (suc k) waited q =
      each (λ place. travel ds k (waited + place.1) place.0) (rejected ds q)

  -- The way of the requests of a queue, for the delay of the retries: a request reaches that queue
  -- alone; rejected for the k-th time, it is back in it, in no other place, after k delays. What is
  -- published to the dead-letter exchange under the name of the queue's DLQ reaches that alone, which
  -- passes nothing on.
  pub record HasRetryCycle (ds : List Declaration) (retry_delay_ms : ℕ) (q : String) : Type 0 where
    pub requests : route ds Exchanges.rpc q ≡ q ∷ []
    pub comes_back : (k : ℕ) → travel ds k 0 q ≡ (q, k * retry_delay_ms) ∷ []
    pub buried : route ds Exchanges.dlx (get_dlq_name q) ≡ get_dlq_name q ∷ []
    pub ended : rejected ds (get_dlq_name q) ≡ []
    pub stays : expired ds (get_dlq_name q) ≡ []

  -- A queue that takes a rejected message back after `t` does so each time.
  travel-cycle :
      (ds : List Declaration) (q : String) (t : ℕ)
      → rejected ds q ≡ (q, t) ∷ []
      → (k waited : ℕ) → travel ds k waited q ≡ (q, waited + k * t) ∷ []
  unfolding travel
  travel-cycle ds q t back zero waited = ap (λ n. (q, n) ∷ []) (grind arith)
  travel-cycle ds q t back (suc k) waited =
      ap (each (λ place. travel ds k (waited + place.1) place.0)) back
      ∙ append-nil (travel ds k (waited + t) q)
      ∙ travel-cycle ds q t back k (waited + t)
      ∙ ap (λ n. (q, n) ∷ []) (grind arith)

  HasRetryCycle-of :
      (ds : List Declaration) (t : ℕ) (q : String)
      → route ds Exchanges.rpc q ≡ q ∷ []
      → rejected ds q ≡ (q, t) ∷ []
      → route ds Exchanges.dlx (get_dlq_name q) ≡ get_dlq_name q ∷ []
      → rejected ds (get_dlq_name q) ≡ []
      → expired ds (get_dlq_name q) ≡ []
      → HasRetryCycle ds t q
  HasRetryCycle-of ds t q requests back buried ended stays = record {
    requests = requests;
    comes_back = λ k. travel-cycle ds q t back k 0 ∙ ap (λ n. (q, n) ∷ []) (grind arith);
    buried = buried;
    ended = ended;
    stays = stays;
  }

  -- In the topology that is declared, whatever the delay of the retries, every RPC queue has its retry
  -- cycle: a request reaches its queue alone, and after any number of rejections it is back in that
  -- queue and in no other, having waited the delay each time. What is published to the dead-letter
  -- exchange for the queue reaches its dead-letter queue alone and stays there. A direct exchange passes
  -- a message on where the routing key is the binding's, and a message that expires or is rejected is
  -- published again as the queue's arguments say.
  pub declare_auth_topology-HasRetryCycle :
      (retry_delay_ms : ℕ)
      → All (HasRetryCycle (declare_auth_topology retry_delay_ms) retry_delay_ms) rpc_queues
  unfolding declare_auth_topology route rejected dead_letter get_retry_queue_name get_dlq_name
  declare_auth_topology-HasRetryCycle ms =
      let ds : List Declaration = declare_auth_topology ms in
      (
        HasRetryCycle-of ds ms Queues.auth_issue_token_rpc refl refl refl refl refl,
        (
          HasRetryCycle-of ds ms Queues.auth_validate_token_rpc refl refl refl refl refl,
          (
            HasRetryCycle-of ds ms Queues.auth_register_rpc refl refl refl refl refl,
            (
              HasRetryCycle-of ds ms Queues.auth_refresh_token_rpc refl refl refl refl refl,
              (HasRetryCycle-of ds ms Queues.auth_logout_rpc refl refl refl refl refl, tt),
            ),
          ),
        ),
      )
