-- ===== src/Containers/Shutdown.antt =====
-- Shutting a container down.
use mmo_backend_server.Prelude.{
  ◌≡◌, refl, ap, ◌∙◌, Bool, true, false, Result, ok, raised, Exec, ◌>>=◌,
}
use mmo_backend_server.Containers.{
  Clients, AuthContainer, Container, if_set, swallow, shutdown_auth_container, shutdown,
}

-- The state after a call that is made if the client is set.
abbrev pub after_if : {S : Type 0} → Bool → Exec S (Unit {0}) → S → S
after_if true m s = (m s).1
after_if false m s = s

swallow_lem : {S : Type 0} (m : Exec S (Unit {0})) (s : S) → swallow m s ≡ (ok tt, (m s).1)
swallow_lem {S = S} m s = caught (m s).0 (m s).1
  where
    caught : (r : Result (Unit {0})) (v : S) → swallow (λ (_ : S). (r, v)) s ≡ (ok tt, v)
    caught (ok _) v = refl
    caught (raised e) v = refl

if_set-swallow :
    {S : Type 0} (set : Bool) (m : Exec S (Unit {0})) (s : S)
    → swallow (if_set set m) s ≡ (ok tt, after_if set m s)
if_set-swallow true m s = swallow_lem m s
if_set-swallow false m s = refl

module _ {S : Type 0} (clients : Clients S) where
  -- Shutting a container down never raises, and closes each of its clients that is set, in order and
  -- once, whether closing those before it raises or not: the bus and the Redis client of the
  -- authentication service's container, and these and the database engine for the container of
  -- libs/infra/di.py.
  pub shutdown_lem :
      {Db Rd Raw : Type 0} (a : AuthContainer Db Rd Raw) (c : Container S) (s : S)
      → (shutdown_auth_container clients a s
          ≡ (ok tt, after_if a.redis clients.close_redis (after_if a.bus clients.close_bus s)))
        × (shutdown clients c ≡ (
          ok tt,
          (clients.dispose_engine
              (after_if c.redis clients.close_redis (after_if c.bus clients.close_bus c.outer))).1,
        ))
  unfolding shutdown_auth_container shutdown
  shutdown_lem a c s =
      let redis : Bool → Unit {0} → Exec S (Unit {0}) =
        λ b _. swallow (if_set b clients.close_redis) in
      let bus : Bool → Exec S (Unit {0}) = λ b. swallow (if_set b clients.close_bus) in
      let closed : (a_bus a_redis : Bool) (v : S)
          → (bus a_bus >>= redis a_redis) v
            ≡ (ok tt, after_if a_redis clients.close_redis (after_if a_bus clients.close_bus v)) =
        λ a_bus a_redis v.
          ap (λ out. ((λ (_ : S). out) >>= redis a_redis) v)
            (if_set-swallow a_bus clients.close_bus v)
          ∙ if_set-swallow a_redis clients.close_redis (after_if a_bus clients.close_bus v) in
      (
        closed a.bus a.redis s,
        ap (λ out. ((λ (_ : S). out) >>= λ _. swallow clients.dispose_engine) c.outer)
              (closed c.bus c.redis c.outer)
            ∙ swallow_lem clients.dispose_engine
                (after_if c.redis clients.close_redis (after_if c.bus clients.close_bus c.outer)),
      )
