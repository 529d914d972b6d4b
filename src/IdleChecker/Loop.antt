-- ===== src/IdleChecker/Loop.antt =====
-- apps/gateway/gateway_main.py: the loop of `idle_connection_checker`, for as many turns as there are
-- readings of the clock. What the other tasks do to the gateway while the checker sleeps is `others`.
use mmo_backend_server.Prelude.{
  ℕ, ◌+◌, ◌≤◌, ◌<◌, String, ◌≡◌, refl, ap, ◌∙◌, Option, none, some, List, [], ◌∷◌, arith, ltb,
  length, if◌then◌else◌, Bool-cases, inl, inr, ok, Exec, pure, modify, ◌>>=◌, ◌>>◌, bind-of-ok,
}
use mmo_backend_server.Prelude.Dict.{lookup}
use mmo_backend_server.Connections.{Network, Gateway}
use mmo_backend_server.IdleChecker.{check_round, check_round_lem, expire}

pub record Turn (Net : Type 0) : Type 0 where
  pub others : Gateway Net → Gateway Net
  pub now : ℕ

module _ {Net : Type 0} (n : Network Net) (ping_interval idle_timeout : ℕ) where
  unfoldable pub idle_connection_checker : List (Turn Net) → Exec (Gateway Net) (Unit {0})
  idle_connection_checker [] = pure tt
  idle_connection_checker (turn ∷ turns) = do
    modify turn.others
    check_round n idle_timeout turn.now
    idle_connection_checker turns

  -- Each turn comes at least an interval after the one before.
  abbrev pub Paced : ℕ → List (Turn Net) → Type 0
  Paced t [] = Unit
  Paced t (turn ∷ turns) = (t + ping_interval ≤ turn.now) × Paced turn.now turns

  -- The other tasks neither touch nor restore the connection of this client.
  abbrev pub Silent : String → List (Turn Net) → Type 0
  Silent k [] = Unit
  Silent k (turn ∷ turns) =
      ((g : Gateway Net)
        → lookup k (turn.others g).manager.active_connections
          ≡ lookup k g.manager.active_connections)
      × Silent k turns

  abbrev expire_all : List (Turn Net) → Option (ℕ × ℕ) → Option (ℕ × ℕ)
  expire_all [] o = o
  expire_all (turn ∷ turns) o = expire_all turns (expire idle_timeout turn.now o)

  -- The checker never raises, and a silent client's entry goes through every round.
  idle_connection_checker_lem :
      (k : String) (turns : List (Turn Net)) (g : Gateway Net)
      → Silent k turns
      → ((idle_connection_checker turns g).0 ≡ ok tt)
        × (lookup k (idle_connection_checker turns g).1.manager.active_connections
            ≡ expire_all turns (lookup k g.manager.active_connections))
  unfolding idle_connection_checker
  idle_connection_checker_lem k [] g silent = (refl, refl)
  idle_connection_checker_lem k (turn ∷ turns) g (kept, silent) =
      let g1 : Gateway Net = turn.others g in
      let round : Exec (Gateway Net) ℕ = check_round n idle_timeout turn.now in
      let rest : ℕ → Exec (Gateway Net) (Unit {0}) = λ _. idle_connection_checker turns in
      let ((closed_count, returned), expired) = check_round_lem n idle_timeout turn.now g1 in
      let go_on : (round >>= rest) g1 ≡ idle_connection_checker turns (round g1).1 =
        bind-of-ok round rest g1 returned in
      let (ends, after) = idle_connection_checker_lem k turns (round g1).1 silent in
      (
        ap (λ out. out.0) go_on ∙ ends,
        ap (λ out. lookup k out.1.manager.active_connections) go_on
            ∙ after
            ∙ ap (expire_all turns) (expired k ∙ ap (expire idle_timeout turn.now) (kept g)),
      )

  expire_all-none : (turns : List (Turn Net)) → expire_all turns none ≡ none
  expire_all-none [] = refl
  expire_all-none (turn ∷ turns) = expire_all-none turns

  expire_all-late :
      1 ≤ ping_interval
      → (ws last t : ℕ) (turns : List (Turn Net)) → Paced t turns
      → last + idle_timeout < t + length turns
      → t ≤ last + idle_timeout
      → expire_all turns (some (ws, last)) ≡ none
  expire_all-late waits ws last t [] paced late early = absurd (not_both late early)
    where
      not_both : {a b : ℕ} → a < b + 0 → b ≤ a → ⊥
      not_both lt le = omega arith
  expire_all-late waits ws last t (turn ∷ turns) (after, paced) late early =
      elim (Bool-cases (ltb (last + idle_timeout) turn.now)) [
        | inl idle ↦
            ap (λ b. expire_all turns (if b then none else some (ws, last))) idle
            ∙ expire_all-none turns
        | inr fresh ↦
            ap (λ b. expire_all turns (if b then none else some (ws, last))) fresh
            ∙ expire_all-late waits ws last turn.now turns paced (omega (arith, late, waits, after))
                (ground (arith, fresh))
      ]

  -- The checker never raises, and a connection that stays silent is dropped: after as many turns as its
  -- last activity and the timeout are ahead of the clock, and one more, its client is not registered.
  -- Conditions: a turn comes at least an interval after the one before, the interval is not zero, the
  -- connection has not timed out at first, and the other tasks leave its entry alone.
  pub idle_connection_checker-drops :
      (k : String) (ws last t : ℕ) (turns : List (Turn Net)) (g : Gateway Net)
      → 1 ≤ ping_interval
      → lookup k g.manager.active_connections ≡ some (ws, last)
      → Silent k turns
      → Paced t turns
      → t ≤ last + idle_timeout
      → last + idle_timeout < t + length turns
      → ((idle_connection_checker turns g).0 ≡ ok tt)
        × (lookup k (idle_connection_checker turns g).1.manager.active_connections ≡ none)
  idle_connection_checker-drops k ws last t turns g waits found silent paced early late =
      let (ends, after) = idle_connection_checker_lem k turns g silent in
      (
        ends,
        after
            ∙ ap (expire_all turns) found
            ∙ expire_all-late waits ws last t turns paced late early,
      )
